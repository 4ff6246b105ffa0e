-- ===== src/Engines/NativeShells.antt =====
-- The shells of engines/native/sandbox.go, and what counts them.

use taskcluster_worker.Prelude.{
  ℕ, ◌+◌, ◌≡◌, ◌≢◌, refl, ap, Bool, true, false, not, ◌&&◌, List, [], ◌∷◌, ◌++◌, arith, ltb, length,
  length-append,
}
use taskcluster_worker.Prelude.Int.{pos, ◌+ℤ◌}
use taskcluster_worker.Atomics.WaitGroup.{add, done, drain, arm, wait_and_drain}
use taskcluster_worker.Engines.NativeSandbox.{
  NativeSandbox, new_shell, without, has, shell_done, all_done, abort_shells, drained, finish,
  Event, starts_shell, ends_shell, process_ends, finishes, happens,
}

abbrev distinct : List ℕ → Bool
distinct [] = true
distinct (x ∷ xs) = not (has x xs) && distinct xs

abbrev below : ℕ → List ℕ → Bool
below n [] = true
below n (x ∷ xs) = ltb x n && below n xs

without-absent : (x : ℕ) (xs : List ℕ) → has x xs ≡ false → without x xs ≡ xs
without-absent x [] h = refl
without-absent x (y ∷ ys) h = ground (arith, without-absent x ys)

length-without :
    (x : ℕ) (xs : List ℕ)
    → distinct xs ≡ true
    → has x xs ≡ true
    → length (without x xs) + 1 ≡ length xs
length-without x [] d h = absurd (ground arith)
length-without x (y ∷ ys) d h = ground (arith, length-without x ys, without-absent x ys)

has-without : (x y : ℕ) (ys : List ℕ) → has x ys ≡ false → has x (without y ys) ≡ false
has-without x y [] h = h
has-without x y (z ∷ zs) h = ground (arith, has-without x y zs)

distinct-without : (x : ℕ) (xs : List ℕ) → distinct xs ≡ true → distinct (without x xs) ≡ true
distinct-without x [] d = d
distinct-without x (y ∷ ys) d = ground (arith, distinct-without x ys, has-without y x ys)

below-without : (n x : ℕ) (xs : List ℕ) → below n xs ≡ true → below n (without x xs) ≡ true
below-without n x [] b = b
below-without n x (y ∷ ys) b = ground (arith, below-without n x ys)

has-above : (n : ℕ) (xs : List ℕ) → below n xs ≡ true → has n xs ≡ false
has-above n [] b = refl
has-above n (x ∷ xs) b = ground (arith, has-above n xs)

has-append : (x n : ℕ) (xs : List ℕ) → has x xs ≡ false → x ≢ n → has x (xs ++ n ∷ []) ≡ false
has-append x n [] h d = ground arith
has-append x n (y ∷ ys) h d = ground (arith, has-append x n ys)

distinct-append :
    (n : ℕ) (xs : List ℕ) → below n xs ≡ true → distinct xs ≡ true → distinct (xs ++ n ∷ []) ≡ true
distinct-append n [] b d = ground arith
distinct-append n (x ∷ xs) b d = ground (arith, distinct-append n xs, has-append x n xs)

below-append : (n : ℕ) (xs : List ℕ) → below n xs ≡ true → below (n + 1) (xs ++ n ∷ []) ≡ true
below-append n [] b = ground arith
below-append n (x ∷ xs) b = ground (arith, below-append n xs)

all_done_lem :
    (xs : List ℕ) (s : NativeSandbox)
    → s.shells ≡ []
    → s.sessions.count ≡ pos (length xs)
    → all_done xs s ≡ record s { sessions = record (s.sessions) { count = pos 0 } }
unfolding all_done shell_done done ◌+ℤ◌
all_done_lem [] s e c = ground arith
all_done_lem (x ∷ xs) s e c = ground (arith, all_done_lem xs (shell_done x s))

pub record Counted (s : NativeSandbox) : Type 0 where
  pub counted : s.sessions.count ≡ pos (length s.shells)
  pub apart : distinct s.shells ≡ true
  pub numbered : below s.next_shell s.shells ≡ true

pub Counted-happens : (e : Event) (s : NativeSandbox) → Counted s → Counted (happens e s)
unfolding happens new_shell shell_done drained finish add done wait_and_drain arm ◌+ℤ◌
Counted-happens (starts_shell b) s v = ground (
  arith,
  v,
  distinct-append s.next_shell s.shells,
  below-append s.next_shell s.shells,
  length-append s.shells (s.next_shell ∷ []),
)
Counted-happens (ends_shell x) s v = ground (
  arith,
  v,
  length-without x s.shells,
  distinct-without x s.shells,
  below-without s.next_shell x s.shells,
)
Counted-happens (process_ends b) s v = ground (arith, v)
Counted-happens finishes s v = ground (arith, v)

pub length-zero : (xs : List ℕ) → length xs ≡ 0 → xs ≡ []
length-zero [] e = refl
length-zero (x ∷ xs) e = absurd (omega arith)

pub abort_shells_lem :
    (s : NativeSandbox)
    → Counted s
    → abort_shells s
      ≡ record s { shells = []; sessions = record { count = pos 0; draining = true; armed = true } }
unfolding abort_shells drain arm
abort_shells_lem s v =
    ap {A = NativeSandbox} (λ t. record t { sessions = arm t.sessions })
      (all_done_lem s.shells (record s { sessions = drain s.sessions; shells = [] }) refl v.counted)
