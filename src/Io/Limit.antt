-- ===== src/Io/Limit.antt =====
-- What ReadAtMost of runtime/ioext/readatmost.go returns.
use mathlib.Core.List.{append-nil, append_assoc}
use taskcluster_worker.Prelude.{
  ℕ, zero, suc, ◌+◌, ◌-◌, ◌≤◌, ◌<◌, ◌≡◌, ◌⊎◌, inl, inr, refl, sym, ap, subst, ◌∙◌, true, false,
  List, [], ◌∷◌, ◌++◌, Option, none, some, arith, ltb, leb, if◌then◌else◌, length, take, drop,
  take-drop, length-drop, Bool-cases,
}
use taskcluster_worker.Prelude.Int.{pos, negsuc, sub_ℕ}
use taskcluster_worker.Io.AtMost.{
  ReadError, eof, broken, Source, is_nil, amount, source_error, LimitedReader, limited_read,
  reached_eof, AtMost, body, max_size_exceeded, read_failed, read_all, read_at_most,
}

abbrev pub Expected : ReadError → ℕ → List ℕ → List ℕ → AtMost → Type 0
Expected eof m got content r =
    r ≡ (if leb (length content) m then body (got ++ content) else max_size_exceeded)
Expected broken m got content r = (r ≡ read_failed) ⊎ (r ≡ max_size_exceeded)

length-append_drop : (n : ℕ) (xs : List ℕ) → n ≤ length xs → length (drop n xs) + n ≡ length xs
length-append_drop n xs h = omega (arith, length-drop n xs)

drop-nil : (n : ℕ) → drop {A = ℕ} n [] ≡ []
drop-nil zero = refl
drop-nil (suc n) = refl

take_all : (n : ℕ) (xs : List ℕ) → drop n xs ≡ [] → take n xs ≡ xs
take_all n xs h = sym (append-nil (take n xs)) ∙ ap (λ ys. take n xs ++ ys) (sym h) ∙ take-drop n xs

is_nil-eq : (xs : List ℕ) → is_nil xs ≡ true → xs ≡ []
is_nil-eq [] h = refl
is_nil-eq (x ∷ xs) h = cc

source_end :
    (s : Source) (call size : ℕ) (content : List ℕ) (f : ReadError)
    → source_error s call size content ≡ some f
    → drop (amount s call size content) content ≡ []
source_end s call size content f h = ground (
  arith,
  h,
  is_nil-eq content,
  is_nil-eq (drop (amount s call size content) content),
  drop-nil (amount s call size content),
)

Expected-next :
    (f : ReadError) (m n : ℕ) (got content : List ℕ) (r : AtMost)
    → n ≤ m
    → n ≤ length content
    → Expected f (m - n) (got ++ take n content) (drop n content) r
    → Expected f m got content r
Expected-next eof m n got content r a b e =
    e
    ∙ ground (
      arith,
      length-drop n content,
      append_assoc got (take n content) (drop n content),
      take-drop n content,
    )
Expected-next broken m n got content r a b e = e

Expected-over :
    (f : ReadError) (m : ℕ) (got content : List ℕ) (r : AtMost)
    → m < length content
    → r ≡ max_size_exceeded
    → Expected f m got content r
Expected-over eof m got content r h e = ground arith
Expected-over broken m got content r h e = inr e

module _ (sizes : ℕ → ℕ) (s : Source) (offers : (k : ℕ) → 0 < sizes k)
    (moves : (k : ℕ) → 0 < s.gives k) where
  read_all_over :
      (fuel call : ℕ) (got : List ℕ) (l : LimitedReader) (n : ℕ)
      → 0 < fuel
      → l.max_bytes ≡ negsuc n
      → read_all fuel sizes s call got l ≡ max_size_exceeded
  unfolding read_all limited_read reached_eof
  read_all_over zero call got l n p h = absurd (omega arith)
  read_all_over (suc fuel) call got l n p h = ground arith

  read_all_lem :
      (fuel call : ℕ) (got content : List ℕ) (m : ℕ) (e : Option ReadError)
      → length content + 2 < fuel
      → Expected s.ends_in m got content (
          read_all fuel sizes s call got
            (record { content = content; max_bytes = pos m; last_error = e }))
  unfolding read_all limited_read reached_eof
  read_all_lem zero call got content m e h = absurd (omega arith)
  read_all_lem (suc fuel) call got content m e h =
      next_read (source_error s call offered content) refl
        (λ k. read_all_lem fuel (call + 1) (got ++ take n content) (drop n content) k none)
    where
      offered : ℕ
      offered = if ltb m (sizes call) then m + 1 else sizes call

      n : ℕ
      n = amount s call offered content

      n-le : (n ≤ m + 1) × (n ≤ length content)
      n-le = ground arith

      moved : source_error s call offered content ≡ none → 0 < n
      moved q = ground (arith, offers call, moves call)

      after : Option ReadError → LimitedReader
      after err = record { content = drop n content; max_bytes = sub_ℕ m n; last_error = err }

      resume : Option ReadError → Option ReadError → AtMost
      resume seen err = elim err [
        | none ↦ read_all fuel sizes s (call + 1) (got ++ take n content) (after seen)
        | some eof ↦
            if reached_eof (after seen) then body (got ++ take n content) else max_size_exceeded
        | some broken ↦ read_failed
      ]

      outcome : Option ReadError → AtMost
      outcome err = resume err err

      go_on :
          source_error s call offered content ≡ none
          → ((k : ℕ)
              → length (drop n content) + 2 < fuel
              → Expected s.ends_in k (got ++ take n content) (drop n content) (
                  read_all fuel sizes s
                    (call + 1)
                    (got ++ take n content)
                    (record { content = drop n content; max_bytes = pos k; last_error = none })))
          → (leb n m ≡ true) ⊎ (leb n m ≡ false)
          → Expected s.ends_in m got content (outcome none)
      go_on q ih (inl le) =
          let within : sub_ℕ m n ≡ pos (m - n) = ground arith in
          Expected-next s.ends_in m n got content (outcome none) (ground arith) n-le.1 (
            subst
              (λ b. Expected s.ends_in (m - n) (got ++ take n content) (drop n content) (
                read_all fuel sizes s (call + 1) (got ++ take n content)
                  (record { content = drop n content; max_bytes = b; last_error = none })))
              (sym within) (ih (m - n) (omega (arith, length-drop n content, moved q, n-le.1))))
      go_on q ih (inr gt) =
          Expected-over s.ends_in m got content (outcome none) (ground (arith, n-le)) (
            read_all_over fuel (call + 1) (got ++ take n content) (after none) 0 (omega arith)
              (ground (arith, n-le)))

      eof_end :
          (f : ReadError)
          → s.ends_in ≡ f
          → source_error s call offered content ≡ some eof
          → Expected f m got content (outcome (some eof))
      eof_end eof g q = ground (
        arith,
        n-le,
        take_all n content (source_end s call offered content eof q),
        source_end s call offered content eof q,
        length-drop n content,
      )
      eof_end broken g q = absurd (ground arith)

      broken_end :
          (f : ReadError)
          → s.ends_in ≡ f
          → source_error s call offered content ≡ some broken
          → Expected f m got content (outcome (some broken))
      broken_end eof g q = absurd (ground arith)
      broken_end broken g q = inl refl

      at_end :
          (f : ReadError)
          → source_error s call offered content ≡ some f
          → Expected s.ends_in m got content (outcome (some f))
      at_end eof q = eof_end s.ends_in refl q
      at_end broken q = broken_end s.ends_in refl q

      next_read :
          (err : Option ReadError)
          → source_error s call offered content ≡ err
          → ((k : ℕ)
              → length (drop n content) + 2 < fuel
              → Expected s.ends_in k (got ++ take n content) (drop n content) (
                  read_all fuel sizes s
                    (call + 1)
                    (got ++ take n content)
                    (record { content = drop n content; max_bytes = pos k; last_error = none })))
          → Expected s.ends_in m got content (
              read_all
                (suc fuel)
                sizes
                s
                call
                got
                (record { content = content; max_bytes = pos m; last_error = e }))
      next_read none q ih =
          subst (λ b. Expected s.ends_in m got content (outcome b)) (sym q)
            (go_on q ih (Bool-cases (leb n m)))
      next_read (some f) q ih =
          subst (λ b. Expected s.ends_in m got content (outcome b)) (sym q) (at_end f q)

-- `ReadAtMost` of a reader that ends with EOF returns its content if that is no longer than the
-- limit, and ErrMaxSizeExceeded if it is longer; of a reader that ends with another error it returns
-- that error or ErrMaxSizeExceeded, and never a body. It always returns. The reader is assumed to
-- give a byte at least at each call, and ioutil.ReadAll to offer room for one.
read_at_most_lem :
    (sizes : ℕ → ℕ) (s : Source) (content : List ℕ) (max_size : ℕ)
    → ((k : ℕ) → 0 < sizes k)
    → ((k : ℕ) → 0 < s.gives k)
    → Expected s.ends_in max_size [] content (read_at_most sizes s content max_size)
unfolding read_at_most
read_at_most_lem sizes s content max_size offers moves =
    read_all_lem sizes s offers moves (length content + 3) 0 [] content max_size none (omega arith)
