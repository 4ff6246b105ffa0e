-- ===== src/Caching/Sharing.antt =====
-- One entry of a cache under any interleaving of requests, releases, purges and collections.
use taskcluster_worker.Prelude.{
  none, ℕ, ◌+◌, ◌-◌, ◌^◌, ◌≤◌, ◌<◌, ◌≡◌, ◌≢◌, ◌⊎◌, inl, inr, refl, Bool, true, false, not, ◌&&◌,
  some, arith, ◌==◌, Bool-cases,
}
use taskcluster_worker.Caching.Entry.{
  Built, building, succeeded, failed, Entry, new_entry, is_usable, take, succeed, fail, finish,
  Disposal, calls, dispose, release, is_ignored, mark,
}

-- An entry with its users, which are the requests that took it and have not released it, and with
-- how often `Dispose` of its resource was called.
pub record Shared : Type 0 where
  pub entry : Entry
  pub users : ℕ
  pub disposals : ℕ

abbrev pub once_if : Bool → ℕ
once_if true = 1
once_if false = 0

abbrev pub is_call : Disposal → Bool
is_call calls = true
is_call _ = false

-- Purge disposes of an entry some time after it has marked it. The tracker may dispose of it when it
-- is registered. At most `threads` goroutines hold the entry at a time.
pub data Step (shared : Bool) (threads : ℕ) (s : Shared) : Shared → Type 0 where
  requires :
      {t : Shared} (hash : ℕ) (joins : Bool)
      → is_usable shared hash joins s.entry ≡ true
      → s.users < threads
      → t ≡ record s { entry = take s.entry; users = s.users + 1 }
      → Step shared threads s t
  releases :
      {t : Shared} (e : Entry) (b : Bool)
      → 0 < s.users
      → release s.entry ≡ some (e, b)
      → t ≡ record { entry = e; users = s.users - 1; disposals = s.disposals + once_if b }
      → Step shared threads s t
  succeeds :
      {t : Shared}
      → s.entry.built ≡ building
      → t ≡ record s { entry = succeed s.entry }
      → Step shared threads s t
  fails :
      {t : Shared}
      → s.entry.built ≡ building
      → t ≡ record s { entry = fail s.entry }
      → Step shared threads s t
  finishes :
      {t : Shared}
      → s.entry.built ≢ building
      → t ≡ record s { entry = finish s.entry }
      → Step shared threads s t
  marks :
      {t : Shared}
      → is_ignored s.entry ≡ false
      → t ≡ record s { entry = mark s.entry }
      → Step shared threads s t
  disposes :
      {t : Shared}
      → (s.entry.registered ≡ true) ⊎ (s.entry.purge ≡ true)
      → t ≡ record s {
        entry = (dispose s.entry).0;
        disposals = s.disposals + once_if (is_call (dispose s.entry).1);
      }
      → Step shared threads s t

pub data Reach (shared : Bool) (threads hash : ℕ) : Shared → Type 0 where
  here : Reach shared threads hash (record { entry = new_entry hash; users = 1; disposals = 0 })
  next :
      {s t : Shared}
      → Reach shared threads hash s
      → Step shared threads s t
      → Reach shared threads hash t

abbrev pub has_succeeded : Built → Bool
has_succeeded succeeded = true
has_succeeded _ = false

record Inv (shared : Bool) (s : Shared) : Type 0 where
  counted : s.entry.ref_count ≡ s.users
  exclusive : shared ≡ false → s.users ≤ 1
  once : s.disposals ≡ once_if (s.entry.disposed && has_succeeded s.entry.built)
  gone :
      s.entry.disposed ≡ true → (s.entry.purge ≡ true) × ((s.entry.built ≡ failed) ⊎ (s.users ≡ 0))
  purged : s.entry.purge ≡ true → s.entry.built ≢ building
  lost : s.entry.built ≡ failed → s.entry.disposed ≡ true
  tracked : s.entry.registered ≡ true → s.entry.built ≡ succeeded
  complete : s.entry.created ≡ true → s.entry.built ≢ building

Step-Inv :
    (shared : Bool) (threads : ℕ) {s t : Shared}
    → threads < 2 ^ 32
    → Step shared threads s t
    → Inv shared s
    → Inv shared t
unfolding is_usable take succeed fail finish dispose release is_ignored mark
Step-Inv shared threads l (requires h j u b e) v = ground (arith, e, u, b, l)
Step-Inv shared threads l (releases x b p r e) v = ground (arith, e, p, r)
Step-Inv shared threads l (succeeds q e) v = ground (arith, e, q)
Step-Inv shared threads l (fails q e) v = ground (arith, e, q)
Step-Inv shared threads l (finishes q e) v = ground (arith, e, q)
Step-Inv shared threads l (marks q e) v = ground (arith, e, q)
Step-Inv shared threads l (disposes q e) v = ground (arith, e, q)

Reach-Inv :
    (shared : Bool) (threads hash : ℕ) {s : Shared}
    → threads < 2 ^ 32
    → Reach shared threads hash s
    → Inv shared s
unfolding new_entry
Reach-Inv shared threads hash l here = ground arith
Reach-Inv shared threads hash l (next r st) =
    Step-Inv shared threads l st (Reach-Inv shared threads hash l r)

-- Whatever requests, releases, purges and collections come in whatever order, as long as at most
-- 2^32 - 1 goroutines hold an entry at a time, its resource is disposed of exactly once when the
-- entry is marked as disposed and its constructor had returned a resource, and not at all before;
-- and once it is disposed of, no request holds the entry.
disposed_once :
    (shared : Bool) (threads hash : ℕ) {s : Shared}
    → threads < 2 ^ 32
    → Reach shared threads hash s
    → (s.disposals ≡ once_if (s.entry.disposed && has_succeeded s.entry.built))
      × ((s.disposals ≡ 0) ⊎ (s.users ≡ 0))
disposed_once shared threads hash l r = ground (arith, Reach-Inv shared threads hash l r)

-- In a cache that is not shared, at most one request holds an entry at a time, where at most
-- 2^32 - 1 goroutines are there to hold it.
exclusive_entry :
    (threads hash : ℕ) {s : Shared} → threads < 2 ^ 32 → Reach false threads hash s → s.users ≤ 1
exclusive_entry threads hash l r = (Reach-Inv false threads hash l r).exclusive refl

-- A request that holds an entry can release it, where at most 2^32 - 1 goroutines hold an entry at a
-- time: the panic on a count of zero is not reached.
release_never_panics :
    (shared : Bool) (threads hash : ℕ) {s : Shared}
    → threads < 2 ^ 32
    → Reach shared threads hash s
    → 0 < s.users
    → (o : Entry × Bool) × (release s.entry ≡ some o)
unfolding release
release_never_panics shared threads hash {s} l r h =
    elim (Bool-cases (s.entry.ref_count - 1 == 0 && s.entry.purge)) [
      | inl b ↦ (
        (
          record s.entry { ref_count = s.entry.ref_count - 1; disposed = true },
          not s.entry.disposed,
        ),
        ground (arith, Reach-Inv shared threads hash l r),
      )
      | inr b ↦ (
        (record s.entry { ref_count = s.entry.ref_count - 1 }, false),
        ground (arith, Reach-Inv shared threads hash l r),
      )
    ]

release_goes : (e : Entry) → 0 < e.ref_count → release e ≢ none
unfolding release
release_goes e h = ground arith

-- Whatever requests, releases, purges and collections come in whatever order, as long as at most
-- 2^32 - 1 goroutines hold an entry at a time: its resource is disposed of exactly once when the
-- entry is marked as disposed and its constructor had returned a resource, and not at all before;
-- once it is disposed of, no request holds the entry; in a cache that is not shared, at most one
-- request holds it at a time; and a request that holds it can release it without a panic.
pub entry_safe :
    (shared : Bool) (threads hash : ℕ) {s : Shared}
    → threads < 2 ^ 32
    → Reach shared threads hash s
    → (s.disposals ≡ once_if (s.entry.disposed && has_succeeded s.entry.built))
      × ((s.disposals ≡ 0) ⊎ (s.users ≡ 0))
      × ((shared ≡ true) ⊎ (s.users ≤ 1))
      × ((s.users ≡ 0) ⊎ (release s.entry ≢ none))
entry_safe shared threads hash {s} l r =
    let d = disposed_once shared threads hash l r in
    let v = Reach-Inv shared threads hash l r in
    (d.0, d.1, ground (arith, v.exclusive), ground (arith, v, release_goes s.entry))
