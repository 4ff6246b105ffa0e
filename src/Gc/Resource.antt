-- ===== src/Gc/Resource.antt =====
-- runtime/gc/auxiliary.go: DisposableResource. The counter is a `uint32`, so it wraps around, below
-- zero too. Times are numbers.
use taskcluster_worker.Prelude.{
  ℕ, ◌+◌, ◌-◌, ◌%◌, ◌^◌, ◌<◌, ◌≡◌, refl, List, [], ◌∷◌, Option, none, some, ◌↔◌, inl, inr,
  Bool-cases, ltb→lt, arith, ltb, if◌then◌else◌,
}
use taskcluster_worker.Errors.{Err, disposable_in_use, size_not_supported}

pub record DisposableResource : Type 0 where
  pub ref_count : ℕ
  pub last_used : ℕ

abbrev pub u32 : ℕ → ℕ
u32 n = n % 2 ^ 32

unfoldable pub acquire : DisposableResource → DisposableResource
acquire r = record r { ref_count = u32 (r.ref_count + 1) }

unfoldable pub release : ℕ → DisposableResource → DisposableResource
release now r = record r { ref_count = u32 (r.ref_count + 2 ^ 32 - 1); last_used = now }

unfoldable pub can_dispose : DisposableResource → Option Err
can_dispose r = if ltb 0 r.ref_count then some disposable_in_use else none

-- The size methods of the base are stubs.
unfoldable pub memory_size : DisposableResource → ℕ × Option Err
memory_size r = (0, some size_not_supported)

unfoldable pub disk_size : DisposableResource → ℕ × Option Err
disk_size r = (0, some size_not_supported)

pub data Use : Type 0 where
  acquires : Use
  releases : ℕ → Use

unfoldable pub use_step : DisposableResource → Use → DisposableResource
unfolding acquire release
use_step r acquires = acquire r
use_step r (releases now) = release now r

unfoldable pub use_all : DisposableResource → List Use → DisposableResource
use_all r [] = r
use_all r (u ∷ us) = use_all (use_step r u) us

-- How many users hold the resource after some calls; `none` if one is released that nobody held.
abbrev pub holders : ℕ → List Use → Option ℕ
holders n [] = some n
holders n (acquires ∷ us) = holders (n + 1) us
holders n (releases now ∷ us) = let rest = holders (n - 1) us in if ltb 0 n then rest else none

acquire_count : (n c : ℕ) → u32 n ≡ c → u32 (n + 1) ≡ u32 (c + 1)
acquire_count n c h = omega arith

release_count : (n c : ℕ) → 0 < n → u32 n ≡ c → u32 (n - 1) ≡ u32 (c + 2 ^ 32 - 1)
release_count n c p h = omega arith

use_all-holders :
    (r : DisposableResource) (us : List Use) (n m : ℕ)
    → u32 n ≡ r.ref_count
    → holders n us ≡ some m
    → u32 m ≡ (use_all r us).ref_count
unfolding use_all use_step
use_all-holders r [] n m h e = ground arith
use_all-holders r (acquires ∷ us) n m h e =
    use_all-holders (acquire r) us (n + 1) m (acquire_count n r.ref_count h) e
use_all-holders r (releases now ∷ us) n m h e = elim (Bool-cases (ltb 0 n)) [
  | inl held ↦
      use_all-holders (release now r) us (n - 1) m (release_count n r.ref_count (ltb→lt 0 n held) h)
        (ground arith)
  | inr free ↦ absurd (ground arith)
]

-- After any calls in which nobody releases what is not held, a new resource may be disposed of
-- exactly when nobody holds it, as long as fewer than 2^32 users do.
can_dispose_iff :
    (us : List Use) (m : ℕ)
    → holders 0 us ≡ some m
    → m < 2 ^ 32
    → (can_dispose (use_all (record { ref_count = 0; last_used = 0 }) us) ≡ none) ↔ (m ≡ 0)
unfolding can_dispose
can_dispose_iff us m e l =
    let q = use_all-holders (record { ref_count = 0; last_used = 0 }) us 0 m refl e in
    (λ h. can_dispose_zero m _ l q h, λ h. ground arith)
  where
    can_dispose_zero :
        (m c : ℕ)
        → m < 2 ^ 32
        → u32 m ≡ c
        → (if ltb 0 c then some disposable_in_use else none) ≡ none
        → m ≡ 0
    can_dispose_zero m c l q h = ground arith
