-- ===== src/Guest/Retrying.antt =====
-- engines/qemu/metaservice/metaservice.go: GetArtifact, ListFolder and KillProcess, which try again
-- after ErrNonFatalInternalError. What each attempt returns is a function of its number.
use taskcluster_worker.Prelude.{
  ℕ, zero, suc, ◌+◌, ◌-◌, ◌≤◌, ◌<◌, ◌≡◌, ◌⊎◌, true, false, Option, arith, if◌then◌else◌,
}
use taskcluster_worker.Errors.{Err, is_non_fatal}

-- The loop, with how many attempts it has made: `left` is what `retries` is before the next one, but
-- one.
unfoldable pub attempts : ℕ → ℕ → (ℕ → Option Err) → Option Err × ℕ
attempts zero k f = (f k, k + 1)
attempts (suc left) k f =
    let rest = attempts left (k + 1) f in if is_non_fatal (f k) then rest else (f k, k + 1)

unfoldable pub with_retries : (ℕ → Option Err) → Option Err × ℕ
unfolding attempts
with_retries f = attempts 2 0 f

-- The result is that of the last attempt. At most three are made; all but the last have returned
-- ErrNonFatalInternalError, and fewer are made only if the last has not.
pub with_retries_lem :
    (f : ℕ → Option Err) (k : ℕ)
    → let (err, made) = with_retries f in
      (err ≡ f (made - 1))
      × (0 < made)
      × (made ≤ 3)
      × ((made ≡ 3) ⊎ (is_non_fatal err ≡ false))
      × ((made ≤ k + 1) ⊎ (is_non_fatal (f k) ≡ true))
unfolding with_retries attempts
with_retries_lem f k = ground arith
