-- ===== src/Io/BlockedPipe.antt =====
-- runtime/ioext/blockedpipe.go. `Read` is two transitions, for it reads from the pipe underneath with
-- the lock released: it reserves bytes of the budget, and gives back those it did not get.
use taskcluster_worker.Prelude.{ℕ, zero, suc, ◌-◌, Bool, true, false, not, ltb, if◌then◌else◌}
use taskcluster_worker.Prelude.Int.{ℤ, pos, negsuc, sub_ℕ, ◌+ℤ◌}

-- -1 as the budget is no limit.
pub record BlockedPipe : Type 0 where
  pub unblocked : ℤ
  pub read_closed : Bool

abbrev pub new_blocked : BlockedPipe
new_blocked = record { unblocked = pos 0; read_closed = false }

abbrev pub is_unlimited : ℤ → Bool
is_unlimited (negsuc zero) = true
is_unlimited _ = false

abbrev pub is_zero : ℤ → Bool
is_zero (pos zero) = true
is_zero _ = false

-- `Read` up to the read underneath, of how many bytes that is; or it waits, returns ErrClosedPipe, or
-- panics on a slice with a negative end.
pub data Reserved : Type 0 where
  waits read_error slice_panic : Reserved
  reserves : ℕ → Reserved

unfoldable pub reserve : ℕ → BlockedPipe → BlockedPipe × Reserved
reserve size p = if p.read_closed then (p, read_error) else elim p.unblocked [
  | pos zero ↦ (p, waits)
  | pos (suc n) ↦
      if ltb (suc n) size
      then (record p { unblocked = pos 0 }, reserves (suc n))
      else (record p { unblocked = pos (suc n - size) }, reserves size)
  | negsuc zero ↦ (p, reserves size)
  | negsuc (suc n) ↦ (p, slice_panic)
]

-- After the read of `got` bytes, of `size` that were reserved: the pipe, and whether waiting readers
-- are woken.
unfoldable pub settle : ℕ → ℕ → BlockedPipe → BlockedPipe × Bool
settle size got p =
    if is_unlimited p.unblocked
    then (p, false)
    else let u = p.unblocked +ℤ sub_ℕ size got in (record p { unblocked = u }, not (is_zero u))

-- `CloseWithError` wakes them.
unfoldable pub close_read : BlockedPipe → BlockedPipe × Bool
close_read p = (record p { read_closed = true }, true)

unfoldable pub unblock : ℤ → BlockedPipe → BlockedPipe × Bool
unblock n p =
    if is_unlimited p.unblocked
    then (p, false)
    else (record p { unblocked = p.unblocked +ℤ n }, is_zero p.unblocked)
