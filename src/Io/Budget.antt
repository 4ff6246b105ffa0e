-- ===== src/Io/Budget.antt =====
-- The budget of a BlockedPipe, for readers on any threads.
use taskcluster_worker.Prelude.{ℕ, suc, ◌+◌, ◌≤◌, ◌≡◌, ◌≢◌, ◌⊎◌, true, List, [], ◌∷◌, ◌++◌, arith}
use taskcluster_worker.Prelude.Int.{ℤ, pos, negsuc, pos_part, neg_part, ◌+ℤ◌}
use taskcluster_worker.Io.BlockedPipe.{
  BlockedPipe, new_blocked, waits, slice_panic, reserves, reserve, settle, close_read, unblock,
}

abbrev pub total : List ℕ → ℕ
total [] = 0
total (n ∷ ns) = n + total ns

pub total-append : (xs ys : List ℕ) → total (xs ++ ys) ≡ total xs + total ys
total-append [] ys = omega arith
total-append (x ∷ xs) ys = omega (arith, total-append xs ys)

-- A pipe with what was unblocked, the reservations of the reads that are under way, and how many
-- bytes the reads have got.
pub record Flow : Type 0 where
  pub pipe : BlockedPipe
  pub granted : ℕ
  pub under_way : List ℕ
  pub delivered : ℕ

-- Bytes are unblocked, reads begin and end, and the pipe is closed, on any threads. The read
-- underneath gets no more bytes than it is asked for, as io.Reader demands.
pub data FlowStep (s : Flow) : Flow → Type 0 where
  unblocks :
      {t : Flow} (n : ℕ)
      → t ≡ record s { pipe = (unblock (pos n) s.pipe).0; granted = s.granted + n }
      → FlowStep s t
  begins :
      {t : Flow} (size n : ℕ)
      → (reserve size s.pipe).1 ≡ reserves n
      → t ≡ record s { pipe = (reserve size s.pipe).0; under_way = n ∷ s.under_way }
      → FlowStep s t
  ends :
      {t : Flow} (before after : List ℕ) (n got : ℕ)
      → s.under_way ≡ before ++ n ∷ after
      → got ≤ n
      → t ≡ record s {
        pipe = (settle n got s.pipe).0;
        under_way = before ++ after;
        delivered = s.delivered + got;
      }
      → FlowStep s t
  closes : {t : Flow} → t ≡ record s { pipe = (close_read s.pipe).0 } → FlowStep s t

pub data FlowReach : Flow → Type 0 where
  here : FlowReach (record { pipe = new_blocked; granted = 0; under_way = []; delivered = 0 })
  next : {s t : Flow} → FlowReach s → FlowStep s t → FlowReach t

record Balanced (s : Flow) : Type 0 where
  limited : neg_part s.pipe.unblocked ≡ 0
  balance : s.delivered + total s.under_way + pos_part s.pipe.unblocked ≡ s.granted

FlowStep-Balanced : {s t : Flow} → FlowStep s t → Balanced s → Balanced t
unfolding unblock reserve settle close_read ◌+ℤ◌
FlowStep-Balanced (unblocks n e) b = ground (arith, e, b)
FlowStep-Balanced (begins size n r e) b = ground (arith, e, b, r)
FlowStep-Balanced {s} (ends before after n got h l e) b =
    ground (arith, e, b, h, l, total-append before (n ∷ after), total-append before after)
FlowStep-Balanced (closes e) b = ground (arith, e, b)

FlowReach-Balanced : {s : Flow} → FlowReach s → Balanced s
FlowReach-Balanced here = ground arith
FlowReach-Balanced (next r st) = FlowStep-Balanced st (FlowReach-Balanced r)

-- As long as only numbers that are not negative are unblocked, what readers have got, what reads
-- under way may still get and what is left of the budget are together what was unblocked, so no more
-- bytes are read than were unblocked; and no read panics.
budget_kept :
    {s : Flow} (size : ℕ)
    → FlowReach s
    → (s.delivered + total s.under_way + pos_part s.pipe.unblocked ≡ s.granted)
      × ((reserve size s.pipe).1 ≢ slice_panic)
unfolding reserve
budget_kept size r = (ground (arith, FlowReach-Balanced r), ground (arith, FlowReach-Balanced r))

-- No reader is left waiting: a reader waits only where the budget is zero and the pipe is not
-- closed, and whatever ends this, by Unblock, by the end of another read or by Close, wakes it.
waiting_reader_woken :
    (p : BlockedPipe) (size n got : ℕ) (budget : ℤ)
    → (reserve size p).1 ≡ waits
    → (((unblock budget p).1 ≡ true) ⊎ ((reserve size (unblock budget p).0).1 ≡ waits))
      × (((settle n got p).1 ≡ true) ⊎ ((reserve size (settle n got p).0).1 ≡ waits))
      × ((close_read p).1 ≡ true)
unfolding reserve unblock settle close_read ◌+ℤ◌
waiting_reader_woken p size n got budget h = ground arith

-- `Unblock(-1)` of a pipe that has a budget takes one byte from it and does not unblock the pipe for
-- good: once the rest is read, a reader waits.
unblock_forever_lost :
    (n size : ℕ)
    → let p = (unblock (negsuc 0) (unblock (pos (suc n)) new_blocked).0).0 in
      let q = (reserve n p).0 in
      (p.unblocked ≡ pos n)
      × ((n ≡ 0) ⊎ ((reserve n p).1 ≡ reserves n))
      × ((reserve size q).1 ≡ waits)
unfolding unblock reserve ◌+ℤ◌
unblock_forever_lost n size = ground arith
