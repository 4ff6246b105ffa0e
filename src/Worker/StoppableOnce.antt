-- ===== src/Worker/StoppableOnce.antt =====
-- runtime/stoppable.go: StoppableOnce. What StopGracefully and StopNow do under the lock is one
-- transition; the goroutines that they start call the Stoppable later, and then close their channel.
use taskcluster_worker.Prelude.{
  ℕ, ◌+◌, ◌≤◌, ◌<◌, ◌≡◌, ◌≢◌, ◌⊎◌, Bool, true, false, ◌&&◌, ◌||◌, arith, if◌then◌else◌, ltb,
}

-- A channel with its goroutine: nil, started, calling the Stoppable, and closed.
pub data Channel : Type 0 where
  absent started calling closed : Channel

abbrev pub is_absent : Channel → Bool
is_absent absent = true
is_absent _ = false

pub record StoppableOnce : Type 0 where
  pub stopping_now : Channel
  pub stopping_gracefully : Channel

-- The channel that the call waits for is returned with the state.
unfoldable pub stop_gracefully : StoppableOnce → StoppableOnce × Channel
stop_gracefully s =
    let t =
      (if is_absent s.stopping_gracefully && is_absent s.stopping_now
        then record s { stopping_gracefully = started }
        else s) in
    (t, if is_absent t.stopping_now then t.stopping_gracefully else t.stopping_now)

unfoldable pub stop_now : StoppableOnce → StoppableOnce × Channel
stop_now s =
    let t = (if is_absent s.stopping_now then record s { stopping_now = started } else s) in
    (t, t.stopping_now)

-- With how often the Stoppable was called, whether StopNow was called when StopGracefully had not
-- been, and whether the Stoppable's StopGracefully was called after its StopNow.
pub record Stopping : Type 0 where
  pub once : StoppableOnce
  pub graceful_calls : ℕ
  pub now_calls : ℕ
  pub now_first : Bool
  pub late : Bool

abbrev pub not_stopping : Stopping
not_stopping = record {
  once = record { stopping_now = absent; stopping_gracefully = absent };
  graceful_calls = 0;
  now_calls = 0;
  now_first = false;
  late = false;
}

pub data Step (s : Stopping) : Stopping → Type 0 where
  asks_gracefully : {t : Stopping} → t ≡ record s { once = (stop_gracefully s.once).0 } → Step s t
  asks_now :
      {t : Stopping}
      → t ≡ record s {
        once = (stop_now s.once).0;
        now_first = s.now_first || is_absent s.once.stopping_gracefully;
      }
      → Step s t
  calls_graceful :
      {t : Stopping}
      → s.once.stopping_gracefully ≡ started
      → t ≡ record s {
        once = record (s.once) { stopping_gracefully = calling };
        graceful_calls = s.graceful_calls + 1;
        late = ltb 0 s.now_calls;
      }
      → Step s t
  calls_now :
      {t : Stopping}
      → s.once.stopping_now ≡ started
      → t ≡ record s {
        once = record (s.once) { stopping_now = calling };
        now_calls = s.now_calls + 1;
      }
      → Step s t
  closes_graceful :
      {t : Stopping}
      → s.once.stopping_gracefully ≡ calling
      → t ≡ record s { once = record (s.once) { stopping_gracefully = closed } }
      → Step s t
  closes_now :
      {t : Stopping}
      → s.once.stopping_now ≡ calling
      → t ≡ record s { once = record (s.once) { stopping_now = closed } }
      → Step s t

pub data Reach : Stopping → Type 0 where
  here : Reach not_stopping
  next : {s t : Stopping} → Reach s → Step s t → Reach t

abbrev called : Channel → ℕ
called calling = 1
called closed = 1
called _ = 0

record Counted (s : Stopping) : Type 0 where
  graceful : s.graceful_calls ≡ called s.once.stopping_gracefully
  now : s.now_calls ≡ called s.once.stopping_now
  first :
      s.now_first ≡ true → (s.once.stopping_gracefully ≡ absent) × (s.once.stopping_now ≢ absent)

Step-Counted : {s t : Stopping} → Step s t → Counted s → Counted t
unfolding stop_gracefully stop_now
Step-Counted (asks_gracefully e) v = ground (arith, v, e)
Step-Counted (asks_now e) v = ground (arith, v, e)
Step-Counted (calls_graceful a e) v = ground (arith, v, e, a)
Step-Counted (calls_now a e) v = ground (arith, v, e, a)
Step-Counted (closes_graceful a e) v = ground (arith, v, e, a)
Step-Counted (closes_now a e) v = ground (arith, v, e, a)

Reach-Counted : {s : Stopping} → Reach s → Counted s
Reach-Counted here = ground arith
Reach-Counted (next r st) = Step-Counted st (Reach-Counted r)

-- Whatever threads call StopGracefully and StopNow, the Stoppable's StopGracefully and StopNow are
-- called at most once each; StopGracefully not at all where StopNow was asked for first. A caller
-- waits for a channel that is there, and it returns from StopNow only after the Stoppable's StopNow
-- was called, and from StopGracefully only after one of them was.
stops_once :
    {s : Stopping}
    → Reach s
    → (s.graceful_calls ≤ 1)
      × (s.now_calls ≤ 1)
      × ((s.now_first ≡ false) ⊎ (s.graceful_calls ≡ 0))
      × ((stop_gracefully s.once).1 ≢ absent)
      × ((stop_now s.once).1 ≢ absent)
      × (((stop_now s.once).1 ≢ closed) ⊎ (s.now_calls ≡ 1))
      × (((stop_gracefully s.once).1 ≢ closed) ⊎ (0 < s.now_calls + s.graceful_calls))
unfolding stop_gracefully stop_now
stops_once r = ground (arith, Reach-Counted r)
