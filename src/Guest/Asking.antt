-- ===== src/Guest/Asking.antt =====
-- engines/qemu/metaservice/metaservice.go: asyncRequest, handlePoll and handleReply, for the record
-- of one action. The id of an action is made up for it, and the guest learns it from a poll.
use taskcluster_worker.Prelude.{
  ◌≢◌, ℕ, ◌+◌, ◌≤◌, ◌<◌, ◌≡◌, ◌⊎◌, Bool, true, false, arith, if◌then◌else◌,
}

-- Where asyncRequest is; `awaits_done` is behind a time-out that found no record.
pub data Asker : Type 0 where
  sending waiting awaits_done returned : Asker

-- `pending` says that the record is in the map, `known` that a poll got the action, and `poller_has`
-- that handlePoll took the record. `runs` counts the calls of the callback and `running` says that
-- it runs; `closes` counts how often Done was closed.
pub record Action : Type 0 where
  pub asker : Asker
  pub pending : Bool
  pub known : Bool
  pub poller_has : Bool
  pub running : Bool
  pub runs : ℕ
  pub closes : ℕ

abbrev pub asked : Action
asked = record {
  asker = sending;
  pending = true;
  known = false;
  poller_has = false;
  running = false;
  runs = 0;
  closes = 0;
}

-- Under the lock: looks the record up and deletes it.
unfoldable pub take_record : Action → Action × Bool
take_record s = (record s { pending = false }, s.pending)

-- `handlePoll`: gives the action out; where its reply fails, takes the record; then closes Done.
unfoldable pub poll_gets : Action → Action
poll_gets s = record s { asker = waiting; known = true }

unfoldable pub poll_fails : Action → Action
unfolding take_record
poll_fails s = let (t, has) = take_record s in if has then record t { poller_has = true } else t

unfoldable pub poll_closes : Action → Action
poll_closes s = record s { poller_has = false; closes = s.closes + 1 }

-- `handleReply` up to the callback, with whether it answers that the id is unknown; and its end.
unfoldable pub handle_reply : Action → Action × Bool
unfolding take_record
handle_reply s =
    let (t, has) = take_record s in
    if has then (record t { running = true; runs = t.runs + 1 }, false) else (t, true)

unfoldable pub called_back : Action → Action
called_back s = record s { running = false; closes = s.closes + 1 }

-- `asyncRequest` where sending times out, and where waiting does.
unfoldable pub send_times_out : Action → Action
unfolding take_record
send_times_out s = record (take_record s).0 { asker = returned }

unfoldable pub wait_times_out : Action → Action
unfolding take_record
wait_times_out s =
    let (t, has) = take_record s in
    if has then record t { asker = returned } else record t { asker = awaits_done }

unfoldable pub sees_done : Action → Action
sees_done s = record s { asker = returned }

abbrev pub is_waiting : Asker → Bool
is_waiting waiting = true
is_waiting awaits_done = true
is_waiting _ = false

pub data Step (s : Action) : Action → Type 0 where
  gets : {t : Action} → s.asker ≡ sending → t ≡ poll_gets s → Step s t
  fails : {t : Action} → s.known ≡ true → t ≡ poll_fails s → Step s t
  closes_done : {t : Action} → s.poller_has ≡ true → t ≡ poll_closes s → Step s t
  replies : {t : Action} → s.known ≡ true → t ≡ (handle_reply s).0 → Step s t
  calls_back : {t : Action} → s.running ≡ true → t ≡ called_back s → Step s t
  gives_up_sending : {t : Action} → s.asker ≡ sending → t ≡ send_times_out s → Step s t
  gives_up_waiting : {t : Action} → s.asker ≡ waiting → t ≡ wait_times_out s → Step s t
  is_told : {t : Action} → is_waiting s.asker ≡ true → 0 < s.closes → t ≡ sees_done s → Step s t

pub data Reach : Action → Type 0 where
  here : Reach asked
  next : {s t : Action} → Reach s → Step s t → Reach t

abbrev bit : Bool → ℕ
bit true = 1
bit false = 0

abbrev owners : Action → ℕ
owners s = bit s.pending + bit s.poller_has + bit s.running + s.closes

record Owned (s : Action) : Type 0 where
  before : s.asker ≡ sending → (s.pending ≡ true) × (s.known ≡ false)
  one : owners s ≤ 1
  opened : is_waiting s.asker ≡ true → owners s ≡ 1
  late : s.asker ≡ awaits_done → s.pending ≡ false
  after : s.asker ≡ returned → (s.pending ≡ false) × (s.poller_has ≡ false) × (s.running ≡ false)
  ran : s.runs ≤ bit s.running + s.closes

Step-Owned : {s t : Action} → Step s t → Owned s → Owned t
unfolding poll_gets poll_fails poll_closes handle_reply called_back send_times_out wait_times_out
    sees_done
Step-Owned (gets a e) v = ground (arith, v, a, e)
Step-Owned (fails a e) v = ground (arith, v, a, e)
Step-Owned (closes_done a e) v = ground (arith, v, a, e)
Step-Owned (replies a e) v = ground (arith, v, a, e)
Step-Owned (calls_back a e) v = ground (arith, v, a, e)
Step-Owned (gives_up_sending a e) v = ground (arith, v, a, e)
Step-Owned (gives_up_waiting a e) v = ground (arith, v, a, e)
Step-Owned (is_told a c e) v = ground (arith, v, a, c, e)

Reach-Owned : {s : Action} → Reach s → Owned s
Reach-Owned here = ground arith
Reach-Owned (next r st) = Step-Owned st (Reach-Owned r)

-- However polls, replies and time-outs interleave: the callback of an action runs at most once and
-- Done is closed at most once, whoever is about to close it finding it open. When asyncRequest has
-- returned, the callback does not run, and a reply is refused as unknown, so that what the callback
-- writes is safe to read. When asyncRequest waits for Done without a time-out, Done is closed, or a
-- callback that runs or a poll that has taken the record will close it.
pub action_settles :
    {s : Action}
    → Reach s
    → (s.runs ≤ 1)
      × (s.closes ≤ 1)
      × (((s.running ≡ false) × (s.poller_has ≡ false)) ⊎ (s.closes ≡ 0))
      × ((s.asker ≢ returned) ⊎ ((s.running ≡ false) × ((handle_reply s).1 ≡ true)))
      × ((s.asker ≢ awaits_done) ⊎ (s.running ≡ true) ⊎ (s.poller_has ≡ true) ⊎ (0 < s.closes))
unfolding handle_reply take_record
action_settles r = ground (arith, Reach-Owned r)
