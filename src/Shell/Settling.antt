-- ===== src/Shell/Settling.antt =====
-- Theorems on how the client is resolved, and on both sides together.
use taskcluster_worker.Prelude.{
  ℕ, ◌≤◌, ◌≡◌, ◌⊎◌, inr, refl, Bool, true, false, List, [], ◌∷◌, none, some, arith,
}
use taskcluster_worker.Errors.{Err, non_fatal_internal}
use taskcluster_worker.Io.AsyncPipe.{Written, accepts, closed_pipe, pipe_full}
use taskcluster_worker.Shell.Messages.{
  Output, on_stdout, on_stderr, ClientEvent, client_event, ignores, writes_output, closes_output,
  unblocks_stdin, exits,
}
use taskcluster_worker.Shell.Streams.{
  Receiving, ReadEnd, more, eof, end_read, end_stream, rest_told, SendResult, sent, close_sent,
  send_fails,
}
use taskcluster_worker.Shell.Handler as Handler
use taskcluster_worker.Shell.Handler.{Handler, sending, set_sending}
use taskcluster_worker.Shell.Client as Client
use taskcluster_worker.Shell.Client.{Client}
use taskcluster_worker.Shell.Session.{
  Session, Step, handler_moves, client_moves, client_receives, handler_receives, Reach, here, next,
  ClientMove,
}
use taskcluster_worker.Shell.Resolving.{failed, Steady, HandlerMove-Steady, receive-Steady}

-- A resolution stays.
record Firm (c d : Client) : Type 0 where
  kept : (c.resolution ≡ none) ⊎ (d.resolution ≡ c.resolution)

Firm-trans : {c d e : Client} → Firm c d → Firm d e → Firm c e
Firm-trans v w = record { kept = ground (arith, v.kept, w.kept) }

same-Firm : {c d : Client} → d.resolution ≡ c.resolution → Firm c d
same-Firm r = record { kept = inr r }

resolve-Firm : (success : Bool) (e : Err) (c : Client) → Firm c (Client.resolve success e c)
unfolding Client.resolve Client.dispose
resolve-Firm success e c = ground arith

set-Firm : (o : Output) (x : Receiving) (c : Client) → Firm c (Client.set_receiving o x c)
set-Firm on_stdout x c = same-Firm refl
set-Firm on_stderr x c = same-Firm refl

send-Firm : (r : SendResult) (m : List ℕ) (c : Client) → Firm c (Client.send r m c)
unfolding Client.send
send-Firm sent m c = same-Firm refl
send-Firm close_sent m c = resolve-Firm false _ c
send-Firm send_fails m c = resolve-Firm false _ c

block-Firm : (r : SendResult) (bytes : List ℕ) (c : Client) → Firm c (Client.send_block r bytes c)
block-Firm r [] c = same-Firm refl
block-Firm r (b ∷ bs) c = send-Firm r _ c

end-Firm : (r : SendResult) (end : ReadEnd) (c : Client) → Firm c (Client.send_end r end c)
end-Firm r more c = same-Firm refl
end-Firm r eof c = send-Firm r _ c
end-Firm r ReadEnd.fails c = resolve-Firm false _ c

told-Firm :
    (o : Output) (k : ℕ) (r : SendResult) (told : List ℕ) (c : Client)
    → Firm c (Client.ack_told o k r told c)
told-Firm o k r [] c = same-Firm refl
told-Firm o k r (n ∷ ns) c =
    Firm-trans (set-Firm o (rest_told k ns (Client.receiving o c)) c) (send-Firm r _ _)

abort-Firm : (r : SendResult) (c : Client) → Firm c (Client.abort r c)
unfolding Client.abort Client.dispose
abort-Firm r c = ground arith

size-Firm :
    (r : SendResult) (columns rows : ℕ) (c : Client) → Firm c (Client.set_size r columns rows c).0
unfolding Client.set_size
size-Firm sent columns rows c = send-Firm sent _ c
size-Firm close_sent columns rows c = send-Firm close_sent _ c
size-Firm send_fails columns rows c = send-Firm send_fails _ c

ClientMove-Firm : {c d : Client} → ClientMove c d → Firm c d
unfolding Client.write_messages Client.stop_streaming Client.send_ack Client.stop_listening
ClientMove-Firm (ClientMove.begins n m eq) = rw eq (same-Firm refl)
ClientMove-Firm {c} (ClientMove.writes n bytes end r r' e l eq) = ground (
  arith,
  eq,
  block-Firm r bytes (record c { stdin = end_read n bytes end c.stdin }),
  end-Firm r' end (Client.send_block r bytes (record c { stdin = end_read n bytes end c.stdin })),
)
ClientMove-Firm {c} (ClientMove.stops_streaming e eq) =
    ground
      (arith, eq, resolve-Firm false non_fatal_internal (record c { stdin = end_stream c.stdin }))
ClientMove-Firm {c} (ClientMove.acks o k r eq) =
    rw eq (told-Firm o k r (Client.receiving o c).told c)
ClientMove-Firm {c} (ClientMove.user_reads o size eq) = rw eq (set-Firm o _ c)
ClientMove-Firm {c} (ClientMove.user_closes o eq) = rw eq (set-Firm o _ c)
ClientMove-Firm {c} (ClientMove.fails eq) = rw eq (resolve-Firm false _ c)
ClientMove-Firm {c} (ClientMove.stops_listening eq) =
    ground (arith, eq, resolve-Firm false non_fatal_internal c)
ClientMove-Firm {c} (ClientMove.sets_size r columns rows eq) = rw eq (size-Firm r columns rows c)
ClientMove-Firm {c} (ClientMove.aborts r eq) = rw eq (abort-Firm r c)

written-Firm :
    (w : Written) (o : Output) (bytes : List ℕ) (c : Client) → Firm c (Client.written w o bytes c).0
written-Firm (accepts n) o bytes c = set-Firm o _ c
written-Firm closed_pipe o bytes c = resolve-Firm false _ c
written-Firm pipe_full o bytes c = resolve-Firm false _ c

closed-Firm : (b : Bool) (o : Output) (c : Client) → Firm c (Client.output_closed b o c).0
closed-Firm true o c = resolve-Firm false _ c
closed-Firm false o c = set-Firm o _ c

perform-Firm : (e : ClientEvent) (c : Client) → Firm c (Client.perform e c).0
perform-Firm ignores c = same-Firm refl
perform-Firm (writes_output o bytes) c = written-Firm _ o bytes c
perform-Firm (closes_output o) c = closed-Firm _ o c
perform-Firm (unblocks_stdin n) c = same-Firm refl
perform-Firm (exits success) c = resolve-Firm success _ c

receive-Firm : (m : List ℕ) (c : Client) → Firm c (Client.receive m c)
unfolding Client.receive
receive-Firm m c = ground (arith, perform-Firm (client_event m) c)

-- What a step keeps of both sides.
record Settled (s t : Session) : Type 0 where
  handler : Steady s.handler t.handler
  client : Firm s.client t.client

Step-Settled : {s t : Session} → Step s t → Settled s t
Step-Settled (handler_moves m eq) =
    rw eq (record { handler = HandlerMove-Steady m; client = same-Firm refl })
Step-Settled {s} (client_moves m eq) =
    rw eq (record { handler = ground arith; client = ClientMove-Firm m })
Step-Settled {s} (client_receives m ms l e eq) =
    rw eq (record { handler = ground arith; client = receive-Firm m s.client })
Step-Settled {s} (handler_receives m ms l e eq) =
    rw eq (record { handler = receive-Steady m s.handler; client = same-Firm refl })

aborts-counted :
    {a z : Bool} {s : Session} → Reach a z s → s.handler.aborts ≤ failed s.handler.resolution
unfolding Handler.new_handler
aborts-counted here = omega arith
aborts-counted (next r st) = (Step-Settled st).handler.counted (aborts-counted r)

-- In any session, abortFunc is called once at most, and only if the handler is resolved without
-- success. Once a side is resolved, no step changes how: the handler's success stays, no more call of
-- abortFunc is made, and Wait of the client answers the same for good.
pub resolved_once :
    {s t : Session} (abort_func set_size_func : Bool)
    → Reach abort_func set_size_func s
    → Step s t
    → (s.handler.aborts ≤ 1)
      × ((s.handler.aborts ≡ 0) ⊎ (s.handler.resolution ≡ some false))
      × ((s.handler.resolution ≡ none)
          ⊎ ((t.handler.resolution ≡ s.handler.resolution) × (t.handler.aborts ≡ s.handler.aborts)))
      × ((Client.wait s.client ≡ none) ⊎ (Client.wait t.client ≡ Client.wait s.client))
unfolding Client.wait
resolved_once a z r st =
    let v = Step-Settled st in
    let n = aborts-counted r in
    (ground (arith, n), ground (arith, n), v.handler.kept, ground (arith, v.client.kept))
