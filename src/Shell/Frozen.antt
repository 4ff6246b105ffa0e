-- ===== src/Shell/Frozen.antt =====
-- Theorems on the handler once it is resolved with success: no more output is sent.
use taskcluster_worker.Prelude.{ℕ, ◌≡◌, Bool, true, false, List, [], ◌∷◌, ◌++◌, arith}
use mathlib.Core.List.{append-nil}
use taskcluster_worker.Shell.Messages.{
  Output, on_stdout, on_stderr, stream_stdin, ack_message, exit_message, handler_event,
  HandlerEvent, skips, closes_stdin, asks_abort, writes_stdin, unblocks_output, sets_size,
}
use taskcluster_worker.Shell.Streams.{ended, grant, merge_tells, close_sending, SendResult}
use taskcluster_worker.Io.AsyncPipe.{Written, accepts, closed_pipe, pipe_full}
use taskcluster_worker.Shell.Handler.{
  Handler, sending, set_sending, abort, send, terminate, resolve, stop_streaming, ack_told,
  send_acks, send_exit, stop_listening, written, stdin_closed, perform, receive,
}
use taskcluster_worker.Shell.Session.{
  HandlerMove, begins, transmits, stops_streaming, acks, shell_reads, shell_closes, fails,
  stops_listening, terminates, is_terminated, exits,
}
use taskcluster_worker.Shell.Wire.{exit_message-bytes, ack_message-bytes, wire-append, wire}
use taskcluster_worker.Shell.Output.{is_some}
use taskcluster_worker.Shell.Moves.{Unresolved}

pub record Frozen (o : Output) (h t : Handler) : Type 0 where
  pub resolved : is_some true t.resolution ≡ true
  pub carries : wire o t.ws ≡ wire o h.ws
  pub takes : (sending o t).taken ≡ (sending o h).taken

abort-Frozen : (o : Output) (h : Handler) → is_some true h.resolution ≡ true → Frozen o h (abort h)
unfolding abort
abort-Frozen on_stdout h r = ground (arith, r)
abort-Frozen on_stderr h r = ground (arith, r)

ack-Frozen :
    (o : Output) (k : ℕ) (r : SendResult) (told : List ℕ) (h : Handler)
    → is_some true h.resolution ≡ true
    → Frozen o h (ack_told k r told h)
unfolding send abort
ack-Frozen on_stdout k r [] h e = ground (arith, e)
ack-Frozen on_stderr k r [] h e = ground (arith, e)
ack-Frozen on_stdout k r (n ∷ ns) h e = ground (
  arith,
  e,
  wire-append on_stdout h.ws (ack_message stream_stdin (merge_tells k n ns)),
  ack_message-bytes on_stdout (merge_tells k n ns),
  append-nil (wire on_stdout h.ws),
)
ack-Frozen on_stderr k r (n ∷ ns) h e = ground (
  arith,
  e,
  wire-append on_stderr h.ws (ack_message stream_stdin (merge_tells k n ns)),
  ack_message-bytes on_stderr (merge_tells k n ns),
  append-nil (wire on_stderr h.ws),
)

exit-wire :
    (o : Output) (ws : List (List ℕ)) (b : Bool) → wire o (ws ++ exit_message b ∷ []) ≡ wire o ws
exit-wire o ws b =
    ground
      (arith, wire-append o ws (exit_message b), exit_message-bytes o b, append-nil (wire o ws))

exit-Frozen :
    (o : Output) (writes : Bool) (h : Handler)
    → is_some true h.resolution ≡ true
    → Frozen o h (send_exit writes h)
unfolding send_exit close_sending
exit-Frozen on_stdout writes h e = ground (arith, e, exit-wire on_stdout h.ws true)
exit-Frozen on_stderr writes h e = ground (arith, e, exit-wire on_stderr h.ws true)

-- A loop that has not ended has seen no success.
not_ended :
    (o' : Output) (h : Handler)
    → Unresolved h
    → is_some true h.resolution ≡ true
    → (sending o' h).phase ≡ ended
not_ended o' h w r = ground (arith, w o', r)

pub HandlerMove-Frozen :
    {h t : Handler} (o : Output)
    → Unresolved h
    → HandlerMove h t
    → is_some true h.resolution ≡ true
    → Frozen o h t
unfolding stop_streaming send_acks terminate resolve stop_listening
HandlerMove-Frozen {h} o w (begins o' n (e, m) eq) r =
    absurd (ground (arith, e, not_ended o' h w r))
HandlerMove-Frozen {h} o w (transmits o' n bytes end q q' e l eq) r =
    absurd (ground (arith, e, not_ended o' h w r))
HandlerMove-Frozen {h} o w (stops_streaming o' e eq) r =
    absurd (ground (arith, e, not_ended o' h w r))
HandlerMove-Frozen {h} o w (acks k q eq) r = rw eq (ack-Frozen o k q h.stdin.told h r)
HandlerMove-Frozen on_stdout w (shell_reads size eq) r = ground (arith, eq, r)
HandlerMove-Frozen on_stderr w (shell_reads size eq) r = ground (arith, eq, r)
HandlerMove-Frozen on_stdout w (shell_closes eq) r = ground (arith, eq, r)
HandlerMove-Frozen on_stderr w (shell_closes eq) r = ground (arith, eq, r)
HandlerMove-Frozen {h} o w (fails eq) r = rw eq (abort-Frozen o h r)
HandlerMove-Frozen {h} on_stdout w (stops_listening eq) r =
    ground (arith, eq, abort-Frozen on_stdout h r)
HandlerMove-Frozen {h} on_stderr w (stops_listening eq) r =
    ground (arith, eq, abort-Frozen on_stderr h r)
HandlerMove-Frozen on_stdout w (terminates b e eq) r = ground (arith, eq, r)
HandlerMove-Frozen on_stderr w (terminates b e eq) r = ground (arith, eq, r)
HandlerMove-Frozen on_stdout w (is_terminated b e eo ee eq) r = ground (arith, eq, r)
HandlerMove-Frozen on_stderr w (is_terminated b e eo ee eq) r = ground (arith, eq, r)
HandlerMove-Frozen {h} o w (exits writes eq) r = rw eq (exit-Frozen o writes h r)

grant-Frozen :
    (o o' : Output) (n : ℕ) (h : Handler)
    → is_some true h.resolution ≡ true
    → Frozen o h (set_sending o' (grant n (sending o' h)) h)
unfolding grant
grant-Frozen on_stdout on_stdout n h r = ground (arith, r)
grant-Frozen on_stdout on_stderr n h r = ground (arith, r)
grant-Frozen on_stderr on_stdout n h r = ground (arith, r)
grant-Frozen on_stderr on_stderr n h r = ground (arith, r)

written-Frozen :
    (o : Output) (w : Written) (bytes : List ℕ) (h : Handler)
    → is_some true h.resolution ≡ true
    → Frozen o h (written w bytes h).0
written-Frozen on_stdout (accepts n) bytes h r = ground (arith, r)
written-Frozen on_stderr (accepts n) bytes h r = ground (arith, r)
written-Frozen o closed_pipe bytes h r = abort-Frozen o h r
written-Frozen o pipe_full bytes h r = abort-Frozen o h r

closed-Frozen :
    (o : Output) (b : Bool) (h : Handler)
    → is_some true h.resolution ≡ true
    → Frozen o h (stdin_closed b h).0
closed-Frozen on_stdout false h r = ground (arith, r)
closed-Frozen on_stderr false h r = ground (arith, r)
closed-Frozen o true h r = abort-Frozen o h r

perform-Frozen :
    (o : Output) (e : HandlerEvent) (h : Handler)
    → is_some true h.resolution ≡ true
    → Frozen o h (perform e h).0
perform-Frozen o skips h r = ground (arith, r)
perform-Frozen o (writes_stdin bytes) h r = written-Frozen o _ bytes h r
perform-Frozen o closes_stdin h r = closed-Frozen o _ h r
perform-Frozen o (unblocks_output o' n) h r = grant-Frozen o o' n h r
perform-Frozen on_stdout (sets_size columns rows) h r = ground (arith, r)
perform-Frozen on_stderr (sets_size columns rows) h r = ground (arith, r)
perform-Frozen o asks_abort h r = abort-Frozen o h r

pub receive-Frozen :
    (o : Output) (m : List ℕ) (h : Handler)
    → is_some true h.resolution ≡ true
    → Frozen o h (receive m h)
unfolding receive
receive-Frozen on_stdout m h r = ground (arith, perform-Frozen on_stdout (handler_event m) h r)
receive-Frozen on_stderr m h r = ground (arith, perform-Frozen on_stderr (handler_event m) h r)
