-- ===== src/Shell/SpendingMoves.antt =====
-- Theorems on the steps of the handler: what they do to what counts against the limits.
use taskcluster_worker.Prelude.{
  ℕ, ◌+◌, ◌≤◌, ◌≡◌, refl, Bool, true, false, List, [], ◌∷◌, ◌++◌, arith, length,
}
use taskcluster_worker.Prelude.Int.{neg_part}
use taskcluster_worker.Io.Budget.{total}
use taskcluster_worker.Shell.Messages.{
  Output, on_stdout, on_stderr, stream_stdin, ack_message, exit_message,
}
use taskcluster_worker.Shell.Streams.{Receiving, begin_read, end_stream, merge_tells, SendResult}
use taskcluster_worker.Shell.Handler.{
  Handler, sending, set_sending, abort, send, terminate, resolve, stop_streaming, ack_told,
  send_acks, send_exit, stop_listening,
}
use taskcluster_worker.Shell.Session.{
  MayRead, break_reader, HandlerMove, begins, transmits, stops_streaming, acks, shell_reads,
  shell_closes, fails, stops_listening, terminates, is_terminated, exits,
}
use taskcluster_worker.Shell.Wire.{ack_message-bytes, exit_message-bytes}
use taskcluster_worker.Shell.Levels.{
  loads, loads-append, output_load, stdin_ack, ack_message-ack, exit_message-ack,
}
use taskcluster_worker.Shell.Ends.{
  begin_read-level, begin_read-phase, take_bytes-level, rest_told-level, close_receiving-level,
  break_reader-level, close_sending-level,
}
use taskcluster_worker.Shell.Spending.{Spends, Spends-trans, abort-Spends, transmit-Spends}

begin-Spends :
    (o o' : Output) (n : ℕ) (h : Handler)
    → MayRead (sending o' h) n
    → Spends o 0 0 h (set_sending o' (begin_read n (sending o' h)) h)
begin-Spends on_stdout on_stdout n h m = ground (
  arith,
  m,
  begin_read-phase n h.stdout,
  λ (z : neg_part h.stdout.pipe.unblocked ≡ 0). begin_read-level h.stdout n m z,
)
begin-Spends on_stdout on_stderr n h m = ground arith
begin-Spends on_stderr on_stdout n h m = ground arith
begin-Spends on_stderr on_stderr n h m = ground (
  arith,
  m,
  begin_read-phase n h.stderr,
  λ (z : neg_part h.stderr.pipe.unblocked ≡ 0). begin_read-level h.stderr n m z,
)

end_stream-Spends :
    (o o' : Output) (h : Handler) → Spends o 0 0 h (set_sending o' (end_stream (sending o' h)) h)
unfolding end_stream
end_stream-Spends on_stdout on_stdout h = ground arith
end_stream-Spends on_stdout on_stderr h = ground arith
end_stream-Spends on_stderr on_stdout h = ground arith
end_stream-Spends on_stderr on_stderr h = ground arith

stdin-Spends :
    (o : Output) (x : Receiving) (h : Handler)
    → length x.pipe.buffer + total x.told ≤ length h.stdin.pipe.buffer + total h.stdin.told
    → x.pipe.capacity ≡ h.stdin.pipe.capacity
    → Spends o 0 0 h (record h { stdin = x })
stdin-Spends on_stdout x h l e = ground (arith, l, e)
stdin-Spends on_stderr x h l e = ground (arith, l, e)

ack_told-Spends :
    (o : Output) (k : ℕ) (r : SendResult) (told : List ℕ) (h : Handler)
    → h.stdin.told ≡ told
    → Spends o 0 0 h (ack_told k r told h)
unfolding send abort
ack_told-Spends on_stdout k r [] h e = ground arith
ack_told-Spends on_stderr k r [] h e = ground arith
ack_told-Spends on_stdout k r (n ∷ ns) h e = ground (
  arith,
  e,
  rest_told-level k n ns h.stdin,
  loads-append stdin_ack h.ws (ack_message stream_stdin (merge_tells k n ns)),
  loads-append (output_load on_stdout) h.ws (ack_message stream_stdin (merge_tells k n ns)),
  ack_message-ack (merge_tells k n ns),
  ack_message-bytes on_stdout (merge_tells k n ns),
)
ack_told-Spends on_stderr k r (n ∷ ns) h e = ground (
  arith,
  e,
  rest_told-level k n ns h.stdin,
  loads-append stdin_ack h.ws (ack_message stream_stdin (merge_tells k n ns)),
  loads-append (output_load on_stderr) h.ws (ack_message stream_stdin (merge_tells k n ns)),
  ack_message-ack (merge_tells k n ns),
  ack_message-bytes on_stderr (merge_tells k n ns),
)

ack-Spends : (o : Output) (k : ℕ) (r : SendResult) (h : Handler) → Spends o 0 0 h (send_acks k r h)
unfolding send_acks
ack-Spends o k r h = ack_told-Spends o k r h.stdin.told h refl

exit_posted :
    (o : Output) (b : Bool) (ws : List (List ℕ))
    → (loads (output_load o) (ws ++ exit_message b ∷ []) ≡ loads (output_load o) ws)
      × (loads stdin_ack (ws ++ exit_message b ∷ []) ≡ loads stdin_ack ws)
exit_posted o b ws = ground (
  arith,
  loads-append (output_load o) ws (exit_message b),
  loads-append stdin_ack ws (exit_message b),
  exit_message-bytes o b,
  exit_message-ack b,
)

exit-Spends : (o : Output) (writes : Bool) (h : Handler) → Spends o 0 0 h (send_exit writes h)
unfolding send_exit
exit-Spends on_stdout writes h = ground (
  arith,
  close_receiving-level h.stdin,
  close_sending-level h.stdout,
  exit_posted on_stdout true h.ws,
  exit_posted on_stdout false h.ws,
)
exit-Spends on_stderr writes h = ground (
  arith,
  close_receiving-level h.stdin,
  close_sending-level h.stderr,
  exit_posted on_stderr true h.ws,
  exit_posted on_stderr false h.ws,
)

pub HandlerMove-Spends : {h t : Handler} (o : Output) → HandlerMove h t → Spends o 0 0 h t
unfolding stop_streaming terminate resolve stop_listening
HandlerMove-Spends {h} o (begins o' n m eq) = rw eq (begin-Spends o o' n h m)
HandlerMove-Spends {h} o (transmits o' n bytes end r r' e l eq) =
    rw eq (transmit-Spends o o' n bytes end r r' h e l)
HandlerMove-Spends {h} o (stops_streaming o' e eq) =
    rw eq (Spends-trans o 0 0 0 (end_stream-Spends o o' h) (abort-Spends o 0 _))
HandlerMove-Spends {h} o (acks k r eq) = rw eq (ack-Spends o k r h)
HandlerMove-Spends {h} o (shell_reads size eq) =
    let l = take_bytes-level size h.stdin in rw eq (stdin-Spends o _ h l.0 l.1)
HandlerMove-Spends {h} o (shell_closes eq) =
    let l = break_reader-level h.stdin in
    rw eq (stdin-Spends o (break_reader h.stdin) h (ground (arith, l)) l.2)
HandlerMove-Spends {h} o (fails eq) = rw eq (abort-Spends o 0 h)
HandlerMove-Spends {h} on_stdout (stops_listening eq) =
    ground (arith, eq, abort-Spends on_stdout 0 h)
HandlerMove-Spends {h} on_stderr (stops_listening eq) =
    ground (arith, eq, abort-Spends on_stderr 0 h)
HandlerMove-Spends on_stdout (terminates success e eq) = ground (arith, eq)
HandlerMove-Spends on_stderr (terminates success e eq) = ground (arith, eq)
HandlerMove-Spends on_stdout (is_terminated success e eo ee eq) = ground (arith, eq)
HandlerMove-Spends on_stderr (is_terminated success e eo ee eq) = ground (arith, eq)
HandlerMove-Spends {h} o (exits writes eq) = rw eq (exit-Spends o writes h)
