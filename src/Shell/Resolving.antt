-- ===== src/Shell/Resolving.antt =====
-- Theorems on how both sides of an interactive shell are resolved.
use taskcluster_worker.Prelude.{
  ℕ, ◌≤◌, ◌≡◌, ◌⊎◌, refl, Bool, true, false, List, [], ◌∷◌, Option, none, some, arith,
}
use taskcluster_worker.Io.AsyncPipe.{Written, accepts, closed_pipe, pipe_full}
use taskcluster_worker.Shell.Messages.{
  Output, on_stdout, on_stderr, stream_stdin, ack_message, HandlerEvent, handler_event, skips,
  closes_stdin, asks_abort, writes_stdin, unblocks_output, sets_size,
}
use taskcluster_worker.Shell.Streams.{
  Sending, ReadEnd, more, eof, end_read, end_stream, merge_tells, rest_told, SendResult, sent,
  close_sent, send_fails,
}
use taskcluster_worker.Shell.Handler as Handler
use taskcluster_worker.Shell.Handler.{Handler, sending, set_sending}
use taskcluster_worker.Shell.Session.{HandlerMove}

-- 1 where the shell was aborted.
abbrev pub failed : Option Bool → ℕ
failed (some false) = 1
failed _ = 0

-- A resolution stays; and a call of abortFunc resolves.
pub record Steady (h t : Handler) : Type 0 where
  pub kept : (h.resolution ≡ none) ⊎ ((t.resolution ≡ h.resolution) × (t.aborts ≡ h.aborts))
  pub counted : h.aborts ≤ failed h.resolution → t.aborts ≤ failed t.resolution

Steady-trans : {h i j : Handler} → Steady h i → Steady i j → Steady h j
Steady-trans v w = record {
  kept = ground (arith, v.kept, w.kept);
  counted = λ l. w.counted (v.counted l);
}

-- Where neither the resolution nor the count is touched.
same-Steady : {h t : Handler} → t.resolution ≡ h.resolution → t.aborts ≡ h.aborts → Steady h t
same-Steady r a = ground (arith, r, a)

abort-Steady : (h : Handler) → Steady h (Handler.abort h)
unfolding Handler.abort
abort-Steady h = ground arith

set-Steady : (o : Output) (x : Sending) (h : Handler) → Steady h (set_sending o x h)
set-Steady on_stdout x h = same-Steady refl refl
set-Steady on_stderr x h = same-Steady refl refl

send-Steady :
    (r : SendResult) (ignore : Bool) (m : List ℕ) (h : Handler)
    → Steady h (Handler.send r ignore m h)
unfolding Handler.send
send-Steady sent ignore m h = same-Steady refl refl
send-Steady close_sent true m h = same-Steady refl refl
send-Steady close_sent false m h = abort-Steady h
send-Steady send_fails ignore m h = abort-Steady h

block-Steady :
    (r : SendResult) (o : Output) (bytes : List ℕ) (h : Handler)
    → Steady h (Handler.send_block r o bytes h)
block-Steady r o [] h = same-Steady refl refl
block-Steady r o (b ∷ bs) h = send-Steady r false _ h

end-Steady :
    (r : SendResult) (o : Output) (end : ReadEnd) (h : Handler)
    → Steady h (Handler.send_end r o end h)
end-Steady r o more h = same-Steady refl refl
end-Steady r o eof h = send-Steady r false _ h
end-Steady r o ReadEnd.fails h = abort-Steady h

told-Steady :
    (k : ℕ) (r : SendResult) (told : List ℕ) (h : Handler) → Steady h (Handler.ack_told k r told h)
told-Steady k r [] h = same-Steady refl refl
told-Steady k r (n ∷ ns) h = ground (
  arith,
  send-Steady r true (ack_message stream_stdin (merge_tells k n ns))
      (record h { stdin = rest_told k ns h.stdin }),
)

exit-Steady : (writes : Bool) (h : Handler) → Steady h (Handler.send_exit writes h)
unfolding Handler.send_exit
exit-Steady writes h = ground arith

pub HandlerMove-Steady : {h t : Handler} → HandlerMove h t → Steady h t
unfolding Handler.transmit Handler.stop_streaming Handler.send_acks Handler.stop_listening
    Handler.terminate Handler.resolve
HandlerMove-Steady {h} (HandlerMove.begins o n m eq) = rw eq (set-Steady o _ h)
HandlerMove-Steady {h} (HandlerMove.transmits o n bytes end r r' e l eq) = rw eq (
    Steady-trans
      (Steady-trans (set-Steady o (end_read n bytes end (sending o h)) h)
        (block-Steady r o bytes _))
      (end-Steady r' o end _))
HandlerMove-Steady {h} (HandlerMove.stops_streaming o e eq) =
    rw eq (Steady-trans (set-Steady o (end_stream (sending o h)) h) (abort-Steady _))
HandlerMove-Steady {h} (HandlerMove.acks k r eq) = rw eq (told-Steady k r h.stdin.told h)
HandlerMove-Steady (HandlerMove.shell_reads size eq) = rw eq (same-Steady refl refl)
HandlerMove-Steady (HandlerMove.shell_closes eq) = rw eq (same-Steady refl refl)
HandlerMove-Steady {h} (HandlerMove.fails eq) = rw eq (abort-Steady h)
HandlerMove-Steady {h} (HandlerMove.stops_listening eq) = ground (arith, eq, abort-Steady h)
HandlerMove-Steady (HandlerMove.terminates success e eq) = rw eq (same-Steady refl refl)
HandlerMove-Steady (HandlerMove.is_terminated success e eo ee eq) = ground (arith, eq)
HandlerMove-Steady {h} (HandlerMove.exits writes eq) = rw eq (exit-Steady writes h)

written-Steady :
    (w : Written) (bytes : List ℕ) (h : Handler) → Steady h (Handler.written w bytes h).0
written-Steady (accepts n) bytes h = same-Steady refl refl
written-Steady closed_pipe bytes h = abort-Steady h
written-Steady pipe_full bytes h = abort-Steady h

closed-Steady : (b : Bool) (h : Handler) → Steady h (Handler.stdin_closed b h).0
closed-Steady true h = abort-Steady h
closed-Steady false h = same-Steady refl refl

perform-Steady : (e : HandlerEvent) (h : Handler) → Steady h (Handler.perform e h).0
perform-Steady skips h = same-Steady refl refl
perform-Steady closes_stdin h = closed-Steady _ h
perform-Steady asks_abort h = abort-Steady h
perform-Steady (writes_stdin bytes) h = written-Steady _ bytes h
perform-Steady (unblocks_output o n) h = set-Steady o _ h
perform-Steady (sets_size columns rows) h = ground arith

pub receive-Steady : (m : List ℕ) (h : Handler) → Steady h (Handler.receive m h)
unfolding Handler.receive
receive-Steady m h = ground (arith, perform-Steady (handler_event m) h)
