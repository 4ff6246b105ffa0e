-- ===== src/Shell/Moves.antt =====
-- Theorems on the steps of the handler: a success follows the output.
use taskcluster_worker.Prelude.{
  ℕ, ◌≡◌, ◌⊎◌, refl, inl, inr, Bool, true, false, List, [], ◌∷◌, ◌++◌, some, arith, Option-cases,
}
use mathlib.Core.List.{append-nil}
use taskcluster_worker.Shell.Messages.{
  Output, on_stdout, on_stderr, stream_stdin, ack_message, exit_message, HandlerEvent,
  handler_event, skips, closes_stdin, asks_abort, writes_stdin, unblocks_output, sets_size,
}
use taskcluster_worker.Shell.Streams.{
  Receiving, idle, ended, begin_read, end_stream, grant, close_sending, merge_tells, rest_told,
  SendResult,
}
use taskcluster_worker.Io.AsyncPipe.{write, accepts, closed_pipe, pipe_full, close_writer}
use taskcluster_worker.Shell.Handler.{
  Handler, sending, set_sending, terminate, resolve, stop_streaming, ack_told, send_acks, send_exit,
  written, stdin_closed, perform, receive, stop_listening,
}
use taskcluster_worker.Shell.Session.{
  HandlerMove, begins, transmits, stops_streaming, acks, shell_reads, shell_closes, fails,
  stops_listening, terminates, is_terminated, exits,
}
use taskcluster_worker.Shell.Wire.{
  wire, exit_message-bytes, exit_message-success, ack_message-bytes, ack_message-success,
  wire-append, success-append, Quiet-append,
}
use taskcluster_worker.Shell.Output.{
  is_some, Ordered, HandlerOrdered, abort-Ordered, send-Ordered, transmit-Ordered,
}

abbrev pub Unresolved : Handler → Type 0
Unresolved h = (o' : Output) → ((sending o' h).phase ≡ ended) ⊎ (is_some true h.resolution ≡ false)

module _ (got : List ℕ) (lost : Bool) (h : Handler) where
  pub stdin-Ordered :
      (o : Output) (x : Receiving)
      → HandlerOrdered o got [] lost h
      → HandlerOrdered o got [] lost (record h { stdin = x })
  stdin-Ordered on_stdout x v = v
  stdin-Ordered on_stderr x v = v

  pub listening-Ordered :
      (o : Output) (b : Bool)
      → HandlerOrdered o got [] lost h
      → HandlerOrdered o got [] lost (record h { listening = b })
  listening-Ordered on_stdout b v = v
  listening-Ordered on_stderr b v = v

module _ (got : List ℕ) (lost : Bool) (h : Handler) (w : Unresolved h) where
  begin-Ordered :
      (o o' : Output) (n : ℕ)
      → (sending o' h).phase ≡ idle
      → HandlerOrdered o got [] lost h
      → HandlerOrdered o got [] lost (set_sending o' (begin_read n (sending o' h)) h)
  unfolding begin_read
  begin-Ordered on_stdout on_stdout n e v = ground (arith, v, e)
  begin-Ordered on_stdout on_stderr n e v = ground (arith, v)
  begin-Ordered on_stderr on_stdout n e v = ground (arith, v)
  begin-Ordered on_stderr on_stderr n e v = ground (arith, v, e)

  end_stream-Ordered :
      (o o' : Output)
      → HandlerOrdered o got [] lost h
      → HandlerOrdered o got [] lost (set_sending o' (end_stream (sending o' h)) h)
  unfolding end_stream
  end_stream-Ordered on_stdout on_stdout v = ground (arith, v)
  end_stream-Ordered on_stdout on_stderr v = ground (arith, v)
  end_stream-Ordered on_stderr on_stdout v = ground (arith, v)
  end_stream-Ordered on_stderr on_stderr v = ground (arith, v)

  ack-Ordered :
      (o : Output) (k : ℕ) (r : SendResult) (told : List ℕ)
      → HandlerOrdered o got [] lost h
      → HandlerOrdered o got [] lost (ack_told k r told h)
  ack-Ordered o k r [] v = v
  ack-Ordered o k r (n ∷ ns) v =
      send-Ordered got lost o r true (ack_message stream_stdin (merge_tells k n ns)) []
        (record h { stdin = rest_told k ns h.stdin }) (ack_message-bytes o (merge_tells k n ns))
        (ack_message-success (merge_tells k n ns)) (inl refl) (stdin-Ordered got lost h o _ v)

  -- The message of `waitForSuccess`, where the shell is resolved with this success.
  exit_posted :
      (o : Output) (success : Bool)
      → h.resolution ≡ some success
      → HandlerOrdered o got [] lost h
      → Ordered o got [] lost (sending o h) h.resolution h.over (h.ws ++ exit_message success ∷ [])
  exit_posted o success e v = record {
    over_first = v.over_first;
    in_order = ground (
      arith,
      v.in_order,
      wire-append o h.ws (exit_message success),
      exit_message-bytes o success,
      append-nil (wire o h.ws),
    );
    quiet = Quiet-append o h.ws (exit_message success) v.quiet (inr (exit_message-bytes o success));
    success = ground (
      arith,
      v.success,
      e,
      success-append h.ws (exit_message success),
      exit_message-success success,
    );
  }

  exit-Ordered :
      (o : Output) (writes : Bool)
      → HandlerOrdered o got [] lost h
      → HandlerOrdered o got [] lost (send_exit writes h)
  unfolding send_exit close_sending
  exit-Ordered on_stdout writes v = elim (Option-cases h.resolution) [
    | inl e ↦ ground (arith, v, e)
    | inr (b, e) ↦ ground (arith, v, e, exit_posted on_stdout b e v)
  ]
  exit-Ordered on_stderr writes v = elim (Option-cases h.resolution) [
    | inl e ↦ ground (arith, v, e)
    | inr (b, e) ↦ ground (arith, v, e, exit_posted on_stderr b e v)
  ]

  pub HandlerMove-Ordered :
      {t : Handler} (o : Output)
      → HandlerMove h t
      → HandlerOrdered o got [] lost h
      → HandlerOrdered o got [] lost t
  unfolding stop_streaming send_acks terminate resolve stop_listening
  HandlerMove-Ordered o (begins o' n (e, m) eq) v = rw eq (begin-Ordered o o' n e v)
  HandlerMove-Ordered o (transmits o' n bytes end r r' e l eq) v =
      rw eq (transmit-Ordered got lost o o' n bytes end r r' h (ground (arith, w o', e)) v)
  HandlerMove-Ordered o (stops_streaming o' e eq) v =
      rw eq (abort-Ordered got lost o _ [] (end_stream-Ordered o o' v))
  HandlerMove-Ordered o (acks k r eq) v = rw eq (ack-Ordered o k r h.stdin.told v)
  HandlerMove-Ordered o (shell_reads size eq) v = rw eq (stdin-Ordered got lost h o _ v)
  HandlerMove-Ordered o (shell_closes eq) v = rw eq (stdin-Ordered got lost h o _ v)
  HandlerMove-Ordered o (fails eq) v = rw eq (abort-Ordered got lost o h [] v)
  HandlerMove-Ordered o (stops_listening eq) v =
      rw eq (listening-Ordered got lost _ o false (abort-Ordered got lost o h [] v))
  HandlerMove-Ordered on_stdout (terminates success e eq) v = ground (arith, eq, e, v)
  HandlerMove-Ordered on_stderr (terminates success e eq) v = ground (arith, eq, e, v)
  HandlerMove-Ordered on_stdout (is_terminated success e eo ee eq) v =
      ground (arith, eq, e, eo, ee, v)
  HandlerMove-Ordered on_stderr (is_terminated success e eo ee eq) v =
      ground (arith, eq, e, eo, ee, v)
  HandlerMove-Ordered o (exits writes eq) v = rw eq (exit-Ordered o writes v)

module _ (got : List ℕ) (lost : Bool) (h : Handler) where
  grant-Ordered :
      (o o' : Output) (n : ℕ)
      → HandlerOrdered o got [] lost h
      → HandlerOrdered o got [] lost (set_sending o' (grant n (sending o' h)) h)
  unfolding grant
  grant-Ordered on_stdout on_stdout n v = ground (arith, v)
  grant-Ordered on_stdout on_stderr n v = ground (arith, v)
  grant-Ordered on_stderr on_stdout n v = ground (arith, v)
  grant-Ordered on_stderr on_stderr n v = ground (arith, v)

  perform-Ordered :
      (o : Output) (e : HandlerEvent)
      → HandlerOrdered o got [] lost h
      → HandlerOrdered o got [] lost (perform e h).0
  perform-Ordered o skips v = v
  perform-Ordered o (writes_stdin bytes) v =
      elim (write bytes h.stdin.pipe).1
        as (λ k. HandlerOrdered o got [] lost (written k bytes h).0) [
          | accepts n ↦ stdin-Ordered got lost h o _ v
          | closed_pipe ↦ abort-Ordered got lost o h [] v
          | pipe_full ↦ abort-Ordered got lost o h [] v
        ]
  perform-Ordered o closes_stdin v =
      elim (close_writer h.stdin.pipe).1
        as (λ k. HandlerOrdered o got [] lost (stdin_closed k h).0) [
          | true ↦ abort-Ordered got lost o h [] v
          | false ↦ stdin-Ordered got lost h o _ v
        ]
  perform-Ordered o (unblocks_output o' n) v = grant-Ordered o o' n v
  perform-Ordered on_stdout (sets_size columns rows) v = ground (arith, v)
  perform-Ordered on_stderr (sets_size columns rows) v = ground (arith, v)
  perform-Ordered o asks_abort v = abort-Ordered got lost o h [] v

  pub receive-Ordered :
      (o : Output) (m : List ℕ)
      → HandlerOrdered o got [] lost h
      → HandlerOrdered o got [] lost (receive m h)
  unfolding receive
  receive-Ordered o m v = listening-Ordered got lost _ o _ (perform-Ordered o (handler_event m) v)
