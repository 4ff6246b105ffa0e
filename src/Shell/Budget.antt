-- ===== src/Shell/Budget.antt =====
-- Theorems on a session: the limits of bytes under way are kept on every stream.
use taskcluster_worker.Prelude.{ℕ, ◌+◌, ◌≤◌, ◌≡◌, ◌≢◌, refl, Bool, List, [], ◌∷◌, arith, length}
use taskcluster_worker.Prelude.Int.{neg_part, ◌+ℤ◌}
use taskcluster_worker.Io.BlockedPipe.{unblock, reserve, slice_panic}
use taskcluster_worker.Io.AsyncPipe.{new_pipe, write, pipe_full}
use taskcluster_worker.Shell.Messages.{
  Output, on_stdout, on_stderr, handler_event, client_event, shell_max_pending_bytes,
}
use taskcluster_worker.Shell.Streams.{Receiving, new_sending, new_receiving}
use taskcluster_worker.Shell.Handler as Handler
use taskcluster_worker.Shell.Handler.{Handler, sending}
use taskcluster_worker.Shell.Client as Client
use taskcluster_worker.Shell.Client.{Client, receiving}
use taskcluster_worker.Shell.Session.{
  Session, Step, handler_moves, client_moves, client_receives, handler_receives, Reach, here, next,
}
use taskcluster_worker.Shell.Wire.{bytes_for}
use taskcluster_worker.Shell.Levels.{
  loads, output_load, stdin_ack, stdin_load, output_ack, stdin_bytes, sender_level, receiver_level,
}
use taskcluster_worker.Shell.Spending.{Spends}
use taskcluster_worker.Shell.SpendingMoves.{HandlerMove-Spends}
use taskcluster_worker.Shell.Granting.{Grants}
use taskcluster_worker.Shell.GrantingMoves.{ClientMove-Grants}
use taskcluster_worker.Shell.Intake.{
  ClientTakes, HandlerTakes, client-receive-Takes, handler-receive-Takes,
}

-- The two parts of a stream are together at most the limit.
pub record Within (o : Output) (h : Handler) (c : Client) : Type 0 where
  pub output_limited : neg_part (sending o h).pipe.unblocked ≡ 0
  pub input_limited : neg_part c.stdin.pipe.unblocked ≡ 0
  pub output :
      sender_level (output_load o) h.ws (sending o h)
        + receiver_level (output_ack o) c.ws (receiving o c)
      ≤ shell_max_pending_bytes
  pub input :
      sender_level stdin_load c.ws c.stdin + receiver_level stdin_ack h.ws h.stdin
      ≤ shell_max_pending_bytes
  pub output_room : (receiving o c).pipe.capacity ≡ shell_max_pending_bytes
  pub input_room : h.stdin.pipe.capacity ≡ shell_max_pending_bytes

handler_moved :
    {h t : Handler} (o : Output) (c : Client) → Spends o 0 0 h t → Within o h c → Within o t c
handler_moved o c g v = record {
  output_limited = g.limited v.output_limited;
  input_limited = v.input_limited;
  output = omega (arith, g.sends v.output_limited, v.output);
  input = omega (arith, g.acks, v.input);
  output_room = v.output_room;
  input_room = omega (arith, g.room, v.input_room);
}

client_moved :
    {c d : Client} (o : Output) (h : Handler) → Grants o 0 0 c d → Within o h c → Within o h d
client_moved o h g v = record {
  output_limited = v.output_limited;
  input_limited = g.limited v.input_limited;
  output = omega (arith, g.acks, v.output);
  input = omega (arith, g.sends v.input_limited, v.input);
  output_room = omega (arith, g.room, v.output_room);
  input_room = v.input_room;
}

client_received :
    {d : Client} (o : Output) (m : List ℕ) (ms : List (List ℕ)) (h : Handler) (c : Client)
    → h.ws ≡ m ∷ ms
    → ClientTakes o (client_event m) c d
    → Within o h c
    → Within o (record h { ws = ms }) d
client_received on_stdout m ms h c e g v = ground (arith, e, g, v)
client_received on_stderr m ms h c e g v = ground (arith, e, g, v)

handler_received :
    {t : Handler} (o : Output) (m : List ℕ) (ms : List (List ℕ)) (h : Handler) (c : Client)
    → c.ws ≡ m ∷ ms
    → HandlerTakes o (handler_event m) h t
    → Within o h c
    → Within o t (record c { ws = ms })
handler_received on_stdout m ms h c e g v = ground (arith, e, g, v)
handler_received on_stderr m ms h c e g v = ground (arith, e, g, v)

Step-Within :
    {s t : Session} (o : Output)
    → Step s t
    → Within o s.handler s.client
    → Within o t.handler t.client
Step-Within {s} o (handler_moves m eq) v =
    rw eq (handler_moved o s.client (HandlerMove-Spends o m) v)
Step-Within {s} o (client_moves m eq) v = rw eq (client_moved o s.handler (ClientMove-Grants o m) v)
Step-Within {s} o (client_receives m ms l e eq) v =
    rw eq (client_received o m ms s.handler s.client e (client-receive-Takes o m s.client) v)
Step-Within {s} o (handler_receives m ms l e eq) v =
    rw eq (handler_received o m ms s.handler s.client e (handler-receive-Takes o m s.handler) v)

Reach-Within : {a z : Bool} {s : Session} (o : Output) → Reach a z s → Within o s.handler s.client
unfolding Handler.new_handler Client.new_client new_receiving new_sending new_pipe unblock ◌+ℤ◌
Reach-Within on_stdout here = ground arith
Reach-Within on_stderr here = ground arith
Reach-Within o (next r st) = Step-Within o st (Reach-Within o r)

-- A write of bytes that count for the sender finds room.
room_left :
    (bytes : List ℕ) (x : Receiving)
    → length x.pipe.buffer + length bytes ≤ x.pipe.capacity
    → (write bytes x.pipe).1 ≢ pipe_full
unfolding write
room_left bytes x l = ground (arith, l)

abbrev pub first : List (List ℕ) → List ℕ
first [] = []
first (m ∷ ms) = m

first-load : (f : List ℕ → ℕ) (ws : List (List ℕ)) → f [] ≡ 0 → f (first ws) ≤ loads f ws
first-load f [] e = omega arith
first-load f (m ∷ ms) e = omega arith

no_output : (o : Output) → output_load o [] ≡ 0
unfolding client_event
no_output on_stdout = refl
no_output on_stderr = refl

no_stdin : stdin_load [] ≡ 0
unfolding handler_event
no_stdin = refl

-- Flow control holds in every session, whatever the goroutines, the shell and the user do, and
-- whatever fails. The bytes of the first message on its way to the client, if it has bytes of an
-- output stream, fit the client's buffer, and the bytes of the first message on its way to the
-- handler, if it has bytes of stdin, fit the handler's, so that ErrPipeFull does not occur. The bytes
-- of a stream that are on their way or in the buffer of the receiver are at most 65536. No read of a
-- BlockedPipe panics.
pub no_overflow :
    {s : Session} (abort_func set_size_func : Bool) (o : Output) (size : ℕ)
    → Reach abort_func set_size_func s
    → let c = s.client in
      let h = s.handler in
      ((write (bytes_for o (client_event (first h.ws))) (receiving o c).pipe).1 ≢ pipe_full)
      × ((write (stdin_bytes (handler_event (first c.ws))) h.stdin.pipe).1 ≢ pipe_full)
      × (loads (output_load o) h.ws + length (receiving o c).pipe.buffer ≤ 65536)
      × (loads stdin_load c.ws + length h.stdin.pipe.buffer ≤ 65536)
      × ((reserve size (sending o h).pipe).1 ≢ slice_panic)
      × ((reserve size c.stdin.pipe).1 ≢ slice_panic)
unfolding reserve
no_overflow {s} a z o size r =
    let v = Reach-Within o r in
    let c = s.client in
    let h = s.handler in
    (
      room_left _ (receiving o c)
          (omega (arith, first-load (output_load o) h.ws (no_output o), v.output, v.output_room)),
      room_left _ h.stdin
          (omega (arith, first-load stdin_load c.ws no_stdin, v.input, v.input_room)),
      omega (arith, v.output),
      omega (arith, v.input),
      ground (arith, v.output_limited),
      ground (arith, v.input_limited),
    )
