-- ===== src/Shell/Intake.antt =====
-- Theorems on `readMessages` of both sides: what a message adds to what counts against the limits.
use taskcluster_worker.Prelude.{
  ℕ, ◌+◌, ◌≤◌, ◌≡◌, Bool, true, false, List, arith, length, length-append,
}
use taskcluster_worker.Prelude.Int.{pos_part, neg_part, ◌+ℤ◌}
use taskcluster_worker.Errors.{shell_terminated}
use taskcluster_worker.Io.BlockedPipe.{unblock}
use taskcluster_worker.Io.AsyncPipe.{write, Written, accepts, closed_pipe, pipe_full}
use taskcluster_worker.Shell.Messages.{
  Output, on_stdout, on_stderr, HandlerEvent, handler_event, skips, closes_stdin, asks_abort,
  writes_stdin, unblocks_output, sets_size, ClientEvent, client_event, ignores, writes_output,
  closes_output, unblocks_stdin, exits,
}
use taskcluster_worker.Shell.Streams.{Sending, Receiving, grant}
use taskcluster_worker.Shell.Handler as Handler
use taskcluster_worker.Shell.Handler.{Handler, sending, set_sending, stdin_closed}
use taskcluster_worker.Shell.Client as Client
use taskcluster_worker.Shell.Client.{Client, receiving, set_receiving, output_closed}
use taskcluster_worker.Shell.Wire.{bytes_for}
use taskcluster_worker.Shell.Levels.{
  output_load, stdin_ack, stdin_load, output_ack, acked_stdin, acked_output, stdin_bytes, held,
  sender_level, receiver_level,
}
use taskcluster_worker.Shell.Ends.{close_receiving-level}
use taskcluster_worker.Shell.Spending.{Spends, abort-Spends}
use taskcluster_worker.Shell.Granting.{Grants, resolve-Grants, fail-Grants}

grant-level :
    (n : ℕ) (x : Sending)
    → neg_part x.pipe.unblocked ≡ 0
    → (neg_part (grant n x).pipe.unblocked ≡ 0)
      × (pos_part (grant n x).pipe.unblocked + held (grant n x).phase
          ≡ pos_part x.pipe.unblocked + held x.phase + n)
unfolding grant unblock ◌+ℤ◌
grant-level n x e = ground (arith, e)

write-level :
    (bytes : List ℕ) (x : Receiving)
    → (length (write bytes x.pipe).0.buffer ≤ length x.pipe.buffer + length bytes)
      × ((write bytes x.pipe).0.capacity ≡ x.pipe.capacity)
unfolding write
write-level bytes x = ground (arith, length-append x.pipe.buffer bytes)

-- What the client's event adds to its part.
pub record ClientTakes (o : Output) (e : ClientEvent) (c d : Client) : Type 0 where
  pub limited : neg_part c.stdin.pipe.unblocked ≡ 0 → neg_part d.stdin.pipe.unblocked ≡ 0
  pub sends :
      neg_part c.stdin.pipe.unblocked ≡ 0
      → sender_level stdin_load d.ws d.stdin ≤ sender_level stdin_load c.ws c.stdin + acked_stdin e
  pub acks :
      receiver_level (output_ack o) d.ws (receiving o d)
      ≤ receiver_level (output_ack o) c.ws (receiving o c) + length (bytes_for o e)
  pub room : (receiving o d).pipe.capacity ≡ (receiving o c).pipe.capacity

Grants-Takes :
    (o : Output) (e : ClientEvent) {c d : Client} → Grants o 0 0 c d → ClientTakes o e c d
Grants-Takes o e g = record {
  limited = g.limited;
  sends = λ z. omega (arith, g.sends z);
  acks = omega (arith, g.acks);
  room = g.room;
}

written-Takes :
    (o o' : Output) (bytes : List ℕ) (w : Written) (c : Client)
    → ClientTakes o (writes_output o' bytes) c (Client.written w o' bytes c).0
written-Takes on_stdout on_stdout bytes (accepts n) c = ground (arith, write-level bytes c.stdout)
written-Takes on_stdout on_stderr bytes (accepts n) c = ground arith
written-Takes on_stderr on_stdout bytes (accepts n) c = ground arith
written-Takes on_stderr on_stderr bytes (accepts n) c = ground (arith, write-level bytes c.stderr)
written-Takes o o' bytes closed_pipe c = Grants-Takes o _ (fail-Grants o 0 c)
written-Takes o o' bytes pipe_full c = Grants-Takes o _ (fail-Grants o 0 c)

closed-Takes :
    (o o' : Output) (b : Bool) (c : Client)
    → ClientTakes o (closes_output o') c (output_closed b o' c).0
closed-Takes on_stdout on_stdout false c = ground (arith, close_receiving-level c.stdout)
closed-Takes on_stdout on_stderr false c = ground arith
closed-Takes on_stderr on_stdout false c = ground arith
closed-Takes on_stderr on_stderr false c = ground (arith, close_receiving-level c.stderr)
closed-Takes o o' true c = Grants-Takes o _ (fail-Grants o 0 c)

unblock-Takes :
    (o : Output) (n : ℕ) (c : Client)
    → ClientTakes o (unblocks_stdin n) c (record c { stdin = grant n c.stdin })
unblock-Takes on_stdout n c =
    ground (arith, λ (z : neg_part c.stdin.pipe.unblocked ≡ 0). grant-level n c.stdin z)
unblock-Takes on_stderr n c =
    ground (arith, λ (z : neg_part c.stdin.pipe.unblocked ≡ 0). grant-level n c.stdin z)

client-perform-Takes :
    (o : Output) (e : ClientEvent) (c : Client) → ClientTakes o e c (Client.perform e c).0
client-perform-Takes o ignores c = ground arith
client-perform-Takes o (writes_output o' bytes) c = written-Takes o o' bytes _ c
client-perform-Takes o (closes_output o') c = closed-Takes o o' _ c
client-perform-Takes o (unblocks_stdin n) c = unblock-Takes o n c
client-perform-Takes o (exits success) c =
    Grants-Takes o _ (resolve-Grants o success shell_terminated c)

pub client-receive-Takes :
    (o : Output) (m : List ℕ) (c : Client) → ClientTakes o (client_event m) c (Client.receive m c)
unfolding Client.receive
client-receive-Takes on_stdout m c =
    ground (arith, client-perform-Takes on_stdout (client_event m) c)
client-receive-Takes on_stderr m c =
    ground (arith, client-perform-Takes on_stderr (client_event m) c)

-- What the handler's event adds to its part.
pub record HandlerTakes (o : Output) (e : HandlerEvent) (h t : Handler) : Type 0 where
  pub limited :
      neg_part (sending o h).pipe.unblocked ≡ 0 → neg_part (sending o t).pipe.unblocked ≡ 0
  pub sends :
      neg_part (sending o h).pipe.unblocked ≡ 0
      → sender_level (output_load o) t.ws (sending o t)
        ≤ sender_level (output_load o) h.ws (sending o h) + acked_output o e
  pub acks :
      receiver_level stdin_ack t.ws t.stdin
      ≤ receiver_level stdin_ack h.ws h.stdin + length (stdin_bytes e)
  pub room : t.stdin.pipe.capacity ≡ h.stdin.pipe.capacity

Spends-Takes :
    (o : Output) (e : HandlerEvent) {h t : Handler} → Spends o 0 0 h t → HandlerTakes o e h t
Spends-Takes o e g = record {
  limited = g.limited;
  sends = λ z. omega (arith, g.sends z);
  acks = omega (arith, g.acks);
  room = g.room;
}

stdin_written-Takes :
    (o : Output) (bytes : List ℕ) (w : Written) (h : Handler)
    → HandlerTakes o (writes_stdin bytes) h (Handler.written w bytes h).0
stdin_written-Takes on_stdout bytes (accepts n) h = ground (arith, write-level bytes h.stdin)
stdin_written-Takes on_stderr bytes (accepts n) h = ground (arith, write-level bytes h.stdin)
stdin_written-Takes o bytes closed_pipe h = Spends-Takes o _ (abort-Spends o 0 h)
stdin_written-Takes o bytes pipe_full h = Spends-Takes o _ (abort-Spends o 0 h)

stdin_closed-Takes :
    (o : Output) (b : Bool) (h : Handler) → HandlerTakes o closes_stdin h (stdin_closed b h).0
stdin_closed-Takes on_stdout false h = ground (arith, close_receiving-level h.stdin)
stdin_closed-Takes on_stderr false h = ground (arith, close_receiving-level h.stdin)
stdin_closed-Takes o true h = Spends-Takes o _ (abort-Spends o 0 h)

output_unblocked-Takes :
    (o o' : Output) (n : ℕ) (h : Handler)
    → HandlerTakes o (unblocks_output o' n) h (set_sending o' (grant n (sending o' h)) h)
output_unblocked-Takes on_stdout on_stdout n h =
    ground (arith, λ (z : neg_part h.stdout.pipe.unblocked ≡ 0). grant-level n h.stdout z)
output_unblocked-Takes on_stdout on_stderr n h = ground arith
output_unblocked-Takes on_stderr on_stdout n h = ground arith
output_unblocked-Takes on_stderr on_stderr n h =
    ground (arith, λ (z : neg_part h.stderr.pipe.unblocked ≡ 0). grant-level n h.stderr z)

handler-perform-Takes :
    (o : Output) (e : HandlerEvent) (h : Handler) → HandlerTakes o e h (Handler.perform e h).0
handler-perform-Takes o skips h = ground arith
handler-perform-Takes o (writes_stdin bytes) h = stdin_written-Takes o bytes _ h
handler-perform-Takes o closes_stdin h = stdin_closed-Takes o _ h
handler-perform-Takes o (unblocks_output o' n) h = output_unblocked-Takes o o' n h
handler-perform-Takes on_stdout (sets_size columns rows) h = ground arith
handler-perform-Takes on_stderr (sets_size columns rows) h = ground arith
handler-perform-Takes o asks_abort h = Spends-Takes o _ (abort-Spends o 0 h)

pub handler-receive-Takes :
    (o : Output) (m : List ℕ) (h : Handler)
    → HandlerTakes o (handler_event m) h (Handler.receive m h)
unfolding Handler.receive
handler-receive-Takes on_stdout m h =
    ground (arith, handler-perform-Takes on_stdout (handler_event m) h)
handler-receive-Takes on_stderr m h =
    ground (arith, handler-perform-Takes on_stderr (handler_event m) h)
