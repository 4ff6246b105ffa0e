-- ===== src/Shell/Reception.antt =====
-- Theorems on the client: what it makes of a message.
use taskcluster_worker.Prelude.{ℕ, ◌≡◌, ◌∙◌, sym, refl, Bool, true, false, List, [], ◌++◌, arith}
use mathlib.Core.List.{append-nil, append_assoc}
use taskcluster_worker.Errors.{Err, shell_terminated}
use taskcluster_worker.Io.AsyncPipe.{write, Written, accepts, closed_pipe, pipe_full}
use taskcluster_worker.Shell.Messages.{
  Output, on_stdout, on_stderr, ClientEvent, ignores, writes_output, closes_output, unblocks_stdin,
  exits, client_event,
}
use taskcluster_worker.Shell.Streams.{Receiving, grant, close_receiving}
use taskcluster_worker.Shell.Client as Client
use taskcluster_worker.Shell.Client.{
  Client, receiving, set_receiving, resolve, dispose, written, output_closed, perform,
}
use taskcluster_worker.Shell.Wire.{bytes_for, is_success}
use taskcluster_worker.Shell.Delivery.{
  got, succeeded, Keeps, fail-Keeps, stdin-Keeps, close_receiving-got, set_receiving-Keeps,
}

-- A message that carries these bytes is received: the client has got them, or it has failed.
pub data Receives (o : Output) (c d : Client) (e : ClientEvent) : Type 0 where
  gets :
      got (receiving o d) ≡ got (receiving o c) ++ bytes_for o e
      → succeeded d.resolution ≡ succeeded c.resolution
      → is_success e ≡ false
      → Receives o c d e
  loses :
      d.listening ≡ false
      → succeeded d.resolution ≡ succeeded c.resolution
      → got (receiving o d) ≡ got (receiving o c)
      → Receives o c d e
  ends :
      is_success e ≡ true
      → d.listening ≡ false
      → got (receiving o d) ≡ got (receiving o c)
      → Receives o c d e

abbrev listen : Client × Bool → Client
listen r = record r.0 { listening = r.1 }

listen-got :
    (o : Output) (b : Bool) (c : Client)
    → got (receiving o (record c { listening = b })) ≡ got (receiving o c)
listen-got on_stdout b c = refl
listen-got on_stderr b c = refl

-- Where nothing of the stream is carried and the client goes on.
goes_on :
    (o : Output) (e : ClientEvent) (c d : Client)
    → bytes_for o e ≡ []
    → is_success e ≡ false
    → Keeps o c d
    → Receives o c (record d { listening = true }) e
goes_on o e c d b s k =
    gets (ground (arith, b, k.gets, listen-got o true d, append-nil (got (receiving o c)))) k.result
      s

gives_up :
    (o : Output) (e : ClientEvent) (c : Client) → Receives o c (listen (Client.fail c, false)) e
gives_up o e c =
    loses refl (fail-Keeps o c).result (listen-got o false (Client.fail c) ∙ (fail-Keeps o c).gets)

write-got :
    (bytes : List ℕ) (x : Receiving) (n : ℕ)
    → (write bytes x.pipe).1 ≡ accepts n
    → got (record x { pipe = (write bytes x.pipe).0 }) ≡ got x ++ bytes
unfolding write
write-got bytes x n e = ground (arith, e, append_assoc x.taken x.pipe.buffer bytes)

written-Receives :
    (o o' : Output) (bytes : List ℕ) (c : Client) (w : Written)
    → (write bytes (receiving o' c).pipe).1 ≡ w
    → Receives o c (listen (written w o' bytes c)) (writes_output o' bytes)
written-Receives o o' bytes c closed_pipe e = gives_up o (writes_output o' bytes) c
written-Receives o o' bytes c pipe_full e = gives_up o (writes_output o' bytes) c
written-Receives on_stdout on_stdout bytes c (accepts n) e =
    gets (write-got bytes c.stdout n e) refl refl
written-Receives on_stdout on_stderr bytes c (accepts n) e =
    gets (sym (append-nil (got c.stdout))) refl refl
written-Receives on_stderr on_stdout bytes c (accepts n) e =
    gets (sym (append-nil (got c.stderr))) refl refl
written-Receives on_stderr on_stderr bytes c (accepts n) e =
    gets (write-got bytes c.stderr n e) refl refl

no_bytes_closed : (o o' : Output) → bytes_for o (closes_output o') ≡ []
no_bytes_closed on_stdout o' = refl
no_bytes_closed on_stderr o' = refl

closed-Receives :
    (o o' : Output) (c : Client) (b : Bool)
    → Receives o c (listen (output_closed b o' c)) (closes_output o')
closed-Receives o o' c true = gives_up o (closes_output o') c
closed-Receives o o' c false = goes_on o (closes_output o') c _ (no_bytes_closed o o') refl (
    set_receiving-Keeps o o' (close_receiving (receiving o' c)) c
      (close_receiving-got (receiving o' c)))

resolve-got :
    (o : Output) (success : Bool) (e : Err) (c : Client)
    → got (receiving o (resolve success e c)) ≡ got (receiving o c)
unfolding resolve dispose
resolve-got on_stdout success e c = ground (arith, close_receiving-got c.stdout)
resolve-got on_stderr success e c = ground (arith, close_receiving-got c.stderr)

resolve-fails :
    (c : Client) → succeeded (resolve false shell_terminated c).resolution ≡ succeeded c.resolution
unfolding resolve dispose
resolve-fails c = ground arith

no_bytes_ignored : (o : Output) → bytes_for o ignores ≡ []
no_bytes_ignored on_stdout = refl
no_bytes_ignored on_stderr = refl

no_bytes_unblocked : (o : Output) (n : ℕ) → bytes_for o (unblocks_stdin n) ≡ []
no_bytes_unblocked on_stdout n = refl
no_bytes_unblocked on_stderr n = refl

event-Receives : (o : Output) (e : ClientEvent) (c : Client) → Receives o c (listen (perform e c)) e
event-Receives o ignores c = goes_on o ignores c c (no_bytes_ignored o) refl (ground arith)
event-Receives o (writes_output o' bytes) c = written-Receives o o' bytes c _ refl
event-Receives o (closes_output o') c = closed-Receives o o' c _
event-Receives o (unblocks_stdin n) c =
    goes_on o (unblocks_stdin n) c (record c { stdin = grant n c.stdin }) (no_bytes_unblocked o n)
      refl (stdin-Keeps o (grant n c.stdin) c)
event-Receives o (exits true) c =
    ends refl refl
      (listen-got o false (resolve true shell_terminated c) ∙ resolve-got o true shell_terminated c)
event-Receives o (exits false) c =
    loses refl (resolve-fails c) (
      listen-got o false (resolve false shell_terminated c)
      ∙ resolve-got o false shell_terminated c)

pub client-Receives :
    (o : Output) (m : List ℕ) (c : Client) → Receives o c (Client.receive m c) (client_event m)
unfolding Client.receive
client-Receives o m c = event-Receives o (client_event m) c
