-- ===== src/Shell/Client.antt =====
-- plugins/interactive/shellclient/shellclient.go. Functions passed to `resolve.Do` are single
-- transitions; a `send` inside one cannot resolve again. `ws` is the messages that the websocket has
-- taken and not delivered yet; deadlines and pings are left out, but for the failures that they may
-- end in.
use taskcluster_worker.Prelude.{
  ℕ, Bool, true, false, List, [], ◌∷◌, ◌++◌, Option, none, some, if◌then◌else◌,
}
use taskcluster_worker.Errors.{Err, non_fatal_internal, shell_terminated, shell_aborted}
use taskcluster_worker.Io.AsyncPipe.{Written, write, accepts, close_writer}
use taskcluster_worker.Shell.Messages.{
  Output, on_stdout, on_stderr, stream_of, stream_stdin, data_message, ack_message, size_message,
  abort_message, ClientEvent, ignores, writes_output, closes_output, unblocks_stdin, exits,
  client_event,
}
use taskcluster_worker.Shell.Streams.{
  Sending, new_sending, ReadEnd, more, eof, fails, end_read, end_stream, grant, close_sending,
  Receiving, new_receiving, merge_tells, rest_told, close_receiving, SendResult, sent,
}

-- `resolution` is `success` and `err` once it is resolved; `listening` is false once `readMessages` has
-- returned.
pub record Client : Type 0 where
  pub stdin : Sending
  pub stdout : Receiving
  pub stderr : Receiving
  pub resolution : Option (Bool × Err)
  pub done : Bool
  pub listening : Bool
  pub ws : List (List ℕ)

unfoldable pub new_client : Client
new_client = record {
  stdin = new_sending;
  stdout = new_receiving;
  stderr = new_receiving;
  resolution = none;
  done = false;
  listening = true;
  ws = [];
}

abbrev pub receiving : Output → Client → Receiving
receiving on_stdout c = c.stdout
receiving on_stderr c = c.stderr

abbrev pub set_receiving : Output → Receiving → Client → Client
set_receiving on_stdout x c = record c { stdout = x }
set_receiving on_stderr x c = record c { stderr = x }

unfoldable pub dispose : Client → Client
dispose c = record c {
  done = true;
  stdin = close_sending c.stdin;
  stdout = close_receiving c.stdout;
  stderr = close_receiving c.stderr;
}

-- `resolve.Do` with these results, where `dispose` is called last.
unfoldable pub resolve : Bool → Err → Client → Client
resolve success err c = elim c.resolution [
  | none ↦ dispose (record c { resolution = some (success, err) })
  | some r ↦ c
]

abbrev pub fail : Client → Client
fail c = resolve false non_fatal_internal c

unfoldable pub send : SendResult → List ℕ → Client → Client
send sent message c = record c { ws = c.ws ++ message ∷ [] }
send _ message c = fail c

-- `writeMessages` after a read that got these bytes; and where the pipe was closed.
abbrev pub send_block : SendResult → List ℕ → Client → Client
send_block r [] c = c
send_block r (b ∷ bs) c = send r (data_message stream_stdin (b ∷ bs)) c

abbrev pub send_end : SendResult → ReadEnd → Client → Client
send_end r more c = c
send_end r eof c = send r (data_message stream_stdin []) c
send_end r fails c = fail c

unfoldable pub write_messages : ℕ → List ℕ → ReadEnd → SendResult → SendResult → Client → Client
write_messages n bytes end r r' c =
    send_end r' end (send_block r bytes (record c { stdin = end_read n bytes end c.stdin }))

unfoldable pub stop_streaming : Client → Client
stop_streaming c = fail (record c { stdin = end_stream c.stdin })

-- A round of `sendAck`.
abbrev pub ack_told : Output → ℕ → SendResult → List ℕ → Client → Client
ack_told o k r [] c = c
ack_told o k r (n ∷ ns) c =
    send r (ack_message (stream_of o) (merge_tells k n ns))
      (set_receiving o (rest_told k ns (receiving o c)) c)

unfoldable pub send_ack : Output → ℕ → SendResult → Client → Client
send_ack o k r c = ack_told o k r (receiving o c).told c

-- What `readMessages` does of what it writes to an output stream, and of the end of one.
abbrev pub written : Written → Output → List ℕ → Client → Client × Bool
written (accepts n) o bytes c = (
  set_receiving o (record (receiving o c) { pipe = (write bytes (receiving o c).pipe).0 }) c,
  true,
)
written _ o bytes c = (fail c, false)

abbrev pub output_closed : Bool → Output → Client → Client × Bool
output_closed true o c = (fail c, false)
output_closed false o c = (set_receiving o (close_receiving (receiving o c)) c, true)

-- `readMessages` with a binary message, and whether it goes on; a message of another type is skipped.
abbrev pub perform : ClientEvent → Client → Client × Bool
perform ignores c = (c, true)
perform (writes_output o bytes) c = written (write bytes (receiving o c).pipe).1 o bytes c
perform (closes_output o) c = output_closed (close_writer (receiving o c).pipe).1 o c
perform (unblocks_stdin n) c = (record c { stdin = grant n c.stdin }, true)
perform (exits success) c = (resolve success shell_terminated c, false)

unfoldable pub receive : List ℕ → Client → Client
receive message c = let r = perform (client_event message) c in record r.0 { listening = r.1 }

-- `readMessages` where the websocket fails or is closed.
unfoldable pub stop_listening : Client → Client
stop_listening c = record (fail c) { listening = false }

-- `s.err` once the client is resolved.
abbrev resolved_error : Option (Bool × Err) → Err
resolved_error none = non_fatal_internal
resolved_error (some r) = r.1

-- `SetSize`, with its error.
unfoldable pub set_size : SendResult → ℕ → ℕ → Client → Client × Option Err
set_size r columns rows c =
    let c' = send r (size_message columns rows) c in
    elim r [
      | sent ↦ (c', none)
      | _ ↦ (c', some (if c'.done then resolved_error c'.resolution else non_fatal_internal))
    ]

-- `Abort` up to its wait, and its answer once the client is resolved; `Wait`.
abbrev pub post : SendResult → List ℕ → Client → Client
post sent message c = record c { ws = c.ws ++ message ∷ [] }
post _ message c = c

unfoldable pub abort : SendResult → Client → Client
abort r c = elim c.resolution [
  | none ↦ dispose (record (post r abort_message c) { resolution = some (false, shell_aborted) })
  | some _ ↦ c
]

abbrev pub abort_answer : Err → Option Err
abort_answer shell_aborted = none
abort_answer e = some e

abbrev pub wait_answer : Bool × Err → Bool × Option Err
wait_answer (success, shell_terminated) = (success, none)
wait_answer (success, e) = (success, some e)

unfoldable pub wait : Client → Option (Bool × Option Err)
wait c = elim c.resolution [ none ↦ none | some r ↦ some (wait_answer r) ]
