-- ===== src/Shell/Handler.antt =====
-- plugins/interactive/shellhandler.go. Functions passed to `resolve.Do` are single transitions. `ws` is
-- the messages that the websocket has taken and not delivered yet; deadlines and pings are left out, but
-- for the failures that they may end in.
use taskcluster_worker.Prelude.{
  ℕ, ◌+◌, Bool, true, false, List, [], ◌∷◌, ◌++◌, Option, none, some, if◌then◌else◌,
}
use taskcluster_worker.Io.AsyncPipe.{Written, write, accepts, close_writer}
use taskcluster_worker.Shell.Messages.{
  Output, on_stdout, on_stderr, stream_of, stream_stdin, data_message, ack_message, exit_message,
  HandlerEvent, skips, closes_stdin, asks_abort, writes_stdin, unblocks_output, sets_size,
  handler_event,
}
use taskcluster_worker.Shell.Streams.{
  Sending, new_sending, ReadEnd, more, eof, fails, end_read, end_stream, grant, close_sending,
  Receiving, new_receiving, merge_tells, rest_told, close_receiving, SendResult, sent, close_sent,
  send_fails,
}

-- `resolution` is `success` once it is resolved; `aborts` counts the calls of abortFunc, `sizes` is the
-- calls of setSizeFunc; `over` is the argument of `Terminated` once that is called; `listening` is
-- false once `readMessages` has returned.
pub record Handler : Type 0 where
  pub stdin : Receiving
  pub stdout : Sending
  pub stderr : Sending
  pub resolution : Option Bool
  pub aborts : ℕ
  pub sizes : List (ℕ × ℕ)
  pub abort_func : Bool
  pub set_size_func : Bool
  pub over : Option Bool
  pub listening : Bool
  pub ws : List (List ℕ)

unfoldable pub new_handler : Bool → Bool → Handler
new_handler abort_func set_size_func = record {
  stdin = new_receiving;
  stdout = new_sending;
  stderr = new_sending;
  resolution = none;
  aborts = 0;
  sizes = [];
  abort_func = abort_func;
  set_size_func = set_size_func;
  over = none;
  listening = true;
  ws = [];
}

abbrev pub sending : Output → Handler → Sending
sending on_stdout h = h.stdout
sending on_stderr h = h.stderr

abbrev pub set_sending : Output → Sending → Handler → Handler
set_sending on_stdout x h = record h { stdout = x }
set_sending on_stderr x h = record h { stderr = x }

unfoldable pub abort : Handler → Handler
abort h = elim h.resolution [
  | none ↦ record h {
    resolution = some false;
    aborts = if h.abort_func then h.aborts + 1 else h.aborts;
  }
  | some success ↦ h
]

-- `send(message, ignoreIfCloseSent)`.
unfoldable pub send : SendResult → Bool → List ℕ → Handler → Handler
send sent ignore message h = record h { ws = h.ws ++ message ∷ [] }
send close_sent ignore message h = if ignore then h else abort h
send send_fails ignore message h = abort h

-- `Terminated`: it closes the pipes, so that reads reach EOF; and resolves when both streams are done.
unfoldable pub terminate : Bool → Handler → Handler
terminate success h = record h { over = some success }

unfoldable pub resolve : Bool → Handler → Handler
resolve success h = elim h.resolution [ none ↦ record h { resolution = some success } | some _ ↦ h ]

-- `transmitStream` after a read that got these bytes; and where the pipe was closed.
abbrev pub send_block : SendResult → Output → List ℕ → Handler → Handler
send_block r o [] h = h
send_block r o (b ∷ bs) h = send r false (data_message (stream_of o) (b ∷ bs)) h

abbrev pub send_end : SendResult → Output → ReadEnd → Handler → Handler
send_end r o more h = h
send_end r o eof h = send r false (data_message (stream_of o) []) h
send_end r o fails h = abort h

unfoldable pub transmit :
    Output → ℕ → List ℕ → ReadEnd → SendResult → SendResult → Handler → Handler
transmit o n bytes end r r' h =
    send_end r' o end (send_block r o bytes (set_sending o (end_read n bytes end (sending o h)) h))

unfoldable pub stop_streaming : Output → Handler → Handler
stop_streaming o h = abort (set_sending o (end_stream (sending o h)) h)

-- A round of `sendAcks`.
abbrev pub ack_told : ℕ → SendResult → List ℕ → Handler → Handler
ack_told k r [] h = h
ack_told k r (n ∷ ns) h =
    send r true (ack_message stream_stdin (merge_tells k n ns))
      (record h { stdin = rest_told k ns h.stdin })

unfoldable pub send_acks : ℕ → SendResult → Handler → Handler
send_acks k r h = ack_told k r h.stdin.told h

-- `waitForSuccess` when the shell is resolved, where the write of the message succeeds or not.
unfoldable pub send_exit : Bool → Handler → Handler
send_exit writes h = elim h.resolution [
  | none ↦ h
  | some success ↦ record h {
    ws = if writes then h.ws ++ exit_message success ∷ [] else h.ws;
    stdin = close_receiving h.stdin;
    stdout = close_sending h.stdout;
    stderr = close_sending h.stderr;
  }
]

-- What `readMessages` does of what it writes to stdin, and of the end of stdin.
abbrev pub written : Written → List ℕ → Handler → Handler × Bool
written (accepts n) bytes h =
    (record h { stdin = record h.stdin { pipe = (write bytes h.stdin.pipe).0 } }, true)
written _ bytes h = (abort h, false)

abbrev pub stdin_closed : Bool → Handler → Handler × Bool
stdin_closed true h = (abort h, false)
stdin_closed false h = (record h { stdin = close_receiving h.stdin }, true)

-- `readMessages` with a binary message, and whether it goes on; a message of another type is skipped.
abbrev pub perform : HandlerEvent → Handler → Handler × Bool
perform skips h = (h, true)
perform (writes_stdin bytes) h = written (write bytes h.stdin.pipe).1 bytes h
perform closes_stdin h = stdin_closed (close_writer h.stdin.pipe).1 h
perform (unblocks_output o n) h = (set_sending o (grant n (sending o h)) h, true)
perform (sets_size columns rows) h =
    if h.set_size_func
    then (record h { sizes = h.sizes ++ (columns, rows) ∷ [] }, true)
    else (h, true)
perform asks_abort h = (abort h, false)

unfoldable pub receive : List ℕ → Handler → Handler
receive message h = let r = perform (handler_event message) h in record r.0 { listening = r.1 }

-- `readMessages` where the websocket fails or is closed.
unfoldable pub stop_listening : Handler → Handler
stop_listening h = record (abort h) { listening = false }
