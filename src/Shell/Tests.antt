-- ===== src/Shell/Tests.antt =====
-- Examples of the theorems on the interactive shell.
use taskcluster_worker.Prelude.{
  ◌+◌, ◌≤◌, ◌≡◌, ◌≢◌, ◌⊎◌, refl, arith, true, false, [], ◌∷◌, ◌++◌, some, none, length, drop,
}
use taskcluster_worker.Prelude.Int.{◌+ℤ◌}
use taskcluster_worker.Io.BlockedPipe.{reserve, slice_panic, settle, unblock, close_read}
use taskcluster_worker.Io.AsyncPipe.{write, pipe_full, new_pipe, close_writer}
use taskcluster_worker.Shell.Messages.{
  Output, on_stdout, on_stderr, stream_of, stream_stdin, data_message, ack_message, size_message,
  abort_message, exit_message, handler_event, client_event, writes_stdin, closes_stdin,
  unblocks_output, sets_size, asks_abort, writes_output, closes_output, unblocks_stdin, exits,
}
use taskcluster_worker.Shell.RoundTrip.{messages_read}
use taskcluster_worker.Shell.Streams.{
  begin_read, end_read, more, eof, sent, new_sending, new_receiving, close_receiving, close_sending,
}
use taskcluster_worker.Shell.Handler as Handler
use taskcluster_worker.Shell.Handler.{Handler, sending, set_sending}
use taskcluster_worker.Shell.Client as Client
use taskcluster_worker.Shell.Client.{receiving}
use taskcluster_worker.Shell.Session.{
  Session, begins, transmits, terminates, is_terminated, exits, handler_moves, client_receives,
  Reach, here, next,
}
use taskcluster_worker.Shell.Wire.{bytes_for}
use taskcluster_worker.Shell.Levels.{loads, output_load, stdin_load, stdin_bytes}
use taskcluster_worker.Shell.Settling.{resolved_once}
use taskcluster_worker.Shell.Streams.{ended}
use taskcluster_worker.Shell.Arrival.{success_after_output}
use taskcluster_worker.Shell.Budget.{first, no_overflow}

messages_read_example :
    ((handler_event (data_message stream_stdin (108 ∷ 115 ∷ [])) ≡ writes_stdin (108 ∷ 115 ∷ []))
      × (handler_event (data_message stream_stdin []) ≡ closes_stdin)
      × (handler_event (ack_message (stream_of on_stderr) 70000) ≡ unblocks_output on_stderr 70000)
      × (handler_event (size_message 300 80) ≡ sets_size 300 80)
      × (handler_event abort_message ≡ asks_abort))
    × ((client_event (data_message (stream_of on_stderr) (108 ∷ 115 ∷ []))
          ≡ writes_output on_stderr (108 ∷ 115 ∷ []))
        × (client_event (data_message (stream_of on_stderr) []) ≡ closes_output on_stderr)
        × (client_event (ack_message stream_stdin 70000) ≡ unblocks_stdin 70000)
        × (client_event (exit_message true) ≡ exits true))
messages_read_example =
    messages_read 108 70000 300 80 (115 ∷ []) on_stderr true (omega arith) (omega arith)
      (omega arith)

-- The shell writes two bytes to stdout and terminates with success.
abbrev starts_read : Output → Handler → Handler
starts_read o h = set_sending o (begin_read 16384 (sending o h)) h

abbrev writing : Handler
writing =
    Handler.transmit on_stdout 16384 (104 ∷ 105 ∷ []) more sent sent
      (starts_read on_stdout (Handler.new_handler true true))

abbrev out_ended : Handler
out_ended =
    Handler.transmit on_stdout 16384 [] eof sent sent
      (starts_read on_stdout (Handler.terminate true writing))

abbrev err_ended : Handler
err_ended = Handler.transmit on_stderr 16384 [] eof sent sent (starts_read on_stderr out_ended)

abbrev exited : Handler
exited = Handler.send_exit true (Handler.resolve true err_ended)

abbrev session : Handler → Session
session h = record { handler = h; client = Client.new_client }

abbrev drain : Session → Session
drain s = record {
  handler = record s.handler { ws = drop 1 s.handler.ws };
  client = Client.receive (first s.handler.ws) s.client;
}

abbrev at_exit : Session
at_exit = drain (drain (drain (drain (session exited))))

written_once : Reach true true (session writing)
unfolding new_sending unblock ◌+ℤ◌ reserve Handler.new_handler begin_read
written_once =
    next (next here (handler_moves (begins on_stdout 16384 (refl, refl) refl) refl))
      (handler_moves (transmits on_stdout 16384 _ more sent sent refl (omega arith) refl) refl)

both_ended : Reach true true (session err_ended)
unfolding new_sending unblock ◌+ℤ◌ reserve settle begin_read end_read Handler.new_handler
    Handler.transmit Handler.send Handler.terminate
both_ended =
    next
      (next
        (next
          (next (next written_once (handler_moves (terminates true refl refl) refl))
            (handler_moves (begins on_stdout 16384 (refl, refl) refl) refl))
          (handler_moves (transmits on_stdout 16384 [] eof sent sent refl (omega arith) refl) refl))
        (handler_moves (begins on_stderr 16384 (refl, refl) refl) refl))
      (handler_moves (transmits on_stderr 16384 [] eof sent sent refl (omega arith) refl) refl)

over_known : err_ended.over ≡ some true
unfolding Handler.new_handler Handler.transmit Handler.send Handler.terminate
over_known = refl

out_over : err_ended.stdout.phase ≡ ended
unfolding end_read Handler.transmit Handler.send
out_over = refl

err_over : err_ended.stderr.phase ≡ ended
unfolding end_read Handler.transmit Handler.send
err_over = refl

reached_exit : Reach true true at_exit
unfolding new_sending new_receiving new_pipe unblock ◌+ℤ◌ reserve settle begin_read end_read write
    close_writer close_read close_receiving close_sending data_message exit_message client_event
    Handler.new_handler Handler.transmit Handler.send Handler.terminate Handler.resolve
    Handler.send_exit Client.new_client Client.receive Client.resolve Client.dispose Client.wait
reached_exit =
    next
      (next
        (next
          (next
            (next (next both_ended (handler_moves (is_terminated true refl refl refl refl) refl))
              (handler_moves (exits true refl) refl))
            (client_receives _ _ refl refl refl))
          (client_receives _ _ refl refl refl))
        (client_receives _ _ refl refl refl))
      (client_receives _ _ refl refl refl)

success_answered : Client.wait at_exit.client ≡ some (true, none)
unfolding new_sending new_receiving new_pipe unblock ◌+ℤ◌ reserve settle begin_read end_read write
    close_writer close_read close_receiving close_sending data_message exit_message client_event
    Handler.new_handler Handler.transmit Handler.send Handler.terminate Handler.resolve
    Handler.send_exit Client.new_client Client.receive Client.resolve Client.dispose Client.wait
success_answered = refl

success_after_output_example :
    (at_exit.handler.over ≡ some true)
    × ((sending on_stdout at_exit.handler).taken
        ≡ (receiving on_stdout at_exit.client).taken
          ++ (receiving on_stdout at_exit.client).pipe.buffer)
success_after_output_example =
    success_after_output true true on_stdout reached_exit success_answered

no_overflow_example :
    let s = session writing in
    let c = s.client in
    let h = s.handler in
    ((write (bytes_for on_stdout (client_event (first h.ws))) (receiving on_stdout c).pipe).1
      ≢ pipe_full)
    × ((write (stdin_bytes (handler_event (first c.ws))) h.stdin.pipe).1 ≢ pipe_full)
    × (loads (output_load on_stdout) h.ws + length (receiving on_stdout c).pipe.buffer ≤ 65536)
    × (loads stdin_load c.ws + length h.stdin.pipe.buffer ≤ 65536)
    × ((reserve 10 (sending on_stdout h).pipe).1 ≢ slice_panic)
    × ((reserve 10 c.stdin.pipe).1 ≢ slice_panic)
no_overflow_example = no_overflow true true on_stdout 10 written_once

resolved_once_example :
    let s = session err_ended in
    let t = session (Handler.resolve true err_ended) in
    (s.handler.aborts ≤ 1)
    × ((s.handler.aborts ≡ 0) ⊎ (s.handler.resolution ≡ some false))
    × ((s.handler.resolution ≡ none)
        ⊎ ((t.handler.resolution ≡ s.handler.resolution) × (t.handler.aborts ≡ s.handler.aborts)))
    × ((Client.wait s.client ≡ none) ⊎ (Client.wait t.client ≡ Client.wait s.client))
resolved_once_example =
    resolved_once true true both_ended
      (handler_moves (is_terminated true over_known out_over err_over refl) refl)
