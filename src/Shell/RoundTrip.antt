-- ===== src/Shell/RoundTrip.antt =====
-- Theorems on the messages of the interactive shell: what a side sends, the other side reads.
use taskcluster_worker.Prelude.{ℕ, ◌^◌, ◌<◌, ◌≡◌, Bool, true, false, List, [], ◌∷◌, arith}
use taskcluster_worker.Shell.Messages.{
  stream_stdin, stream_of, Output, on_stdout, on_stderr, put_u32, get_u32, put_u16, get_u16,
  data_message, ack_message, size_message, abort_message, exit_message, closes_stdin, asks_abort,
  writes_stdin, unblocks_output, sets_size, handler_event, writes_output, closes_output,
  unblocks_stdin, exits, client_event,
}

-- The handler reads what the client sends: each payload of stdin and its end, each acknowledgment
-- of an output stream of less than 2^32 bytes, each size of less than 2^16 columns and rows, and
-- the request to abort.
handler_reads_client :
    (b n columns rows : ℕ) (bs : List ℕ) (o : Output)
    → n < 2 ^ 32
    → columns < 2 ^ 16
    → rows < 2 ^ 16
    → (handler_event (data_message stream_stdin (b ∷ bs)) ≡ writes_stdin (b ∷ bs))
      × (handler_event (data_message stream_stdin []) ≡ closes_stdin)
      × (handler_event (ack_message (stream_of o) n) ≡ unblocks_output o n)
      × (handler_event (size_message columns rows) ≡ sets_size columns rows)
      × (handler_event abort_message ≡ asks_abort)
unfolding handler_event data_message ack_message size_message abort_message put_u32 get_u32 put_u16
    get_u16
handler_reads_client b n columns rows bs on_stdout hn hc hr = ground arith
handler_reads_client b n columns rows bs on_stderr hn hc hr = ground arith

-- The client reads what the handler sends: each payload of an output stream and its end, each
-- acknowledgment of stdin of less than 2^32 bytes, and the exit with its success.
client_reads_handler :
    (b n : ℕ) (bs : List ℕ) (o : Output) (success : Bool)
    → n < 2 ^ 32
    → (client_event (data_message (stream_of o) (b ∷ bs)) ≡ writes_output o (b ∷ bs))
      × (client_event (data_message (stream_of o) []) ≡ closes_output o)
      × (client_event (ack_message stream_stdin n) ≡ unblocks_stdin n)
      × (client_event (exit_message success) ≡ exits success)
unfolding client_event data_message ack_message exit_message put_u32 get_u32
client_reads_handler b n bs on_stdout true hn = ground arith
client_reads_handler b n bs on_stderr true hn = ground arith
client_reads_handler b n bs on_stdout false hn = ground arith
client_reads_handler b n bs on_stderr false hn = ground arith

-- Each side reads what the other sends. The handler reads each payload of stdin and its end, each
-- acknowledgment of an output stream of less than 2^32 bytes, each size of less than 2^16 columns and
-- rows, and the request to abort; the client reads each payload of an output stream and its end, each
-- acknowledgment of stdin of less than 2^32 bytes, and the exit with its success.
pub messages_read :
    (b n columns rows : ℕ) (bs : List ℕ) (o : Output) (success : Bool)
    → n < 2 ^ 32
    → columns < 2 ^ 16
    → rows < 2 ^ 16
    → ((handler_event (data_message stream_stdin (b ∷ bs)) ≡ writes_stdin (b ∷ bs))
        × (handler_event (data_message stream_stdin []) ≡ closes_stdin)
        × (handler_event (ack_message (stream_of o) n) ≡ unblocks_output o n)
        × (handler_event (size_message columns rows) ≡ sets_size columns rows)
        × (handler_event abort_message ≡ asks_abort))
      × ((client_event (data_message (stream_of o) (b ∷ bs)) ≡ writes_output o (b ∷ bs))
          × (client_event (data_message (stream_of o) []) ≡ closes_output o)
          × (client_event (ack_message stream_stdin n) ≡ unblocks_stdin n)
          × (client_event (exit_message success) ≡ exits success))
messages_read b n columns rows bs o success hn hc hr =
    (handler_reads_client b n columns rows bs o hn hc hr, client_reads_handler b n bs o success hn)
