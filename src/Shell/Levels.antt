-- ===== src/Shell/Levels.antt =====
-- What counts against the limit of bytes that are under way, on each side and in the messages.
use taskcluster_worker.Prelude.{ℕ, ◌+◌, ◌≤◌, ◌≡◌, Bool, List, [], ◌∷◌, ◌++◌, arith, length}
use taskcluster_worker.Prelude.Int.{pos_part}
use taskcluster_worker.Io.Budget.{total}
use taskcluster_worker.Shell.Messages.{
  Output, on_stdout, on_stderr, stream_of, stream_stdin, put_u32, get_u32, put_u16, data_message,
  ack_message, size_message, abort_message, exit_message, HandlerEvent, writes_stdin,
  unblocks_output, handler_event, ClientEvent, unblocks_stdin, client_event,
}
use taskcluster_worker.Shell.Streams.{Phase, reading, Sending, Receiving}
use taskcluster_worker.Shell.Wire.{bytes_for}

abbrev pub loads : (List ℕ → ℕ) → List (List ℕ) → ℕ
loads f [] = 0
loads f (m ∷ ms) = f m + loads f ms

pub loads-append :
    (f : List ℕ → ℕ) (ms : List (List ℕ)) (m : List ℕ) → loads f (ms ++ m ∷ []) ≡ loads f ms + f m
loads-append f [] m = omega arith
loads-append f (x ∷ xs) m = omega (arith, loads-append f xs m)

-- Bytes and acknowledged bytes of a message, of an output stream and of stdin.
abbrev pub output_load : Output → List ℕ → ℕ
output_load o m = length (bytes_for o (client_event m))

abbrev pub acked_stdin : ClientEvent → ℕ
acked_stdin (unblocks_stdin n) = n
acked_stdin _ = 0

abbrev pub stdin_ack : List ℕ → ℕ
stdin_ack m = acked_stdin (client_event m)

abbrev pub stdin_bytes : HandlerEvent → List ℕ
stdin_bytes (writes_stdin bs) = bs
stdin_bytes _ = []

abbrev pub stdin_load : List ℕ → ℕ
stdin_load m = length (stdin_bytes (handler_event m))

abbrev pub acked_output : Output → HandlerEvent → ℕ
acked_output on_stdout (unblocks_output on_stdout n) = n
acked_output on_stderr (unblocks_output on_stderr n) = n
acked_output _ _ = 0

abbrev pub output_ack : Output → List ℕ → ℕ
output_ack o m = acked_output o (handler_event m)

abbrev pub held : Phase → ℕ
held (reading n) = n
held _ = 0

-- The sender's part: its budget, what it has reserved for a read, and the bytes under way.
abbrev pub sender_level : (List ℕ → ℕ) → List (List ℕ) → Sending → ℕ
sender_level f ws x = pos_part x.pipe.unblocked + held x.phase + loads f ws

-- The receiver's part: its buffer, what was read and not acknowledged, and acknowledgments under way.
abbrev pub receiver_level : (List ℕ → ℕ) → List (List ℕ) → Receiving → ℕ
receiver_level f ws x = length x.pipe.buffer + total x.told + loads f ws

-- What the messages count for.
pub data_message-ack : (o : Output) (bs : List ℕ) → stdin_ack (data_message (stream_of o) bs) ≡ 0
unfolding client_event data_message
data_message-ack on_stdout [] = ground arith
data_message-ack on_stdout (b ∷ bs) = ground arith
data_message-ack on_stderr [] = ground arith
data_message-ack on_stderr (b ∷ bs) = ground arith

pub ack_message-ack : (n : ℕ) → stdin_ack (ack_message stream_stdin n) ≤ n
unfolding client_event ack_message put_u32 get_u32
ack_message-ack n = ground arith

pub exit_message-ack : (b : Bool) → stdin_ack (exit_message b) ≡ 0
unfolding client_event exit_message
exit_message-ack b = ground arith

pub stdin_message-load : (bs : List ℕ) → stdin_load (data_message stream_stdin bs) ≡ length bs
unfolding handler_event data_message
stdin_message-load [] = ground arith
stdin_message-load (b ∷ bs) = ground arith

pub stdin_message-ack : (o : Output) (bs : List ℕ) → output_ack o (data_message stream_stdin bs) ≡ 0
unfolding handler_event data_message
stdin_message-ack on_stdout [] = ground arith
stdin_message-ack on_stdout (b ∷ bs) = ground arith
stdin_message-ack on_stderr [] = ground arith
stdin_message-ack on_stderr (b ∷ bs) = ground arith

-- An acknowledgment of n bytes of a stream.
pub output_message-load : (o : Output) (n : ℕ) → stdin_load (ack_message (stream_of o) n) ≡ 0
unfolding handler_event ack_message put_u32
output_message-load on_stdout n = ground arith
output_message-load on_stderr n = ground arith

abbrev pub part : Output → Output → ℕ → ℕ
part on_stdout on_stdout n = n
part on_stderr on_stderr n = n
part _ _ n = 0

pub output_message-ack :
    (o o' : Output) (n : ℕ) → output_ack o (ack_message (stream_of o') n) ≤ part o o' n
unfolding handler_event ack_message put_u32 get_u32
output_message-ack on_stdout on_stdout n = ground arith
output_message-ack on_stdout on_stderr n = ground arith
output_message-ack on_stderr on_stdout n = ground arith
output_message-ack on_stderr on_stderr n = ground arith

-- Messages that count for nothing.
pub size_message-loads :
    (o : Output) (columns rows : ℕ)
    → (output_ack o (size_message columns rows) ≡ 0) × (stdin_load (size_message columns rows) ≡ 0)
unfolding handler_event size_message put_u16
size_message-loads on_stdout columns rows = ground arith
size_message-loads on_stderr columns rows = ground arith

pub abort_message-loads :
    (o : Output) → (output_ack o abort_message ≡ 0) × (stdin_load abort_message ≡ 0)
unfolding handler_event abort_message
abort_message-loads on_stdout = ground arith
abort_message-loads on_stderr = ground arith
