-- ===== src/Shell/Messages.antt =====
-- plugins/interactive/shellconsts and the messages of shellhandler.go and shellclient.go. A message is
-- its list of bytes, numbers below 256.
use taskcluster_worker.Prelude.{
  ℕ, ◌+◌, ◌*◌, ◌/◌, ◌%◌, ◌^◌, Bool, ◌==◌, List, [], ◌∷◌, ◌++◌, if◌then◌else◌,
}

abbrev pub message_type_data : ℕ
message_type_data = 0

abbrev pub message_type_ack : ℕ
message_type_ack = 1

abbrev pub message_type_size : ℕ
message_type_size = 3

abbrev pub message_type_abort : ℕ
message_type_abort = 4

abbrev pub message_type_exit : ℕ
message_type_exit = 5

abbrev pub stream_stdin : ℕ
stream_stdin = 0

abbrev pub stream_stdout : ℕ
stream_stdout = 1

abbrev pub stream_stderr : ℕ
stream_stderr = 2

abbrev pub shell_block_size : ℕ
shell_block_size = 16 * 1024

abbrev pub shell_max_pending_bytes : ℕ
shell_max_pending_bytes = 4 * shell_block_size

-- `binary.BigEndian` of Go, on the number that was converted to uint32 or uint16.
unfoldable pub put_u32 : ℕ → List ℕ
put_u32 n = n / 2 ^ 24 % 256 ∷ n / 2 ^ 16 % 256 ∷ n / 2 ^ 8 % 256 ∷ n % 256 ∷ []

unfoldable pub get_u32 : ℕ → ℕ → ℕ → ℕ → ℕ
get_u32 a b c d = a * 2 ^ 24 + b * 2 ^ 16 + c * 2 ^ 8 + d

unfoldable pub put_u16 : ℕ → List ℕ
put_u16 n = n / 2 ^ 8 % 256 ∷ n % 256 ∷ []

unfoldable pub get_u16 : ℕ → ℕ → ℕ
get_u16 a b = a * 2 ^ 8 + b

-- The messages that the two sides send: `m[:2+n]`, `ack`, of `SetSize`, of `Abort` and of
-- `waitForSuccess`.
unfoldable pub data_message : ℕ → List ℕ → List ℕ
data_message stream payload = message_type_data ∷ stream ∷ payload

unfoldable pub ack_message : ℕ → ℕ → List ℕ
ack_message stream n = message_type_ack ∷ stream ∷ put_u32 (n % 2 ^ 32)

unfoldable pub size_message : ℕ → ℕ → List ℕ
size_message columns rows = message_type_size ∷ (put_u16 columns ++ put_u16 rows)

unfoldable pub abort_message : List ℕ
abort_message = message_type_abort ∷ []

unfoldable pub exit_message : Bool → List ℕ
exit_message success = message_type_exit ∷ (if success then 0 else 1) ∷ []

-- The two streams that the handler sends, and their bytes in a message.
pub data Output : Type 0 where
  on_stdout on_stderr : Output

abbrev pub stream_of : Output → ℕ
stream_of on_stdout = stream_stdout
stream_of on_stderr = stream_stderr

-- What `readMessages` of the handler makes of a binary message.
pub data HandlerEvent : Type 0 where
  skips closes_stdin asks_abort : HandlerEvent
  writes_stdin : List ℕ → HandlerEvent
  unblocks_output : Output → ℕ → HandlerEvent
  sets_size : ℕ → ℕ → HandlerEvent

abbrev stdin_event : List ℕ → HandlerEvent
stdin_event [] = closes_stdin
stdin_event (b ∷ bs) = writes_stdin (b ∷ bs)

abbrev handler_data : List ℕ → HandlerEvent
handler_data [] = skips
handler_data (stream ∷ payload) = if stream == stream_stdin then stdin_event payload else skips

abbrev handler_ack : List ℕ → HandlerEvent
handler_ack (stream ∷ a ∷ b ∷ c ∷ d ∷ []) =
    if stream == stream_stdout
    then unblocks_output on_stdout (get_u32 a b c d)
    else if stream == stream_stderr
    then unblocks_output on_stderr (get_u32 a b c d)
    else skips
handler_ack _ = skips

abbrev handler_size : List ℕ → HandlerEvent
handler_size (a ∷ b ∷ c ∷ d ∷ []) = sets_size (get_u16 a b) (get_u16 c d)
handler_size _ = skips

abbrev handler_abort : List ℕ → HandlerEvent
handler_abort [] = asks_abort
handler_abort (b ∷ bs) = skips

unfoldable pub handler_event : List ℕ → HandlerEvent
handler_event [] = skips
handler_event (kind ∷ rest) =
    if kind == message_type_data
    then handler_data rest
    else if kind == message_type_ack
    then handler_ack rest
    else if kind == message_type_size
    then handler_size rest
    else if kind == message_type_abort
    then handler_abort rest
    else skips

-- What `readMessages` of the client makes of a binary message.
pub data ClientEvent : Type 0 where
  ignores : ClientEvent
  writes_output : Output → List ℕ → ClientEvent
  closes_output : Output → ClientEvent
  unblocks_stdin : ℕ → ClientEvent
  exits : Bool → ClientEvent

abbrev output_event : Output → List ℕ → ClientEvent
output_event o [] = closes_output o
output_event o (b ∷ bs) = writes_output o (b ∷ bs)

abbrev client_data : List ℕ → ClientEvent
client_data [] = ignores
client_data (stream ∷ payload) =
    if stream == stream_stdout
    then output_event on_stdout payload
    else if stream == stream_stderr
    then output_event on_stderr payload
    else ignores

abbrev client_ack : List ℕ → ClientEvent
client_ack (stream ∷ a ∷ b ∷ c ∷ d ∷ []) =
    if stream == stream_stdin then unblocks_stdin (get_u32 a b c d) else ignores
client_ack _ = ignores

abbrev client_exit : List ℕ → ClientEvent
client_exit (code ∷ []) = exits (code == 0)
client_exit _ = ignores

unfoldable pub client_event : List ℕ → ClientEvent
client_event [] = ignores
client_event (kind ∷ rest) =
    if kind == message_type_data
    then client_data rest
    else if kind == message_type_ack
    then client_ack rest
    else if kind == message_type_exit
    then client_exit rest
    else ignores
