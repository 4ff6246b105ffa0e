-- ===== src/Shell/Session.antt =====
-- A shell with the handler at one end of the websocket and the client at the other, each message
-- delivered in the order of its side: any steps of their goroutines, of the shell, of the user and of
-- failures, in any order.
use taskcluster_worker.Prelude.{ℕ, ◌≤◌, ◌≡◌, Bool, true, List, ◌∷◌, none, some, length}
use taskcluster_worker.Io.BlockedPipe.{reserves, reserve}
use taskcluster_worker.Io.AsyncPipe.{close_reader}
use taskcluster_worker.Shell.Messages.{shell_block_size, Output}
use taskcluster_worker.Shell.Streams.{
  Sending, idle, reading, ended, ReadEnd, begin_read, Receiving, take_bytes, SendResult,
}
use taskcluster_worker.Shell.Handler as Handler
use taskcluster_worker.Shell.Handler.{Handler, sending, set_sending}
use taskcluster_worker.Shell.Client as Client
use taskcluster_worker.Shell.Client.{Client, receiving, set_receiving}

pub record Session : Type 0 where
  pub handler : Handler
  pub client : Client

abbrev pub new_session : Bool → Bool → Session
new_session abort_func set_size_func = record {
  handler = Handler.new_handler abort_func set_size_func;
  client = Client.new_client;
}

-- A loop is about to read, and so many bytes may be reserved for the read.
abbrev pub MayRead : Sending → ℕ → Type 0
MayRead x n = (x.phase ≡ idle) × ((reserve shell_block_size x.pipe).1 ≡ reserves n)

abbrev pub break_reader : Receiving → Receiving
break_reader x = record x { pipe = close_reader x.pipe }

-- What the handler's side does, but for `readMessages`. The shell reads stdin and closes it; `Terminated`
-- is called once.
pub data HandlerMove (h : Handler) : Handler → Type 0 where
  begins :
      {t : Handler} (o : Output) (n : ℕ)
      → MayRead (sending o h) n
      → t ≡ set_sending o (begin_read n (sending o h)) h
      → HandlerMove h t
  transmits :
      {t : Handler} (o : Output) (n : ℕ) (bytes : List ℕ) (end : ReadEnd) (r r' : SendResult)
      → (sending o h).phase ≡ reading n
      → length bytes ≤ n
      → t ≡ Handler.transmit o n bytes end r r' h
      → HandlerMove h t
  stops_streaming :
      {t : Handler} (o : Output)
      → (sending o h).phase ≡ idle
      → t ≡ Handler.stop_streaming o h
      → HandlerMove h t
  acks : {t : Handler} (k : ℕ) (r : SendResult) → t ≡ Handler.send_acks k r h → HandlerMove h t
  shell_reads :
      {t : Handler} (size : ℕ) → t ≡ record h { stdin = take_bytes size h.stdin } → HandlerMove h t
  shell_closes : {t : Handler} → t ≡ record h { stdin = break_reader h.stdin } → HandlerMove h t
  fails : {t : Handler} → t ≡ Handler.abort h → HandlerMove h t
  stops_listening : {t : Handler} → t ≡ Handler.stop_listening h → HandlerMove h t
  terminates :
      {t : Handler} (success : Bool)
      → h.over ≡ none
      → t ≡ Handler.terminate success h
      → HandlerMove h t
  is_terminated :
      {t : Handler} (success : Bool)
      → h.over ≡ some success
      → h.stdout.phase ≡ ended
      → h.stderr.phase ≡ ended
      → t ≡ Handler.resolve success h
      → HandlerMove h t
  exits : {t : Handler} (writes : Bool) → t ≡ Handler.send_exit writes h → HandlerMove h t

-- What the client's side does, but for `readMessages`. The user reads the output streams and closes
-- them.
pub data ClientMove (c : Client) : Client → Type 0 where
  begins :
      {t : Client} (n : ℕ)
      → MayRead c.stdin n
      → t ≡ record c { stdin = begin_read n c.stdin }
      → ClientMove c t
  writes :
      {t : Client} (n : ℕ) (bytes : List ℕ) (end : ReadEnd) (r r' : SendResult)
      → c.stdin.phase ≡ reading n
      → length bytes ≤ n
      → t ≡ Client.write_messages n bytes end r r' c
      → ClientMove c t
  stops_streaming :
      {t : Client} → c.stdin.phase ≡ idle → t ≡ Client.stop_streaming c → ClientMove c t
  acks :
      {t : Client} (o : Output) (k : ℕ) (r : SendResult)
      → t ≡ Client.send_ack o k r c
      → ClientMove c t
  user_reads :
      {t : Client} (o : Output) (size : ℕ)
      → t ≡ set_receiving o (take_bytes size (receiving o c)) c
      → ClientMove c t
  user_closes :
      {t : Client} (o : Output)
      → t ≡ set_receiving o (break_reader (receiving o c)) c
      → ClientMove c t
  fails : {t : Client} → t ≡ Client.fail c → ClientMove c t
  stops_listening : {t : Client} → t ≡ Client.stop_listening c → ClientMove c t
  sets_size :
      {t : Client} (r : SendResult) (columns rows : ℕ)
      → t ≡ (Client.set_size r columns rows c).0
      → ClientMove c t
  aborts : {t : Client} (r : SendResult) → t ≡ Client.abort r c → ClientMove c t

pub data Step (s : Session) : Session → Type 0 where
  handler_moves :
      {t : Session} {h : Handler}
      → HandlerMove s.handler h
      → t ≡ record s { handler = h }
      → Step s t
  client_moves :
      {t : Session} {c : Client} → ClientMove s.client c → t ≡ record s { client = c } → Step s t
  client_receives :
      {t : Session} (m : List ℕ) (ms : List (List ℕ))
      → s.client.listening ≡ true
      → s.handler.ws ≡ m ∷ ms
      → t ≡ record { handler = record s.handler { ws = ms }; client = Client.receive m s.client }
      → Step s t
  handler_receives :
      {t : Session} (m : List ℕ) (ms : List (List ℕ))
      → s.handler.listening ≡ true
      → s.client.ws ≡ m ∷ ms
      → t ≡ record { handler = Handler.receive m s.handler; client = record s.client { ws = ms } }
      → Step s t

-- The sessions that NewShellHandler and New of the client, with the two functions of `Communicate` or
-- nil, may come to.
pub data Reach (abort_func set_size_func : Bool) : Session → Type 0 where
  here : Reach abort_func set_size_func (new_session abort_func set_size_func)
  next :
      {s t : Session}
      → Reach abort_func set_size_func s
      → Step s t
      → Reach abort_func set_size_func t
