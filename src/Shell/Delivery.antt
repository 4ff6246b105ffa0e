-- ===== src/Shell/Delivery.antt =====
-- Theorems on the client: what its steps do to the bytes that it has got.
use taskcluster_worker.Prelude.{
  ℕ, ◌≡◌, ◌⊎◌, refl, Bool, true, false, List, [], ◌∷◌, ◌++◌, Option, some, arith, take, drop,
  take-drop,
}
use mathlib.Core.List.{append_assoc}
use taskcluster_worker.Errors.{Err}
use taskcluster_worker.Io.AsyncPipe.{read, close_reader, close_writer}
use taskcluster_worker.Shell.Messages.{Output, on_stdout, on_stderr}
use taskcluster_worker.Shell.Streams.{
  Sending, Receiving, ReadEnd, more, eof, end_read, end_stream, take_bytes, rest_told,
  close_receiving, SendResult, sent, close_sent, send_fails,
}
use taskcluster_worker.Shell.Client.{
  Client, receiving, set_receiving, dispose, resolve, fail, send, send_block, send_end,
  write_messages, stop_streaming, ack_told, send_ack, stop_listening, set_size, abort,
}
use taskcluster_worker.Shell.Session.{
  break_reader, ClientMove, begins, writes, stops_streaming, acks, user_reads, user_closes, fails,
  stops_listening, sets_size, aborts,
}

-- All that the user has read of a stream or may still read.
abbrev pub got : Receiving → List ℕ
got x = x.taken ++ x.pipe.buffer

take_bytes-got : (size : ℕ) (x : Receiving) → got (take_bytes size x) ≡ got x
unfolding take_bytes read
take_bytes-got size x = ground (
  arith,
  take-drop size x.pipe.buffer,
  append_assoc x.taken (take size x.pipe.buffer) (drop size x.pipe.buffer),
)

pub close_receiving-got : (x : Receiving) → got (close_receiving x) ≡ got x
unfolding close_receiving close_writer
close_receiving-got x = ground arith

break_reader-got : (x : Receiving) → got (break_reader x) ≡ got x
unfolding close_reader
break_reader-got x = refl

abbrev pub succeeded : Option (Bool × Err) → Bool
succeeded (some (true, e)) = true
succeeded _ = false

-- A step keeps what the client has got of a stream, and whether its result is a success; it does not
-- begin to listen again.
pub record Keeps (o : Output) (c d : Client) : Type 0 where
  pub gets : got (receiving o d) ≡ got (receiving o c)
  pub result : succeeded d.resolution ≡ succeeded c.resolution
  pub listens : (d.listening ≡ c.listening) ⊎ (d.listening ≡ false)

Keeps-trans : {c d e : Client} (o : Output) → Keeps o c d → Keeps o d e → Keeps o c e
Keeps-trans o v w = ground (arith, v, w)

pub fail-Keeps : (o : Output) (c : Client) → Keeps o c (fail c)
unfolding resolve dispose
fail-Keeps on_stdout c = ground (arith, close_receiving-got c.stdout)
fail-Keeps on_stderr c = ground (arith, close_receiving-got c.stderr)

send-Keeps : (o : Output) (r : SendResult) (m : List ℕ) (c : Client) → Keeps o c (send r m c)
unfolding send
send-Keeps on_stdout sent m c = ground arith
send-Keeps on_stderr sent m c = ground arith
send-Keeps o close_sent m c = fail-Keeps o c
send-Keeps o send_fails m c = fail-Keeps o c

send_block-Keeps :
    (o : Output) (r : SendResult) (bytes : List ℕ) (c : Client) → Keeps o c (send_block r bytes c)
send_block-Keeps o r [] c = ground arith
send_block-Keeps o r (b ∷ bs) c = send-Keeps o r _ c

send_end-Keeps :
    (o : Output) (r : SendResult) (end : ReadEnd) (c : Client) → Keeps o c (send_end r end c)
send_end-Keeps o r more c = ground arith
send_end-Keeps o r eof c = send-Keeps o r _ c
send_end-Keeps o r ReadEnd.fails c = fail-Keeps o c

pub stdin-Keeps : (o : Output) (x : Sending) (c : Client) → Keeps o c (record c { stdin = x })
stdin-Keeps on_stdout x c = ground arith
stdin-Keeps on_stderr x c = ground arith

pub set_receiving-Keeps :
    (o o' : Output) (x : Receiving) (c : Client)
    → got x ≡ got (receiving o' c)
    → Keeps o c (set_receiving o' x c)
set_receiving-Keeps on_stdout on_stdout x c e = ground (arith, e)
set_receiving-Keeps on_stdout on_stderr x c e = ground arith
set_receiving-Keeps on_stderr on_stdout x c e = ground arith
set_receiving-Keeps on_stderr on_stderr x c e = ground (arith, e)

ack-Keeps :
    (o o' : Output) (k : ℕ) (r : SendResult) (told : List ℕ) (c : Client)
    → Keeps o c (ack_told o' k r told c)
ack-Keeps o o' k r [] c = ground arith
ack-Keeps o o' k r (n ∷ ns) c =
    Keeps-trans o (set_receiving-Keeps o o' (rest_told k ns (receiving o' c)) c refl)
      (send-Keeps o r _ _)

stop-Keeps :
    (o : Output) (b : Bool) (c : Client) → b ≡ false → Keeps o c (record c { listening = b })
stop-Keeps on_stdout b c e = ground (arith, e)
stop-Keeps on_stderr b c e = ground (arith, e)

abort-Keeps : (o : Output) (r : SendResult) (c : Client) → Keeps o c (abort r c)
unfolding abort dispose
abort-Keeps on_stdout r c = ground (arith, close_receiving-got c.stdout)
abort-Keeps on_stderr r c = ground (arith, close_receiving-got c.stderr)

set_size-Keeps :
    (o : Output) (r : SendResult) (columns rows : ℕ) (c : Client)
    → Keeps o c (set_size r columns rows c).0
unfolding set_size
set_size-Keeps o sent columns rows c = send-Keeps o sent _ c
set_size-Keeps o close_sent columns rows c = send-Keeps o close_sent _ c
set_size-Keeps o send_fails columns rows c = send-Keeps o send_fails _ c

pub ClientMove-Keeps : {c d : Client} (o : Output) → ClientMove c d → Keeps o c d
unfolding write_messages stop_streaming send_ack stop_listening
ClientMove-Keeps {c} o (begins n m eq) = rw eq (stdin-Keeps o _ c)
ClientMove-Keeps {c} o (writes n bytes end r r' e l eq) = rw eq (
    Keeps-trans o (stdin-Keeps o (end_read n bytes end c.stdin) c)
      (Keeps-trans o (send_block-Keeps o r bytes _) (send_end-Keeps o r' end _)))
ClientMove-Keeps {c} o (stops_streaming e eq) =
    rw eq (Keeps-trans o (stdin-Keeps o (end_stream c.stdin) c) (fail-Keeps o _))
ClientMove-Keeps {c} o (acks o' k r eq) = rw eq (ack-Keeps o o' k r (receiving o' c).told c)
ClientMove-Keeps {c} o (user_reads o' size eq) =
    rw eq (set_receiving-Keeps o o' _ c (take_bytes-got size (receiving o' c)))
ClientMove-Keeps {c} o (user_closes o' eq) =
    rw eq (set_receiving-Keeps o o' _ c (break_reader-got (receiving o' c)))
ClientMove-Keeps {c} o (fails eq) = rw eq (fail-Keeps o c)
ClientMove-Keeps {c} o (stops_listening eq) =
    rw eq (Keeps-trans o (fail-Keeps o c) (stop-Keeps o false _ refl))
ClientMove-Keeps {c} o (sets_size r columns rows eq) = rw eq (set_size-Keeps o r columns rows c)
ClientMove-Keeps {c} o (aborts r eq) = rw eq (abort-Keeps o r c)
