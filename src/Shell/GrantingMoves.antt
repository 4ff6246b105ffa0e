-- ===== src/Shell/GrantingMoves.antt =====
-- Theorems on the steps of the client: what they do to what counts against the limits.
use taskcluster_worker.Prelude.{
  ℕ, ◌+◌, ◌≤◌, ◌≡◌, refl, false, List, [], ◌∷◌, ◌++◌, some, arith, length,
}
use taskcluster_worker.Errors.{shell_aborted}
use taskcluster_worker.Io.Budget.{total}
use taskcluster_worker.Shell.Messages.{
  Output, on_stdout, on_stderr, stream_of, ack_message, size_message, abort_message,
}
use taskcluster_worker.Shell.Streams.{
  Receiving, begin_read, end_stream, merge_tells, rest_told, SendResult, sent, close_sent,
  send_fails,
}
use taskcluster_worker.Shell.Client.{
  Client, receiving, set_receiving, send, stop_streaming, ack_told, send_ack, stop_listening,
  set_size, abort, post,
}
use taskcluster_worker.Shell.Session.{
  MayRead, break_reader, ClientMove, begins, writes, stops_streaming, acks, user_reads, user_closes,
  fails, stops_listening, sets_size, aborts,
}
use taskcluster_worker.Shell.Levels.{
  loads-append, stdin_load, output_ack, part, output_message-load, output_message-ack,
  size_message-loads, abort_message-loads,
}
use taskcluster_worker.Shell.Ends.{
  begin_read-level, begin_read-phase, take_bytes-level, rest_told-level, break_reader-level,
}
use taskcluster_worker.Shell.Granting.{
  Grants, Grants-trans, dispose-Grants, fail-Grants, post-Grants, send-Grants, stdin-Grants,
  write-Grants,
}

begin-Grants :
    (o : Output) (n : ℕ) (c : Client)
    → MayRead c.stdin n
    → Grants o 0 0 c (record c { stdin = begin_read n c.stdin })
begin-Grants o n c m =
    stdin-Grants o 0 _ c (λ z. (begin_read-level c.stdin n m z).0)
      (λ z. ground (arith, m, begin_read-phase n c.stdin, begin_read-level c.stdin n m z))

end_stream-Grants :
    (o : Output) (c : Client) → Grants o 0 0 c (record c { stdin = end_stream c.stdin })
unfolding end_stream
end_stream-Grants on_stdout c = ground arith
end_stream-Grants on_stderr c = ground arith

pub receiving-Grants :
    (o o' : Output) (x : Receiving) (c : Client)
    → length x.pipe.buffer + total x.told
      ≤ length (receiving o' c).pipe.buffer + total (receiving o' c).told
    → x.pipe.capacity ≡ (receiving o' c).pipe.capacity
    → Grants o 0 0 c (set_receiving o' x c)
receiving-Grants on_stdout on_stdout x c l e = ground (arith, l, e)
receiving-Grants on_stdout on_stderr x c l e = ground (arith, l, e)
receiving-Grants on_stderr on_stdout x c l e = ground (arith, l, e)
receiving-Grants on_stderr on_stderr x c l e = ground (arith, l, e)

-- The numbers on the channel become an acknowledgment of q bytes at most.
set_posted-Grants :
    (o o' : Output) (x : Receiving) (m : List ℕ) (q : ℕ) (c : Client)
    → output_ack o m ≤ part o o' q
    → stdin_load m ≡ 0
    → length x.pipe.buffer + total x.told + q
      ≤ length (receiving o' c).pipe.buffer + total (receiving o' c).told
    → x.pipe.capacity ≡ (receiving o' c).pipe.capacity
    → Grants o 0 0 c (record (set_receiving o' x c) { ws = c.ws ++ m ∷ [] })
set_posted-Grants on_stdout on_stdout x m q c a l b e =
    ground (
      arith,
      a,
      l,
      b,
      e,
      loads-append (output_ack on_stdout) c.ws m,
      loads-append stdin_load c.ws m,
    )
set_posted-Grants on_stdout on_stderr x m q c a l b e =
    ground (
      arith,
      a,
      l,
      b,
      e,
      loads-append (output_ack on_stdout) c.ws m,
      loads-append stdin_load c.ws m,
    )
set_posted-Grants on_stderr on_stdout x m q c a l b e =
    ground (
      arith,
      a,
      l,
      b,
      e,
      loads-append (output_ack on_stderr) c.ws m,
      loads-append stdin_load c.ws m,
    )
set_posted-Grants on_stderr on_stderr x m q c a l b e =
    ground (
      arith,
      a,
      l,
      b,
      e,
      loads-append (output_ack on_stderr) c.ws m,
      loads-append stdin_load c.ws m,
    )

set_receiving-ws : (o' : Output) (x : Receiving) (c : Client) → (set_receiving o' x c).ws ≡ c.ws
set_receiving-ws on_stdout x c = refl
set_receiving-ws on_stderr x c = refl

told-Grants :
    (o o' : Output) (k n : ℕ) (ns : List ℕ) (c : Client)
    → (receiving o' c).told ≡ n ∷ ns
    → Grants o 0 0 c (set_receiving o' (rest_told k ns (receiving o' c)) c)
told-Grants o o' k n ns c e =
    receiving-Grants o o' _ c (ground (arith, e, rest_told-level k n ns (receiving o' c))) refl

ack-Grants :
    (o o' : Output) (k n : ℕ) (ns : List ℕ) (r : SendResult) (c : Client)
    → (receiving o' c).told ≡ n ∷ ns
    → Grants o 0 0 c (
        send r
          (ack_message (stream_of o') (merge_tells k n ns))
          (set_receiving o' (rest_told k ns (receiving o' c)) c))
unfolding send
ack-Grants o o' k n ns sent c e =
    let q = merge_tells k n ns in
    let x = rest_told k ns (receiving o' c) in
    rw (set_receiving-ws o' x c) (
      set_posted-Grants o o' x (ack_message (stream_of o') q) q c (output_message-ack o o' q)
        (output_message-load o' q) (ground (arith, e, rest_told-level k n ns (receiving o' c)))
        refl)
ack-Grants o o' k n ns close_sent c e =
    Grants-trans o 0 0 0 (told-Grants o o' k n ns c e) (fail-Grants o 0 _)
ack-Grants o o' k n ns send_fails c e =
    Grants-trans o 0 0 0 (told-Grants o o' k n ns c e) (fail-Grants o 0 _)

ack_told-Grants :
    (o o' : Output) (k : ℕ) (r : SendResult) (told : List ℕ) (c : Client)
    → (receiving o' c).told ≡ told
    → Grants o 0 0 c (ack_told o' k r told c)
ack_told-Grants o o' k r [] c e = ground arith
ack_told-Grants o o' k r (n ∷ ns) c e = ack-Grants o o' k n ns r c e

size-Grants :
    (o : Output) (r : SendResult) (columns rows : ℕ) (c : Client)
    → Grants o 0 0 c (set_size r columns rows c).0
unfolding set_size
size-Grants o r columns rows c =
    let z = size_message-loads o columns rows in
    ground (arith, send-Grants o r (size_message columns rows) 0 c z.0 (omega (arith, z.1)))

abbrev aborted_by : SendResult → Client → Client
aborted_by r c = record (post r abort_message c) { resolution = some (false, shell_aborted) }

abort_posted : (o : Output) (r : SendResult) (c : Client) → Grants o 0 0 c (post r abort_message c)
abort_posted o sent c =
    let z = abort_message-loads o in post-Grants o abort_message 0 c z.0 (omega (arith, z.1))
abort_posted o close_sent c = ground arith
abort_posted o send_fails c = ground arith

abort-Grants : (o : Output) (r : SendResult) (c : Client) → Grants o 0 0 c (abort r c)
unfolding abort
abort-Grants on_stdout r c =
    ground (arith, abort_posted on_stdout r c, dispose-Grants on_stdout (aborted_by r c))
abort-Grants on_stderr r c =
    ground (arith, abort_posted on_stderr r c, dispose-Grants on_stderr (aborted_by r c))

pub ClientMove-Grants : {c d : Client} (o : Output) → ClientMove c d → Grants o 0 0 c d
unfolding stop_streaming send_ack stop_listening
ClientMove-Grants {c} o (begins n m eq) = rw eq (begin-Grants o n c m)
ClientMove-Grants {c} o (writes n bytes end r r' e l eq) =
    rw eq (write-Grants o n bytes end r r' c e l)
ClientMove-Grants {c} o (stops_streaming e eq) =
    rw eq (Grants-trans o 0 0 0 (end_stream-Grants o c) (fail-Grants o 0 _))
ClientMove-Grants {c} o (acks o' k r eq) =
    rw eq (ack_told-Grants o o' k r (receiving o' c).told c refl)
ClientMove-Grants {c} o (user_reads o' size eq) =
    let l = take_bytes-level size (receiving o' c) in rw eq (receiving-Grants o o' _ c l.0 l.1)
ClientMove-Grants {c} o (user_closes o' eq) =
    let l = break_reader-level (receiving o' c) in
    rw eq (receiving-Grants o o' (break_reader (receiving o' c)) c (ground (arith, l)) l.2)
ClientMove-Grants {c} o (fails eq) = rw eq (fail-Grants o 0 c)
ClientMove-Grants {c} on_stdout (stops_listening eq) = ground (arith, eq, fail-Grants on_stdout 0 c)
ClientMove-Grants {c} on_stderr (stops_listening eq) = ground (arith, eq, fail-Grants on_stderr 0 c)
ClientMove-Grants {c} o (sets_size r columns rows eq) = rw eq (size-Grants o r columns rows c)
ClientMove-Grants {c} o (aborts r eq) = rw eq (abort-Grants o r c)
