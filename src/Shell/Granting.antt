-- ===== src/Shell/Granting.antt =====
-- Theorems on the client: what its steps do to what counts against the limits.
use taskcluster_worker.Prelude.{
  ℕ, ◌+◌, ◌≤◌, ◌≡◌, Bool, false, List, [], ◌∷◌, ◌++◌, some, arith, length,
}
use taskcluster_worker.Prelude.Int.{pos_part, neg_part}
use taskcluster_worker.Errors.{Err, non_fatal_internal}
use taskcluster_worker.Shell.Messages.{Output, on_stdout, on_stderr, stream_stdin, data_message}
use taskcluster_worker.Shell.Streams.{
  Sending, reading, ReadEnd, more, eof, end_read, SendResult, sent, close_sent, send_fails,
}
use taskcluster_worker.Shell.Client.{
  Client, receiving, dispose, resolve, fail, send, send_block, send_end, write_messages,
}
use taskcluster_worker.Shell.Levels.{
  loads-append, stdin_load, output_ack, held, sender_level, receiver_level, stdin_message-load,
  stdin_message-ack,
}
use taskcluster_worker.Shell.Ends.{end_read-level, close_receiving-level, close_sending-level}

-- The limits of stdin and of an output stream, where `before` bytes are read and not sent before the
-- step and `after` after it.
pub record Grants (o : Output) (before after : ℕ) (c d : Client) : Type 0 where
  pub limited : neg_part c.stdin.pipe.unblocked ≡ 0 → neg_part d.stdin.pipe.unblocked ≡ 0
  pub sends :
      neg_part c.stdin.pipe.unblocked ≡ 0
      → sender_level stdin_load d.ws d.stdin + after ≤ sender_level stdin_load c.ws c.stdin + before
  pub acks :
      receiver_level (output_ack o) d.ws (receiving o d)
      ≤ receiver_level (output_ack o) c.ws (receiving o c)
  pub room : (receiving o d).pipe.capacity ≡ (receiving o c).pipe.capacity

pub Grants-trans :
    (o : Output) (a b e : ℕ) {c d f : Client}
    → Grants o a b c d
    → Grants o b e d f
    → Grants o a e c f
Grants-trans o a b e v w = record {
  limited = λ z. w.limited (v.limited z);
  sends = λ z. omega (arith, v.sends z, w.sends (v.limited z));
  acks = omega (arith, v.acks, w.acks);
  room = ground (arith, v.room, w.room);
}

-- `dispose` keeps what counts.
pub dispose-Grants : (o : Output) (c : Client) → Grants o 0 0 c (dispose c)
unfolding dispose
dispose-Grants on_stdout c =
    ground (arith, close_receiving-level c.stdout, close_sending-level c.stdin)
dispose-Grants on_stderr c =
    ground (arith, close_receiving-level c.stderr, close_sending-level c.stdin)

pub resolve-Grants :
    (o : Output) (success : Bool) (e : Err) (c : Client) → Grants o 0 0 c (resolve success e c)
unfolding resolve
resolve-Grants on_stdout success e c =
    ground (arith, dispose-Grants on_stdout (record c { resolution = some (success, e) }))
resolve-Grants on_stderr success e c =
    ground (arith, dispose-Grants on_stderr (record c { resolution = some (success, e) }))

pub fail-Grants : (o : Output) (p : ℕ) (c : Client) → Grants o p 0 c (fail c)
fail-Grants o p c = ground (arith, resolve-Grants o false non_fatal_internal c)

pub post-Grants :
    (o : Output) (m : List ℕ) (p : ℕ) (c : Client)
    → output_ack o m ≡ 0
    → stdin_load m ≤ p
    → Grants o p 0 c (record c { ws = c.ws ++ m ∷ [] })
post-Grants on_stdout m p c a l =
    ground (arith, a, l, loads-append (output_ack on_stdout) c.ws m, loads-append stdin_load c.ws m)
post-Grants on_stderr m p c a l =
    ground (arith, a, l, loads-append (output_ack on_stderr) c.ws m, loads-append stdin_load c.ws m)

pub send-Grants :
    (o : Output) (r : SendResult) (m : List ℕ) (p : ℕ) (c : Client)
    → output_ack o m ≡ 0
    → stdin_load m ≤ p
    → Grants o p 0 c (send r m c)
unfolding send
send-Grants o sent m p c a l = post-Grants o m p c a l
send-Grants o close_sent m p c a l = fail-Grants o p c
send-Grants o send_fails m p c a l = fail-Grants o p c

send_block-Grants :
    (o : Output) (r : SendResult) (bytes : List ℕ) (c : Client)
    → Grants o (length bytes) 0 c (send_block r bytes c)
send_block-Grants o r [] c = ground arith
send_block-Grants o r (b ∷ bs) c =
    send-Grants o r (data_message stream_stdin (b ∷ bs)) _ c (stdin_message-ack o (b ∷ bs))
      (omega (arith, stdin_message-load (b ∷ bs)))

send_end-Grants :
    (o : Output) (r : SendResult) (end : ReadEnd) (c : Client) → Grants o 0 0 c (send_end r end c)
send_end-Grants o r more c = ground arith
send_end-Grants o r eof c =
    send-Grants o r (data_message stream_stdin []) 0 c (stdin_message-ack o [])
      (omega (arith, stdin_message-load []))
send_end-Grants o r ReadEnd.fails c = fail-Grants o 0 c

pub stdin-Grants :
    (o : Output) (q : ℕ) (x : Sending) (c : Client)
    → (neg_part c.stdin.pipe.unblocked ≡ 0 → neg_part x.pipe.unblocked ≡ 0)
    → (neg_part c.stdin.pipe.unblocked ≡ 0
        → pos_part x.pipe.unblocked + held x.phase + q
          ≤ pos_part c.stdin.pipe.unblocked + held c.stdin.phase)
    → Grants o 0 q c (record c { stdin = x })
stdin-Grants on_stdout q x c l e = ground (arith, l, e)
stdin-Grants on_stderr q x c l e = ground (arith, l, e)

end_read-Grants :
    (o : Output) (n : ℕ) (bytes : List ℕ) (end : ReadEnd) (c : Client)
    → c.stdin.phase ≡ reading n
    → length bytes ≤ n
    → Grants o 0 (length bytes) c (record c { stdin = end_read n bytes end c.stdin })
end_read-Grants o n bytes end c e l =
    stdin-Grants o _ _ c (λ z. (end_read-level c.stdin n bytes end l z).0)
      (λ z. ground (arith, e, end_read-level c.stdin n bytes end l z))

pub write-Grants :
    (o : Output) (n : ℕ) (bytes : List ℕ) (end : ReadEnd) (r r' : SendResult) (c : Client)
    → c.stdin.phase ≡ reading n
    → length bytes ≤ n
    → Grants o 0 0 c (write_messages n bytes end r r' c)
unfolding write_messages
write-Grants o n bytes end r r' c e l =
    Grants-trans o 0 0 0
      (Grants-trans o 0 (length bytes) 0 (end_read-Grants o n bytes end c e l)
        (send_block-Grants o r bytes _))
      (send_end-Grants o r' end _)
