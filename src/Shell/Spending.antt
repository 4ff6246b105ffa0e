-- ===== src/Shell/Spending.antt =====
-- Theorems on the handler: what its steps do to what counts against the limits.
use taskcluster_worker.Prelude.{ℕ, ◌+◌, ◌≤◌, ◌≡◌, Bool, false, List, [], ◌∷◌, arith, length}
use taskcluster_worker.Prelude.Int.{neg_part}
use taskcluster_worker.Shell.Messages.{
  Output, on_stdout, on_stderr, stream_of, data_message, writes_output,
}
use taskcluster_worker.Shell.Streams.{reading, ReadEnd, more, eof, end_read, SendResult}
use taskcluster_worker.Shell.Handler.{
  Handler, sending, set_sending, abort, send, send_block, send_end, transmit,
}
use taskcluster_worker.Shell.Wire.{bytes_for, data_message-bytes, data_message-end}
use taskcluster_worker.Shell.Levels.{
  loads-append, output_load, stdin_ack, sender_level, receiver_level, data_message-ack,
}
use taskcluster_worker.Shell.Ends.{end_read-level}

-- The limits of an output stream and of stdin, where `before` bytes are read and not sent before the
-- step and `after` after it.
pub record Spends (o : Output) (before after : ℕ) (h t : Handler) : Type 0 where
  pub limited :
      neg_part (sending o h).pipe.unblocked ≡ 0 → neg_part (sending o t).pipe.unblocked ≡ 0
  pub sends :
      neg_part (sending o h).pipe.unblocked ≡ 0
      → sender_level (output_load o) t.ws (sending o t) + after
        ≤ sender_level (output_load o) h.ws (sending o h) + before
  pub acks : receiver_level stdin_ack t.ws t.stdin ≤ receiver_level stdin_ack h.ws h.stdin
  pub room : t.stdin.pipe.capacity ≡ h.stdin.pipe.capacity

pub Spends-trans :
    (o : Output) (a b c : ℕ) {h i j : Handler}
    → Spends o a b h i
    → Spends o b c i j
    → Spends o a c h j
Spends-trans o a b c v w = record {
  limited = λ e. w.limited (v.limited e);
  sends = λ e. omega (arith, v.sends e, w.sends (v.limited e));
  acks = omega (arith, v.acks, w.acks);
  room = ground (arith, v.room, w.room);
}

pub abort-Spends : (o : Output) (p : ℕ) (h : Handler) → Spends o p 0 h (abort h)
unfolding abort
abort-Spends on_stdout p h = ground arith
abort-Spends on_stderr p h = ground arith

send-Spends :
    (o : Output) (r : SendResult) (ignore : Bool) (m : List ℕ) (p : ℕ) (h : Handler)
    → stdin_ack m ≡ 0
    → output_load o m ≤ p
    → Spends o p 0 h (send r ignore m h)
unfolding send abort
send-Spends on_stdout r ignore m p h a l =
    ground (arith, a, l, loads-append stdin_ack h.ws m, loads-append (output_load on_stdout) h.ws m)
send-Spends on_stderr r ignore m p h a l =
    ground (arith, a, l, loads-append stdin_ack h.ws m, loads-append (output_load on_stderr) h.ws m)

abbrev part_bytes : Output → Output → List ℕ → ℕ
part_bytes o o' bytes = length (bytes_for o (writes_output o' bytes))

send_block-Spends :
    (o o' : Output) (r : SendResult) (bytes : List ℕ) (h : Handler)
    → Spends o (part_bytes o o' bytes) 0 h (send_block r o' bytes h)
send_block-Spends o o' r [] h = ground arith
send_block-Spends o o' r (b ∷ bs) h =
    send-Spends o r false (data_message (stream_of o') (b ∷ bs)) _ h (data_message-ack o' (b ∷ bs))
      (ground (arith, data_message-bytes o o' (b ∷ bs)))

send_end-Spends :
    (o o' : Output) (r : SendResult) (end : ReadEnd) (h : Handler)
    → Spends o 0 0 h (send_end r o' end h)
send_end-Spends o o' r more h = ground arith
send_end-Spends o o' r eof h =
    send-Spends o r false (data_message (stream_of o') []) 0 h (data_message-ack o' [])
      (ground (arith, data_message-end o o'))
send_end-Spends o o' r ReadEnd.fails h = abort-Spends o 0 h

end_read-Spends :
    (o o' : Output) (n : ℕ) (bytes : List ℕ) (end : ReadEnd) (h : Handler)
    → (sending o' h).phase ≡ reading n
    → length bytes ≤ n
    → Spends o 0 (part_bytes o o' bytes) h (set_sending o' (end_read n bytes end (sending o' h)) h)
end_read-Spends on_stdout on_stdout n bytes end h e l = ground (
  arith,
  e,
  λ (z : neg_part h.stdout.pipe.unblocked ≡ 0). end_read-level h.stdout n bytes end l z,
)
end_read-Spends on_stdout on_stderr n bytes end h e l = ground arith
end_read-Spends on_stderr on_stdout n bytes end h e l = ground arith
end_read-Spends on_stderr on_stderr n bytes end h e l = ground (
  arith,
  e,
  λ (z : neg_part h.stderr.pipe.unblocked ≡ 0). end_read-level h.stderr n bytes end l z,
)

pub transmit-Spends :
    (o o' : Output) (n : ℕ) (bytes : List ℕ) (end : ReadEnd) (r r' : SendResult) (h : Handler)
    → (sending o' h).phase ≡ reading n
    → length bytes ≤ n
    → Spends o 0 0 h (transmit o' n bytes end r r' h)
unfolding transmit
transmit-Spends o o' n bytes end r r' h e l =
    Spends-trans o 0 0 0
      (Spends-trans o 0 (part_bytes o o' bytes) 0 (end_read-Spends o o' n bytes end h e l)
        (send_block-Spends o o' r bytes _))
      (send_end-Spends o o' r' end _)
