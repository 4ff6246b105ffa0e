-- ===== src/Shell/Ends.antt =====
-- Theorems on the ends of a stream: what their transitions do to what counts against the limit.
use taskcluster_worker.Prelude.{
  ℕ, ◌+◌, ◌≤◌, ◌≡◌, refl, ap, List, [], ◌∷◌, arith, length, take, drop, length-append, take-drop,
}
use taskcluster_worker.Prelude.Int.{pos_part, neg_part, ◌+ℤ◌}
use taskcluster_worker.Io.BlockedPipe.{reserve, settle, close_read}
use taskcluster_worker.Io.AsyncPipe.{read, close_reader, close_writer}
use taskcluster_worker.Io.Budget.{total, total-append}
use taskcluster_worker.Shell.Streams.{
  Sending, Receiving, reading, ReadEnd, begin_read, end_read, close_sending, take_bytes,
  merge_tells, rest_told, close_receiving,
}
use taskcluster_worker.Shell.Session.{MayRead, break_reader}
use taskcluster_worker.Shell.Levels.{held}

pub begin_read-level :
    (x : Sending) (n : ℕ)
    → MayRead x n
    → neg_part x.pipe.unblocked ≡ 0
    → (neg_part (begin_read n x).pipe.unblocked ≡ 0)
      × (pos_part (begin_read n x).pipe.unblocked + n ≡ pos_part x.pipe.unblocked)
unfolding begin_read reserve
begin_read-level x n m e = ground (arith, m, e)

pub begin_read-phase : (n : ℕ) (x : Sending) → (begin_read n x).phase ≡ reading n
unfolding begin_read
begin_read-phase n x = refl

pub end_read-level :
    (x : Sending) (n : ℕ) (bytes : List ℕ) (end : ReadEnd)
    → length bytes ≤ n
    → neg_part x.pipe.unblocked ≡ 0
    → (neg_part (end_read n bytes end x).pipe.unblocked ≡ 0)
      × (held (end_read n bytes end x).phase ≡ 0)
      × (pos_part (end_read n bytes end x).pipe.unblocked + length bytes
          ≡ pos_part x.pipe.unblocked + n)
unfolding end_read settle ◌+ℤ◌
end_read-level x n bytes end l e = ground (arith, l, e)

split-total : (k : ℕ) (ns : List ℕ) → total (take k ns) + total (drop k ns) ≡ total ns
split-total k ns = omega (arith, ap total (take-drop k ns), total-append (take k ns) (drop k ns))

split-length : (k : ℕ) (bs : List ℕ) → length (take k bs) + length (drop k bs) ≡ length bs
split-length k bs = omega (arith, ap length (take-drop k bs), length-append (take k bs) (drop k bs))

pub take_bytes-level :
    (size : ℕ) (x : Receiving)
    → (length (take_bytes size x).pipe.buffer + total (take_bytes size x).told
        ≤ length x.pipe.buffer + total x.told)
      × ((take_bytes size x).pipe.capacity ≡ x.pipe.capacity)
unfolding take_bytes read
take_bytes-level size x = ground (
  arith,
  split-length size x.pipe.buffer,
  total-append x.told (length (take size x.pipe.buffer) ∷ []),
)

pub rest_told-level :
    (k n : ℕ) (ns : List ℕ) (x : Receiving)
    → merge_tells k n ns + total (rest_told k ns x).told ≡ n + total ns
rest_told-level k n ns x = omega (arith, split-total k ns)

pub close_receiving-level :
    (x : Receiving)
    → ((close_receiving x).pipe.buffer ≡ x.pipe.buffer)
      × ((close_receiving x).told ≡ x.told)
      × ((close_receiving x).pipe.capacity ≡ x.pipe.capacity)
unfolding close_receiving close_writer
close_receiving-level x = ground arith

pub break_reader-level :
    (x : Receiving)
    → ((break_reader x).pipe.buffer ≡ x.pipe.buffer)
      × ((break_reader x).told ≡ x.told)
      × ((break_reader x).pipe.capacity ≡ x.pipe.capacity)
unfolding close_reader
break_reader-level x = ground arith

pub close_sending-level :
    (x : Sending)
    → ((close_sending x).pipe.unblocked ≡ x.pipe.unblocked) × ((close_sending x).phase ≡ x.phase)
unfolding close_sending close_read
close_sending-level x = ground arith
