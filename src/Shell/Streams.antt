-- ===== src/Shell/Streams.antt =====
-- The two ends of a stream of the interactive shell: the loops `transmitStream` and `writeMessages`
-- that read from a BlockedPipe, and an AsyncPipe with the channel that `sendAcks` and `sendAck` read.
use taskcluster_worker.Prelude.{
  ℕ, ◌+◌, true, ◌==◌, List, [], ◌∷◌, ◌++◌, none, some, if◌then◌else◌, length, take, drop,
}
use taskcluster_worker.Prelude.Int.{pos}
use taskcluster_worker.Io.BlockedPipe.{
  BlockedPipe, new_blocked, reserve, settle, unblock, close_read,
}
use taskcluster_worker.Io.AsyncPipe.{AsyncPipe, new_pipe, read, close_writer}
use taskcluster_worker.Io.Budget.{total}
use taskcluster_worker.Shell.Messages.{shell_block_size, shell_max_pending_bytes}

-- The loop is about to read, is in a read for which so many bytes are reserved, or has returned.
pub data Phase : Type 0 where
  idle ended : Phase
  reading : ℕ → Phase

-- `taken` records the bytes that the loop has read so far, all of them.
pub record Sending : Type 0 where
  pub pipe : BlockedPipe
  pub phase : Phase
  pub taken : List ℕ

unfoldable pub new_sending : Sending
unfolding unblock
new_sending = record {
  pipe = (unblock (pos shell_max_pending_bytes) new_blocked).0;
  phase = idle;
  taken = [];
}

-- How a read ends: the loop goes on, reads EOF, or fails.
pub data ReadEnd : Type 0 where
  more eof fails : ReadEnd

abbrev next_phase : ReadEnd → Phase
next_phase more = idle
next_phase _ = ended

-- A read starts, where `reserve` reserves n bytes for it; it returns with some bytes.
unfoldable pub begin_read : ℕ → Sending → Sending
begin_read n x = record x { pipe = (reserve shell_block_size x.pipe).0; phase = reading n }

unfoldable pub end_read : ℕ → List ℕ → ReadEnd → Sending → Sending
end_read n bytes end x = record x {
  pipe = (settle n (length bytes) x.pipe).0;
  phase = next_phase end;
  taken = x.taken ++ bytes;
}

unfoldable pub end_stream : Sending → Sending
end_stream x = record x { phase = ended }

unfoldable pub grant : ℕ → Sending → Sending
grant n x = record x { pipe = (unblock (pos n) x.pipe).0 }

unfoldable pub close_sending : Sending → Sending
close_sending x = record x { pipe = (close_read x.pipe).0 }

-- `told` is what was sent on the channel and not received yet. The channel holds ten numbers, and
-- then a read waits; here it holds any number. `taken` records the bytes that were read from the pipe
-- so far.
pub record Receiving : Type 0 where
  pub pipe : AsyncPipe
  pub told : List ℕ
  pub taken : List ℕ

unfoldable pub new_receiving : Receiving
unfolding new_pipe
new_receiving = record { pipe = new_pipe shell_max_pending_bytes true; told = []; taken = [] }

-- A read of the pipe, into a slice of so many bytes.
unfoldable pub take_bytes : ℕ → Receiving → Receiving
take_bytes size x = elim (read size x.pipe) [
  | none ↦ x
  | some (p, r) ↦ record {
    pipe = p;
    told = if r.told == 0 then x.told else x.told ++ r.told ∷ [];
    taken = x.taken ++ r.data_read;
  }
]

-- The sum of the first number on the channel and of those that are pending when the loop looks for
-- them, k here; and what is left on the channel.
abbrev pub merge_tells : ℕ → ℕ → List ℕ → ℕ
merge_tells k n ns = n + total (take k ns)

abbrev pub rest_told : ℕ → List ℕ → Receiving → Receiving
rest_told k ns x = record x { told = drop k ns }

unfoldable pub close_receiving : Receiving → Receiving
close_receiving x = record x { pipe = (close_writer x.pipe).0 }

-- How `WriteMessage` of the websocket ends: with no error, ErrCloseSent or another error.
pub data SendResult : Type 0 where
  sent close_sent send_fails : SendResult
