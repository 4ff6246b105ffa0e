-- ===== src/Io/Buffering.antt =====
-- What an AsyncPipe delivers, for any sequence of calls from either side.
use mathlib.Core.List.{append_assoc, append-nil}
use taskcluster_worker.Prelude.{
  ℕ, zero, suc, ◌+◌, ◌≤◌, ◌≡◌, ◌⊎◌, refl, ap, ◌∙◌, Bool, true, false, not, ◌&&◌, List, [], ◌∷◌,
  ◌++◌, Option, none, some, arith, length, take, drop, take-drop, length-take, length-drop,
  length-append,
}
use taskcluster_worker.Io.AsyncPipe.{
  AsyncPipe, new_pipe, ReadResult, read, close_reader, Written, accepts, closed_pipe, pipe_full,
  write, close_writer,
}

pub data PipeCall : Type 0 where
  reads : ℕ → PipeCall
  writes : List ℕ → PipeCall
  closes_reader closes_writer : PipeCall

-- A pipe with its history: what writes accepted, what reads returned, what was sent on `tell`, how
-- often it was closed, and whether a read has returned EOF.
pub record Traffic : Type 0 where
  pub pipe : AsyncPipe
  pub sent : List ℕ
  pub received : List ℕ
  pub told : ℕ
  pub closings : ℕ
  pub saw_eof : Bool

abbrev pub one_if : Bool → ℕ
one_if true = 1
one_if false = 0

abbrev pub either : Bool → Bool → Bool
either true b = true
either false b = b

-- A read that waits changes nothing.
abbrev note_read : Traffic → Option (AsyncPipe × ReadResult) → Traffic
note_read t none = t
note_read t (some (p, r)) = record {
  pipe = p;
  sent = t.sent;
  received = t.received ++ r.data_read;
  told = t.told + r.told;
  closings = t.closings + one_if r.closes_tell;
  saw_eof = either t.saw_eof r.is_eof;
}

abbrev note_write : Traffic → List ℕ → AsyncPipe × Written → Traffic
note_write t bytes (p, accepts n) = record t { pipe = p; sent = t.sent ++ bytes }
note_write t bytes (p, closed_pipe) = record t { pipe = p }
note_write t bytes (p, pipe_full) = record t { pipe = p }

unfoldable pub pipe_step : Traffic → PipeCall → Traffic
unfolding read write close_reader close_writer
pipe_step t (reads n) = note_read t (read n t.pipe)
pipe_step t (writes bytes) = note_write t bytes (write bytes t.pipe)
pipe_step t closes_reader = record t { pipe = close_reader t.pipe }
pipe_step t closes_writer = record t { pipe = (close_writer t.pipe).0 }

unfoldable pub pipe_run : Traffic → List PipeCall → Traffic
pipe_run t [] = t
pipe_run t (c ∷ cs) = pipe_run (pipe_step t c) cs

abbrev pub quiet_pipe : ℕ → Bool → Traffic
quiet_pipe capacity tell = record {
  pipe = new_pipe capacity tell;
  sent = [];
  received = [];
  told = 0;
  closings = 0;
  saw_eof = false;
}

drop-nil : (n : ℕ) → ◌≡◌ {A = List ℕ} (drop n []) []
drop-nil zero = refl
drop-nil (suc n) = refl

record Buffered (capacity : ℕ) (tell : Bool) (t : Traffic) : Type 0 where
  fifo : t.received ++ t.pipe.buffer ≡ t.sent
  kept : t.pipe.capacity ≡ capacity
  bounded : length t.pipe.buffer ≤ capacity
  complete : t.saw_eof ≡ true → (t.pipe.closed ≡ true) × (t.pipe.buffer ≡ [])
  counted : tell ≡ true → t.told ≡ length t.received
  once : t.closings ≡ one_if (t.saw_eof && tell)
  open_tell : t.pipe.tell ≡ (tell && not t.saw_eof)

read_fifo :
    (n : ℕ) (t : Traffic)
    → t.received ++ t.pipe.buffer ≡ t.sent
    → (t.received ++ take n t.pipe.buffer) ++ drop n t.pipe.buffer ≡ t.sent
read_fifo n t h =
    append_assoc t.received (take n t.pipe.buffer) (drop n t.pipe.buffer)
    ∙ ap (λ b. t.received ++ b) (take-drop n t.pipe.buffer)
    ∙ h

step-Buffered :
    (capacity : ℕ) (tell : Bool) (t : Traffic) (c : PipeCall)
    → Buffered capacity tell t
    → Buffered capacity tell (pipe_step t c)
unfolding pipe_step
step-Buffered capacity tell t (reads n) b = ground (
  arith,
  b,
  read_fifo n t b.fifo,
  length-drop n t.pipe.buffer,
  length-append t.received (take n t.pipe.buffer),
  drop-nil n,
  length-take n t.pipe.buffer,
)
step-Buffered capacity tell t (writes bytes) b =
    ground
      (arith, b, append_assoc t.received t.pipe.buffer bytes, length-append t.pipe.buffer bytes)
step-Buffered capacity tell t closes_reader b = ground arith
step-Buffered capacity tell t closes_writer b = ground arith

run-Buffered :
    (capacity : ℕ) (tell : Bool) (t : Traffic) (cs : List PipeCall)
    → Buffered capacity tell t
    → Buffered capacity tell (pipe_run t cs)
unfolding pipe_run
run-Buffered capacity tell t [] b = b
run-Buffered capacity tell t (c ∷ cs) b =
    run-Buffered capacity tell (pipe_step t c) cs (step-Buffered capacity tell t c b)

quiet-Buffered : (capacity : ℕ) (tell : Bool) → Buffered capacity tell (quiet_pipe capacity tell)
unfolding new_pipe
quiet-Buffered capacity tell = ground arith

-- Whatever calls come from both sides of a new pipe, what reads have returned and then the buffer
-- are what writes have accepted, in order; the buffer is never longer than the capacity; a read
-- returns EOF only when everything accepted has been read; and `tell`, if there is one, has been
-- told of as many bytes as were read, and was closed once if a read returned EOF, and else never.
pipe_run_lem :
    (capacity : ℕ) (tell : Bool) (cs : List PipeCall)
    → let t = pipe_run (quiet_pipe capacity tell) cs in
      (t.received ++ t.pipe.buffer ≡ t.sent)
      × (length t.pipe.buffer ≤ capacity)
      × ((t.saw_eof ≡ false) ⊎ (t.received ≡ t.sent))
      × ((tell ≡ false) ⊎ (t.told ≡ length t.received))
      × (t.closings ≡ one_if (t.saw_eof && tell))
pipe_run_lem capacity tell cs =
    buffered_says tell (pipe_run (quiet_pipe capacity tell) cs)
      (run-Buffered capacity tell (quiet_pipe capacity tell) cs (quiet-Buffered capacity tell))
  where
    buffered_says :
        (tell : Bool) (t : Traffic)
        → Buffered capacity tell t
        → (t.received ++ t.pipe.buffer ≡ t.sent)
          × (length t.pipe.buffer ≤ capacity)
          × ((t.saw_eof ≡ false) ⊎ (t.received ≡ t.sent))
          × ((tell ≡ false) ⊎ (t.told ≡ length t.received))
          × (t.closings ≡ one_if (t.saw_eof && tell))
    buffered_says tell t b = ground (arith, b, append-nil t.received)
