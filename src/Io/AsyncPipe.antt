-- ===== src/Io/AsyncPipe.antt =====
-- runtime/ioext/asyncpipe.go. Each method holds the lock throughout, so it is one transition. Bytes are
-- numbers. The channel `tell` is there or nil; what is sent on it and that it is closed is returned.
use taskcluster_worker.Prelude.{
  ℕ, ◌+◌, Bool, true, false, not, ◌&&◌, List, [], ◌∷◌, ◌++◌, Option, none, some, ltb, if◌then◌else◌,
  length, take, drop,
}

pub record AsyncPipe : Type 0 where
  pub buffer : List ℕ
  pub closed : Bool
  pub broken : Bool
  pub tell : Bool
  pub capacity : ℕ

unfoldable pub new_pipe : ℕ → Bool → AsyncPipe
new_pipe capacity tell = record {
  buffer = [];
  closed = false;
  broken = false;
  tell = tell;
  capacity = capacity;
}

abbrev pub is_empty : List ℕ → Bool
is_empty [] = true
is_empty (x ∷ xs) = false

-- What `Read` returns and does to `tell`.
pub record ReadResult : Type 0 where
  pub data_read : List ℕ
  pub is_eof : Bool
  pub told : ℕ
  pub closes_tell : Bool

-- `Read` into a slice of `size` bytes; `none` while it waits.
unfoldable pub read : ℕ → AsyncPipe → Option (AsyncPipe × ReadResult)
read size p =
    let got = take size p.buffer in
    let rest = drop size p.buffer in
    let eof = p.closed && is_empty rest in
    if is_empty p.buffer && not p.closed
    then none
    else some (
      record p { buffer = rest; tell = if eof then false else p.tell },
      record {
        data_read = got;
        is_eof = eof;
        told = if p.tell then length got else 0;
        closes_tell = eof && p.tell;
      },
    )

unfoldable pub close_reader : AsyncPipe → AsyncPipe
close_reader p = record p { closed = true; broken = true }

pub data Written : Type 0 where
  accepts : ℕ → Written
  closed_pipe pipe_full : Written

unfoldable pub write : List ℕ → AsyncPipe → AsyncPipe × Written
write bytes p =
    if p.closed
    then (p, closed_pipe)
    else if ltb p.capacity (length p.buffer + length bytes)
    then (p, pipe_full)
    else (record p { buffer = p.buffer ++ bytes }, accepts (length bytes))

-- The writer's `Close`: whether it returns ErrClosedPipe.
unfoldable pub close_writer : AsyncPipe → AsyncPipe × Bool
close_writer p = if p.closed && p.broken then (p, true) else (record p { closed = true }, false)
