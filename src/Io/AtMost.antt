-- ===== src/Io/AtMost.antt =====
-- runtime/ioext/readatmost.go. The reader underneath gives its content in pieces: how many bytes at
-- each call, and whether it tells of its end with the last of them, are functions of the number of
-- the call, as are the sizes of the buffers that ioutil.ReadAll offers.

use taskcluster_worker.Prelude.{
  ℕ, zero, suc, ◌+◌, Bool, true, false, ◌&&◌, ◌||◌, List, [], ◌∷◌, ◌++◌, Option, none, some, ltb,
  if◌then◌else◌, length, take, drop,
}
use taskcluster_worker.Prelude.Int.{ℤ, pos, negsuc, sub_ℕ}

pub data ReadError : Type 0 where
  eof broken : ReadError

pub record Source : Type 0 where
  pub ends_in : ReadError
  pub gives : ℕ → ℕ
  pub is_eager : ℕ → Bool

abbrev pub least : ℕ → ℕ → ℕ
least a b = if ltb a b then a else b

abbrev pub is_nil : List ℕ → Bool
is_nil [] = true
is_nil (x ∷ xs) = false

-- How many bytes the reader underneath gives for a buffer, and with which error.
abbrev pub amount : Source → ℕ → ℕ → List ℕ → ℕ
amount s call size content = least size (least (s.gives call) (length content))

abbrev pub source_error : Source → ℕ → ℕ → List ℕ → Option ReadError
source_error s call size content =
    if is_nil content || (s.is_eager call && is_nil (drop (amount s call size content) content))
    then some s.ends_in
    else none

pub record LimitedReader : Type 0 where
  pub content : List ℕ
  pub max_bytes : ℤ
  pub last_error : Option ReadError

-- `limitedReader.Read`.
unfoldable pub limited_read :
    Source → ℕ → ℕ → LimitedReader → LimitedReader × List ℕ × Option ReadError
limited_read s call size l = elim l.max_bytes [
  | negsuc n ↦ (l, [], some eof)
  | pos m ↦
      let offered = (if ltb m size then m + 1 else size) in
      let n = amount s call offered l.content in
      let err = source_error s call offered l.content in
      (
        record { content = drop n l.content; max_bytes = sub_ℕ m n; last_error = err },
        take n l.content,
        err,
      )
]

abbrev pub is_eof : Option ReadError → Bool
is_eof (some eof) = true
is_eof _ = false

abbrev pub is_negative : ℤ → Bool
is_negative (pos n) = false
is_negative (negsuc n) = true

unfoldable pub reached_eof : LimitedReader → Bool
reached_eof l = is_eof l.last_error && (if is_negative l.max_bytes then false else true)

pub data AtMost : Type 0 where
  body : List ℕ → AtMost
  max_size_exceeded read_failed out_of_fuel : AtMost

-- `ioutil.ReadAll(&lr)` and the test behind it.
unfoldable pub read_all : ℕ → (ℕ → ℕ) → Source → ℕ → List ℕ → LimitedReader → AtMost
unfolding limited_read reached_eof
read_all zero sizes s call got l = out_of_fuel
read_all (suc fuel) sizes s call got l =
    let (l', bytes, err) = limited_read s call (sizes call) l in
    elim err [
      | none ↦ read_all fuel sizes s (call + 1) (got ++ bytes) l'
      | some eof ↦ if reached_eof l' then body (got ++ bytes) else max_size_exceeded
      | some broken ↦ read_failed
    ]

-- `ReadAtMost` with a limit.
unfoldable pub read_at_most : (ℕ → ℕ) → Source → List ℕ → ℕ → AtMost
unfolding read_all
read_at_most sizes s content max_size =
    read_all (length content + 3) sizes s 0 []
      (record { content = content; max_bytes = pos max_size; last_error = none })
