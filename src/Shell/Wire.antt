-- ===== src/Shell/Wire.antt =====
-- What the messages that are under way to the client carry: the bytes of a stream, and a success.
use taskcluster_worker.Prelude.{
  ℕ, ◌≡◌, refl, ap, sym, ◌∙◌, ◌⊎◌, Bool, true, false, ◌||◌, List, [], ◌∷◌, ◌++◌, arith,
}
use mathlib.Core.List.{append-nil, append_assoc}
use taskcluster_worker.Shell.Messages.{
  Output, on_stdout, on_stderr, stream_of, stream_stdin, put_u32, data_message, ack_message,
  exit_message, ClientEvent, writes_output, exits, client_event,
}

abbrev pub bytes_for : Output → ClientEvent → List ℕ
bytes_for on_stdout (writes_output on_stdout bs) = bs
bytes_for on_stderr (writes_output on_stderr bs) = bs
bytes_for _ _ = []

abbrev pub is_success : ClientEvent → Bool
is_success (exits true) = true
is_success _ = false

abbrev pub wire : Output → List (List ℕ) → List ℕ
wire o [] = []
wire o (m ∷ ms) = bytes_for o (client_event m) ++ wire o ms

abbrev pub any_success : List (List ℕ) → Bool
any_success [] = false
any_success (m ∷ ms) = is_success (client_event m) || any_success ms

-- Behind a success there are no bytes of the stream.
abbrev pub Quiet : Output → List (List ℕ) → Type 0
Quiet o [] = Unit
Quiet o (m ∷ ms) = ((is_success (client_event m) ≡ false) ⊎ (wire o ms ≡ [])) × Quiet o ms

pub wire-append :
    (o : Output) (ms : List (List ℕ)) (m : List ℕ)
    → wire o (ms ++ m ∷ []) ≡ wire o ms ++ bytes_for o (client_event m)
wire-append o [] m = ground (arith, append-nil (bytes_for o (client_event m)))
wire-append o (x ∷ xs) m =
    ap (λ bs. bytes_for o (client_event x) ++ bs) (wire-append o xs m)
    ∙ sym (append_assoc (bytes_for o (client_event x)) (wire o xs) (bytes_for o (client_event m)))

pub success-append :
    (ms : List (List ℕ)) (m : List ℕ)
    → any_success (ms ++ m ∷ []) ≡ (any_success ms || is_success (client_event m))
success-append [] m = ground arith
success-append (x ∷ xs) m = ground (arith, success-append xs m)

weaken : {A : Type 0} (a b : Bool) → ((a || b) ≡ false) ⊎ A → (b ≡ false) ⊎ A
weaken a b h = ground arith

-- A message without bytes of the stream may be added always, one with bytes where there is no success.
pub Quiet-append :
    (o : Output) (ms : List (List ℕ)) (m : List ℕ)
    → Quiet o ms
    → (any_success ms ≡ false) ⊎ (bytes_for o (client_event m) ≡ [])
    → Quiet o (ms ++ m ∷ [])
Quiet-append o [] m q h = ground arith
Quiet-append o (x ∷ xs) m q h = ground (
  arith,
  q,
  h,
  wire-append o xs m,
  Quiet-append o xs m q.1 (weaken (is_success (client_event x)) (any_success xs) h),
)

-- What the messages of the handler carry.
pub data_message-bytes :
    (o o' : Output) (bs : List ℕ)
    → bytes_for o (client_event (data_message (stream_of o') bs))
      ≡ bytes_for o (writes_output o' bs)
unfolding client_event data_message
data_message-bytes on_stdout on_stdout bs = ground arith
data_message-bytes on_stdout on_stderr bs = ground arith
data_message-bytes on_stderr on_stdout bs = ground arith
data_message-bytes on_stderr on_stderr bs = ground arith

pub no_bytes : (o o' : Output) → bytes_for o (writes_output o' []) ≡ []
no_bytes on_stdout on_stdout = refl
no_bytes on_stdout on_stderr = refl
no_bytes on_stderr on_stdout = refl
no_bytes on_stderr on_stderr = refl

pub data_message-end :
    (o o' : Output) → bytes_for o (client_event (data_message (stream_of o') [])) ≡ []
data_message-end o o' = data_message-bytes o o' [] ∙ no_bytes o o'

pub data_message-success :
    (o : Output) (bs : List ℕ) → is_success (client_event (data_message (stream_of o) bs)) ≡ false
unfolding client_event data_message
data_message-success on_stdout [] = ground arith
data_message-success on_stdout (b ∷ bs) = ground arith
data_message-success on_stderr [] = ground arith
data_message-success on_stderr (b ∷ bs) = ground arith

pub ack_message-bytes :
    (o : Output) (n : ℕ) → bytes_for o (client_event (ack_message stream_stdin n)) ≡ []
unfolding client_event ack_message put_u32
ack_message-bytes on_stdout n = ground arith
ack_message-bytes on_stderr n = ground arith

pub ack_message-success : (n : ℕ) → is_success (client_event (ack_message stream_stdin n)) ≡ false
unfolding client_event ack_message put_u32
ack_message-success n = ground arith

pub exit_message-bytes :
    (o : Output) (success : Bool) → bytes_for o (client_event (exit_message success)) ≡ []
unfolding client_event exit_message
exit_message-bytes on_stdout success = ground arith
exit_message-bytes on_stderr success = ground arith

pub exit_message-success :
    (success : Bool) → is_success (client_event (exit_message success)) ≡ success
unfolding client_event exit_message
exit_message-success success = ground arith
