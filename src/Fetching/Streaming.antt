-- ===== src/Fetching/Streaming.antt =====
-- runtime/fetcher/fetchasstream.go. A handler is called by a goroutine; `Reset` cancels the call that is
-- running and waits for it before the next one starts, so a target is the bytes of the calls that were
-- reset and of the call that is running.
use taskcluster_worker.Prelude.{
  ℕ, zero, suc, ◌+◌, ◌-◌, ◌≤◌, ◌<◌, ◌≡◌, ◌≢◌, ◌⊎◌, inl, inr, refl, Bool, List, [], ◌∷◌, ◌++◌,
  Option, none, some, arith, length,
}
use mathlib.Core.List.{append_assoc, append-nil}
use taskcluster_worker.Fetching.Download.{
  Attempt, invalid_url, request_fails, status, complete, breaks, write_fails, FetchError,
  write_error, WriteReseter, fetch_url, max_retries, attempts, fetch_with_retries,
}

-- `past` is the bytes that each call had got when it was reset; `now` is those of the last call.
pub record Stream : Type 0 where
  pub past : List (List ℕ)
  pub now : List ℕ

-- After the first Reset of `FetchAsStream`.
abbrev pub new_stream : Stream
new_stream = record { past = []; now = [] }

abbrev pub stream_reseter : WriteReseter Stream
stream_reseter = record {
  write = λ s bytes. record s { now = s.now ++ bytes };
  reset = λ s. record { past = s.past ++ s.now ∷ []; now = [] };
}

-- How the reader of a call ends, where the handler reads on: by EOF, by ErrStreamReset, or by the
-- error of the fetch.
pub data StreamEnd : Type 0 where
  eof stream_reset : StreamEnd
  fetch_fails : FetchError → StreamEnd

abbrev end_of : Option FetchError → StreamEnd
end_of none = eof
end_of (some e) = fetch_fails e

pub data StreamError : Type 0 where
  of_fetch : FetchError → StreamError
  of_handler : ℕ → StreamError

abbrev handled : Option ℕ → Option StreamError
handled none = none
handled (some e) = some (of_handler e)

-- A handler answers, in its k-th call, by the bytes it was sent and how its reader ends. `FetchAsStream`
-- with what `Fetch` has left and its error: the answer of a call that was reset is not used.
unfoldable pub close_stream :
    (ℕ → List ℕ → StreamEnd → Option ℕ) → Stream → Option FetchError → Option StreamError
close_stream handler s ferr =
    let cerr = handled (handler (length s.past) s.now (end_of ferr)) in
    elim ferr [ none ↦ cerr | some e ↦ some (of_fetch e) ]

-- Of a URL.
unfoldable pub fetch_as_stream :
    (ℕ → List ℕ → StreamEnd → Option ℕ)
    → (ℕ → Attempt)
    → (ℕ → Bool)
    → Stream × Option StreamError × ℕ
unfolding close_stream
fetch_as_stream handler server stops =
    let (s, ferr, made) = fetch_with_retries stream_reseter server stops new_stream in
    (s, close_stream handler s ferr, made)

-- What the attempts from k on, so many, have sent.
abbrev sent_by : Attempt → List ℕ
sent_by (complete bytes) = bytes
sent_by (breaks bytes) = bytes
sent_by (write_fails bytes) = bytes
sent_by _ = []

abbrev pub parts : (ℕ → Attempt) → ℕ → ℕ → List (List ℕ)
parts server k zero = []
parts server k (suc n) = sent_by (server k) ∷ parts server (k + 1) n

-- After so many retries: the last attempt was complete, or could not be written, or was reset too.
record Streamed (server : ℕ → Attempt) (k left : ℕ) (p : List (List ℕ))
    (r : Stream × Option FetchError × ℕ) : Type 0 where
  retries : ℕ
  bounded : retries ≤ left
  made : r.2 ≡ k + retries + 1
  ends :
      ((r.1 ≡ none)
        × (server (k + retries) ≡ complete r.0.now)
        × (r.0.past ≡ p ++ parts server k retries))
      ⊎ ((r.1 ≡ some write_error) × (r.0.past ≡ p ++ parts server k retries))
      ⊎ ((r.1 ≢ none) × (r.0.now ≡ []) × (r.0.past ≡ p ++ parts server k (retries + 1)))

abbrev Ended : (ℕ → Attempt) → ℕ → List (List ℕ) → Stream × Option FetchError × ℕ → Type 0
Ended server k p r =
    (r.2 ≡ k + 1)
    × (((r.1 ≡ none) × (server k ≡ complete r.0.now) × (r.0.past ≡ p))
        ⊎ ((r.1 ≡ some write_error) × (r.0.past ≡ p))
        ⊎ ((r.1 ≢ none) × (r.0.now ≡ []) × (r.0.past ≡ p ++ sent_by (server k) ∷ [])))

abbrev fetch_from :
    ℕ → ℕ → (ℕ → Attempt) → (ℕ → Bool) → List (List ℕ) → Stream × Option FetchError × ℕ
fetch_from left k server stops p =
    attempts stream_reseter left k server stops (record { past = p; now = [] })

Ended-Streamed :
    (server : ℕ → Attempt) (k left : ℕ) (p : List (List ℕ)) (r : Stream × Option FetchError × ℕ)
    → Ended server k p r
    → Streamed server k left p r
Ended-Streamed server k left p r e = record {
  retries = 0;
  bounded = omega arith;
  made = omega (arith, e.0);
  ends = ground (arith, e.1, append-nil p);
}

zero-Ended :
    (k : ℕ) (server : ℕ → Attempt) (stops : ℕ → Bool) (p : List (List ℕ)) (a : Attempt)
    → server k ≡ a
    → Ended server k p (fetch_from zero k server stops p)
unfolding attempts fetch_url
zero-Ended k server stops p invalid_url e = ground (arith, e)
zero-Ended k server stops p request_fails e = ground (arith, e)
zero-Ended k server stops p (status c) e = ground (arith, e)
zero-Ended k server stops p (complete bs) e = ground (arith, e)
zero-Ended k server stops p (breaks bs) e = ground (arith, e)
zero-Ended k server stops p (write_fails bs) e = ground (arith, e)

suc-cases :
    (left k : ℕ) (server : ℕ → Attempt) (stops : ℕ → Bool) (p : List (List ℕ)) (a : Attempt)
    → server k ≡ a
    → Ended server k p (fetch_from (suc left) k server stops p)
      ⊎ (fetch_from (suc left) k server stops p
          ≡ fetch_from left (k + 1) server stops (p ++ sent_by (server k) ∷ []))
unfolding attempts fetch_url
suc-cases left k server stops p invalid_url e = ground (arith, e)
suc-cases left k server stops p request_fails e = ground (arith, e)
suc-cases left k server stops p (status c) e = ground (arith, e)
suc-cases left k server stops p (complete bs) e = ground (arith, e)
suc-cases left k server stops p (breaks bs) e = ground (arith, e)
suc-cases left k server stops p (write_fails bs) e = ground (arith, e)

next-Streamed :
    (k left : ℕ) (server : ℕ → Attempt) (p : List (List ℕ)) (r : Stream × Option FetchError × ℕ)
    → Streamed server (k + 1) left (p ++ sent_by (server k) ∷ []) r
    → Streamed server k (suc left) p r
next-Streamed k left server p r v = record {
  bounded = omega (arith, v.bounded);
  retries = v.retries + 1;
  made = omega (arith, v.made);
  ends = ground (
    arith,
    v.ends,
    append_assoc p (sent_by (server k) ∷ []) (parts server (k + 1) v.retries),
    append_assoc p (sent_by (server k) ∷ []) (parts server (k + 1) (v.retries + 1)),
  );
}

attempts-Streamed :
    (left k : ℕ) (server : ℕ → Attempt) (stops : ℕ → Bool) (p : List (List ℕ))
    → Streamed server k left p (fetch_from left k server stops p)
attempts-Streamed zero k server stops p =
    Ended-Streamed server k zero p _ (zero-Ended k server stops p (server k) refl)
attempts-Streamed (suc left) k server stops p =
    elim (suc-cases left k server stops p (server k) refl) [
      | inl e ↦ Ended-Streamed server k (suc left) p _ e
      | inr e ↦ rw e (
          next-Streamed k left server p _
            (attempts-Streamed left (k + 1) server stops (p ++ sent_by (server k) ∷ [])))
    ]

length-parts : (server : ℕ → Attempt) (k n : ℕ) → length (parts server k n) ≡ n
length-parts server k zero = omega arith
length-parts server k (suc n) = omega (arith, length-parts server (k + 1) n)

-- What is stated of `FetchAsStream`, of the stream, the error and the number of attempts.
abbrev pub Handled :
    (ℕ → List ℕ → StreamEnd → Option ℕ) → (ℕ → Attempt) → Stream → Option StreamError → ℕ → Type 0
Handled handler server s error made =
    ((server (made - 1) ≡ complete s.now)
      × (s.past ≡ parts server 0 (made - 1))
      × (error ≡ handled (handler (made - 1) s.now eof)))
    ⊎ ((error ≡ some (of_fetch write_error)) × (s.past ≡ parts server 0 (made - 1)))
    ⊎ ((e : FetchError) × (error ≡ some (of_fetch e))
        × (s.now ≡ [])
        × (s.past ≡ parts server 0 made))

close-Handled :
    (handler : ℕ → List ℕ → StreamEnd → Option ℕ) (server : ℕ → Attempt) (s : Stream)
    (ferr : Option FetchError) (made : ℕ)
    → Streamed server 0 max_retries [] (s, ferr, made)
    → Handled handler server s (close_stream handler s ferr) made
unfolding close_stream
close-Handled handler server s none made v =
    inl (ground (arith, v, length-parts server 0 v.retries))
close-Handled handler server s (some e) made v = elim v.ends [
  | inl h ↦ ground (arith, h)
  | inr (inl h) ↦ ground (arith, h, v.made)
  | inr (inr h) ↦ inr (inr (e, refl, h.1, ground (arith, h, v.made)))
]

-- `FetchAsStream` of a URL makes nine attempts at most. Each call of its handler that is reset has got
-- what one attempt sent, in their order. Unless the download fails, the last call has got the complete
-- body of the last attempt and reads EOF, and FetchAsStream returns its answer, an error or none; it
-- returns the error of the download, if that fails.
pub stream_handled :
    (handler : ℕ → List ℕ → StreamEnd → Option ℕ) (server : ℕ → Attempt) (stops : ℕ → Bool)
    → let (s, error, made) = fetch_as_stream handler server stops in
      (0 < made) × (made ≤ max_retries + 1) × Handled handler server s error made
unfolding fetch_as_stream fetch_with_retries
stream_handled handler server stops =
    let v = attempts-Streamed max_retries 0 server stops [] in
    (omega (arith, v.made), omega (arith, v.made, v.bounded), close-Handled handler server _ _ _ v)
