-- ===== src/Shell/Output.antt =====
-- Theorems on the handler: a success follows the output.
use taskcluster_worker.Prelude.{
  ℕ, ◌≡◌, refl, ap, ◌∙◌, inl, inr, ◌⊎◌, Bool, true, false, ◌||◌, List, [], ◌∷◌, ◌++◌, Option, some,
  arith,
}
use mathlib.Core.List.{append-nil, append_assoc}
use taskcluster_worker.Shell.Messages.{
  Output, on_stdout, on_stderr, stream_of, data_message, client_event, writes_output,
}
use taskcluster_worker.Shell.Streams.{
  Sending, ended, ReadEnd, more, eof, fails, end_read, SendResult,
}
use taskcluster_worker.Shell.Handler.{
  Handler, sending, set_sending, abort, send, send_block, send_end, transmit,
}
use taskcluster_worker.Shell.Wire.{
  bytes_for, is_success, wire, any_success, Quiet, wire-append, success-append, Quiet-append,
  no_bytes, data_message-end, data_message-bytes, data_message-success,
}

abbrev pub is_some : Bool → Option Bool → Bool
is_some true (some true) = true
is_some false (some false) = true
is_some _ _ = false

-- What the client has got of a stream is `got`, what the handler has read and not sent is `rest`; where
-- the client has lost bytes, `lost` is true.
pub record Ordered (o : Output) (got rest : List ℕ) (lost : Bool) (x : Sending)
    (resolution over : Option Bool) (ws : List (List ℕ)) : Type 0 where
  pub over_first : is_some true resolution ≡ true → (over ≡ some true) × (x.phase ≡ ended)
  pub in_order : ((is_some false resolution || lost) ≡ true) ⊎ (x.taken ≡ got ++ wire o ws ++ rest)
  pub quiet : Quiet o ws
  pub success : any_success ws ≡ true → is_some true resolution ≡ true

abbrev pub HandlerOrdered : Output → List ℕ → List ℕ → Bool → Handler → Type 0
HandlerOrdered o got rest lost h = Ordered o got rest lost (sending o h) h.resolution h.over h.ws

module _ (got : List ℕ) (lost : Bool) where
  -- A message is added: it carries what was pending, and is no success.
  pub post-Ordered :
      (o : Output) (x : Sending) (resolution over : Option Bool) (ws : List (List ℕ))
      (m pending : List ℕ)
      → bytes_for o (client_event m) ≡ pending
      → is_success (client_event m) ≡ false
      → (pending ≡ []) ⊎ (is_some true resolution ≡ false)
      → Ordered o got pending lost x resolution over ws
      → Ordered o got [] lost x resolution over (ws ++ m ∷ [])
  post-Ordered o x resolution over ws m pending e s c v = record {
    over_first = v.over_first;
    in_order = ground (
      arith,
      v.in_order,
      e,
      wire-append o ws m,
      append-nil pending,
      append_assoc got (wire o ws) pending,
      append_assoc got (wire o ws ++ pending) [],
      append-nil (got ++ (wire o ws ++ pending)),
      append-nil (got ++ wire o ws ++ pending),
    );
    quiet = Quiet-append o ws m v.quiet (ground (arith, v.success, c, e));
    success = ground (arith, v.success, s, success-append ws m);
  }

  pub abort-Ordered :
      (o : Output) (h : Handler) (rest : List ℕ)
      → HandlerOrdered o got rest lost h
      → HandlerOrdered o got rest lost (abort h)
  unfolding abort
  abort-Ordered on_stdout h rest v = ground (arith, v)
  abort-Ordered on_stderr h rest v = ground (arith, v)

  -- `send` of what was pending.
  pub send-Ordered :
      (o : Output) (r : SendResult) (ignore : Bool) (m pending : List ℕ) (h : Handler)
      → bytes_for o (client_event m) ≡ pending
      → is_success (client_event m) ≡ false
      → (pending ≡ []) ⊎ ((is_some true h.resolution ≡ false) × (ignore ≡ false))
      → HandlerOrdered o got pending lost h
      → HandlerOrdered o got [] lost (send r ignore m h)
  unfolding send abort
  send-Ordered on_stdout r ignore m pending h e s c v = ground (
    arith,
    c,
    v,
    post-Ordered on_stdout h.stdout h.resolution h.over h.ws m pending e s (ground (arith, c)) v,
  )
  send-Ordered on_stderr r ignore m pending h e s c v = ground (
    arith,
    c,
    v,
    post-Ordered on_stderr h.stderr h.resolution h.over h.ws m pending e s (ground (arith, c)) v,
  )

  -- What is sent of a read: its bytes are pending, and the shell is not resolved with success.
  send_block-Ordered :
      (o o' : Output) (r : SendResult) (bytes : List ℕ) (h : Handler)
      → is_some true h.resolution ≡ false
      → HandlerOrdered o got (bytes_for o (writes_output o' bytes)) lost h
      → HandlerOrdered o got [] lost (send_block r o' bytes h)
  send_block-Ordered o o' r [] h n v = ground (arith, v, no_bytes o o')
  send_block-Ordered o o' r (b ∷ bs) h n v =
      send-Ordered o r false (data_message (stream_of o') (b ∷ bs))
        (bytes_for o (writes_output o' (b ∷ bs))) h (data_message-bytes o o' (b ∷ bs))
        (data_message-success o' (b ∷ bs)) (inr (n, refl)) v

  send_end-Ordered :
      (o o' : Output) (r : SendResult) (end : ReadEnd) (h : Handler)
      → HandlerOrdered o got [] lost h
      → HandlerOrdered o got [] lost (send_end r o' end h)
  send_end-Ordered o o' r more h v = v
  send_end-Ordered o o' r eof h v =
      send-Ordered o r false (data_message (stream_of o') []) [] h (data_message-end o o')
        (data_message-success o' []) (inl refl) v
  send_end-Ordered o o' r fails h v = abort-Ordered o h [] v

  -- The read itself: its bytes become pending.
  end_read-Ordered :
      (o o' : Output) (n : ℕ) (bytes : List ℕ) (end : ReadEnd) (h : Handler)
      → is_some true h.resolution ≡ false
      → HandlerOrdered o got [] lost h
      → HandlerOrdered o got
          (bytes_for o (writes_output o' bytes))
          lost
          (set_sending o' (end_read n bytes end (sending o' h)) h)
  unfolding end_read
  end_read-Ordered on_stdout on_stdout n bytes end h r v =
      ground (arith, v, r, append-nil (got ++ wire on_stdout h.ws))
  end_read-Ordered on_stdout on_stderr n bytes end h r v = ground (arith, v)
  end_read-Ordered on_stderr on_stdout n bytes end h r v = ground (arith, v)
  end_read-Ordered on_stderr on_stderr n bytes end h r v =
      ground (arith, v, r, append-nil (got ++ wire on_stderr h.ws))

  set_sending-resolution :
      (o' : Output) (x : Sending) (h : Handler) → (set_sending o' x h).resolution ≡ h.resolution
  set_sending-resolution on_stdout x h = refl
  set_sending-resolution on_stderr x h = refl

  pub transmit-Ordered :
      (o o' : Output) (n : ℕ) (bytes : List ℕ) (end : ReadEnd) (r r' : SendResult) (h : Handler)
      → is_some true h.resolution ≡ false
      → HandlerOrdered o got [] lost h
      → HandlerOrdered o got [] lost (transmit o' n bytes end r r' h)
  unfolding transmit
  transmit-Ordered o o' n bytes end r r' h u v =
      let x = end_read n bytes end (sending o' h) in
      send_end-Ordered o o' r' end _ (
        send_block-Ordered o o' r bytes (set_sending o' x h)
          (ap (is_some true) (set_sending-resolution o' x h) ∙ u)
          (end_read-Ordered o o' n bytes end h u v))
