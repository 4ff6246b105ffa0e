-- ===== src/Shell/Arrival.antt =====
-- Theorems on a session: a success that the client answers comes after the whole output.
use taskcluster_worker.Prelude.{
  ℕ, ◌≡◌, ◌⊎◌, inl, inr, Bool, true, false, not, List, [], ◌∷◌, ◌++◌, Option, none, some, arith,
}
use mathlib.Core.List.{append-nil, append_assoc}
use taskcluster_worker.Io.AsyncPipe.{new_pipe}
use taskcluster_worker.Shell.Messages.{Output, on_stdout, on_stderr, ClientEvent, client_event}
use taskcluster_worker.Shell.Streams.{Sending, new_receiving, new_sending}
use taskcluster_worker.Shell.Handler as Handler
use taskcluster_worker.Shell.Handler.{Handler, sending}
use taskcluster_worker.Shell.Client as Client
use taskcluster_worker.Shell.Client.{
  Client, receiving, set_receiving, resolve, dispose, written, output_closed, perform,
}
use taskcluster_worker.Shell.Session.{
  Session, HandlerMove, ClientMove, Step, handler_moves, client_moves, client_receives,
  handler_receives, Reach, here, next,
}
use taskcluster_worker.Shell.Wire.{bytes_for, is_success, wire}
use taskcluster_worker.Shell.Output.{is_some, Ordered, HandlerOrdered}
use taskcluster_worker.Shell.Moves.{Unresolved, HandlerMove-Ordered, receive-Ordered}
use taskcluster_worker.Shell.Frozen.{receive-Frozen, HandlerMove-Frozen}
use taskcluster_worker.Shell.Reception.{Receives, gets, loses, ends, client-Receives}
use taskcluster_worker.Shell.Delivery.{got, succeeded, ClientMove-Keeps}

-- Once the client has a success, all that the handler has read is there, and nothing is to come.
pub record Complete (o : Output) (h : Handler) (c : Client) : Type 0 where
  pub handler : is_some true h.resolution ≡ true
  pub empty : wire o h.ws ≡ []
  pub all : (sending o h).taken ≡ got (receiving o c)
  pub stopped : c.listening ≡ false

pub record Kept (o : Output) (h : Handler) (c : Client) : Type 0 where
  pub ordered : HandlerOrdered o (got (receiving o c)) [] (not c.listening) h
  pub complete : (succeeded c.resolution ≡ false) ⊎ Complete o h c

handler_moved :
    {h t : Handler} (o : Output) (c : Client)
    → Unresolved h
    → HandlerMove h t
    → Kept o h c
    → Kept o t c
handler_moved {h} {t} o c w m v = record {
  ordered = HandlerMove-Ordered (got (receiving o c)) (not c.listening) h w o m v.ordered;
  complete =
      ground
        (arith, v.complete, λ (r : is_some true h.resolution ≡ true). HandlerMove-Frozen o w m r);
}

client_moved : {c d : Client} (o : Output) (h : Handler) → ClientMove c d → Kept o h c → Kept o h d
client_moved {c} {d} o h m v = ground (arith, v, ClientMove-Keeps o m)

-- The first message leaves the wire, and its bytes, if any, are got.
leaves-Ordered :
    (o : Output) (g g' : List ℕ) (lost : Bool) (x : Sending) (resolution over : Option Bool)
    (m : List ℕ) (ms : List (List ℕ))
    → (lost ≡ true) ⊎ (g' ≡ g ++ bytes_for o (client_event m))
    → Ordered o g [] false x resolution over (m ∷ ms)
    → Ordered o g' [] lost x resolution over ms
leaves-Ordered o g g' lost x resolution over m ms e v = record {
  over_first = v.over_first;
  in_order = ground (
    arith,
    v.in_order,
    e,
    append_assoc g (bytes_for o (client_event m)) (wire o ms),
    append-nil (g ++ (bytes_for o (client_event m) ++ wire o ms)),
    append-nil (g' ++ wire o ms),
  );
  quiet = v.quiet.1;
  success = ground (arith, v.success);
}

ws-Ordered :
    (o : Output) (g : List ℕ) (lost : Bool) (h : Handler) (ms : List (List ℕ))
    → Ordered o g [] lost (sending o h) h.resolution h.over ms
    → HandlerOrdered o g [] lost (record h { ws = ms })
ws-Ordered on_stdout g lost h ms v = v
ws-Ordered on_stderr g lost h ms v = v

success-bytes : (o : Output) (e : ClientEvent) → is_success e ≡ true → bytes_for o e ≡ []
success-bytes on_stdout e s = ground (arith, s)
success-bytes on_stderr e s = ground (arith, s)

-- The success ends the output.
success-Complete :
    (o : Output) (m : List ℕ) (ms : List (List ℕ)) (h : Handler) (c d : Client)
    → is_success (client_event m) ≡ true
    → d.listening ≡ false
    → got (receiving o d) ≡ got (receiving o c)
    → Ordered o (got (receiving o c)) [] false (sending o h) h.resolution h.over (m ∷ ms)
    → Complete o (record h { ws = ms }) d
success-Complete on_stdout m ms h c d s l g v =
    ground
      (arith, s, l, g, v, success-bytes on_stdout (client_event m) s, append-nil (got c.stdout))
success-Complete on_stderr m ms h c d s l g v =
    ground
      (arith, s, l, g, v, success-bytes on_stderr (client_event m) s, append-nil (got c.stderr))

listens :
    (o : Output) (m : List ℕ) (ms : List (List ℕ)) (h : Handler) (c : Client)
    → c.listening ≡ true
    → h.ws ≡ m ∷ ms
    → HandlerOrdered o (got (receiving o c)) [] (not c.listening) h
    → Ordered o (got (receiving o c)) [] false (sending o h) h.resolution h.over (m ∷ ms)
listens o m ms h c l e v = ground (arith, l, e, v)

client_received :
    {d : Client} (o : Output) (m : List ℕ) (ms : List (List ℕ)) (h : Handler) (c : Client)
    → c.listening ≡ true
    → h.ws ≡ m ∷ ms
    → Receives o c d (client_event m)
    → Kept o h c
    → Kept o (record h { ws = ms }) d
client_received {d} o m ms h c l e r v =
    let u = listens o m ms h c l e v.ordered in
    record {
      ordered = ws-Ordered o _ _ h ms (
          leaves-Ordered o (got (receiving o c)) (got (receiving o d)) (not d.listening) _ _ _ m ms
            (ground (arith, r)) u);
      complete = elim r [
        | gets g s n ↦ inl (ground (arith, s, v.complete, l))
        | loses k s g ↦ inl (ground (arith, s, v.complete, l))
        | ends s k g ↦ inr (success-Complete o m ms h c d s k g u)
      ];
    }

handler_received :
    (o : Output) (m : List ℕ) (ms : List (List ℕ)) (h : Handler) (c : Client)
    → Kept o h c
    → Kept o (Handler.receive m h) (record c { ws = ms })
handler_received on_stdout m ms h c v = record {
  ordered = receive-Ordered (got c.stdout) (not c.listening) h on_stdout m v.ordered;
  complete =
      ground (
        arith,
        v.complete,
        λ (r : is_some true h.resolution ≡ true). receive-Frozen on_stdout m h r,
      );
}
handler_received on_stderr m ms h c v = record {
  ordered = receive-Ordered (got c.stderr) (not c.listening) h on_stderr m v.ordered;
  complete =
      ground (
        arith,
        v.complete,
        λ (r : is_some true h.resolution ≡ true). receive-Frozen on_stderr m h r,
      );
}

-- What holds in every session that is reached.
abbrev pub Sound : Session → Type 0
Sound s = (o : Output) → Kept o s.handler s.client

Sound-Unresolved : (s : Session) → Sound s → Unresolved s.handler
Sound-Unresolved s v o = ground (arith, (v o).ordered.over_first)

Step-Sound : {s t : Session} → Step s t → Sound s → Sound t
Step-Sound {s} (handler_moves m eq) v o =
    rw eq (handler_moved o s.client (Sound-Unresolved s v) m (v o))
Step-Sound {s} (client_moves m eq) v o = rw eq (client_moved o s.handler m (v o))
Step-Sound {s} (client_receives m ms l e eq) v o =
    rw eq (client_received o m ms s.handler s.client l e (client-Receives o m s.client) (v o))
Step-Sound {s} (handler_receives m ms l e eq) v o =
    rw eq (handler_received o m ms s.handler s.client (v o))

pub Reach-Sound : {a z : Bool} {s : Session} → Reach a z s → Sound s
unfolding Handler.new_handler Client.new_client new_receiving new_sending new_pipe
Reach-Sound here on_stdout = ground (arith)
Reach-Sound here on_stderr = ground (arith)
Reach-Sound (next r st) o = Step-Sound st (Reach-Sound r) o

-- Whatever the goroutines, the shell and the user do, and whatever fails: where Wait of the client
-- answers that the shell has terminated with success, Terminated was called with success, and for
-- each output stream all that the handler has read of it is what the user has read followed by what
-- lies ready for reading. Nothing is lost, and nothing is out of order.
pub success_after_output :
    {s : Session} (abort_func set_size_func : Bool) (o : Output)
    → Reach abort_func set_size_func s
    → Client.wait s.client ≡ some (true, none)
    → (s.handler.over ≡ some true)
      × ((sending o s.handler).taken
          ≡ (receiving o s.client).taken ++ (receiving o s.client).pipe.buffer)
unfolding Client.wait
success_after_output {s} a z o r e = ground (arith, e, Reach-Sound r o)
