-- ===== src/Worker/Shutdown.antt =====
-- runtime/stoppable.go, and the end of Worker.Start: how a worker stops and what Start returns.
use taskcluster_worker.Prelude.{
  ◌≡◌, refl, sym, Bool, true, false, List, [], ◌∷◌, Option, none, some, arith, if◌then◌else◌, ◌||◌,
  any, subst,
}
use taskcluster_worker.Errors.{Err}
use taskcluster_worker.Atomics.Once.{Once, zero_once, do_enter, do_leave, is_done}

-- LifeCycleTracker.
pub record LifeCycle : Type 0 where
  pub stopping_now : Once
  pub stopping_gracefully : Once

abbrev pub running : LifeCycle
running = record { stopping_now = zero_once; stopping_gracefully = zero_once }

abbrev left : Once × Bool → Once
left (o, true) = elim (do_leave o) [ none ↦ o | some o' ↦ o' ]
left (o, false) = o

-- `once.Do(nil)`.
unfoldable pub do_nothing : Once → Once
unfolding do_enter do_leave
do_nothing o = left (do_enter o)

unfoldable pub stop_gracefully : LifeCycle → LifeCycle
unfolding do_nothing
stop_gracefully l = record l { stopping_gracefully = do_nothing l.stopping_gracefully }

unfoldable pub stop_now : LifeCycle → LifeCycle
unfolding do_nothing
stop_now l = record {
  stopping_now = do_nothing l.stopping_now;
  stopping_gracefully = do_nothing l.stopping_gracefully;
}

pub data Stop : Type 0 where
  now gracefully : Stop

unfoldable pub stop_all : List Stop → LifeCycle → LifeCycle
unfolding stop_gracefully stop_now
stop_all [] l = l
stop_all (now ∷ ss) l = stop_all ss (stop_now l)
stop_all (gracefully ∷ ss) l = stop_all ss (stop_gracefully l)

-- Worker.dispose: the errors of the garbage collector, the plugins, the engine and the temporary
-- storage. If there is one, the worker has stopped now.
abbrev pub is_error : Option Err → Bool
is_error none = false
is_error (some e) = true

unfoldable pub dispose_worker :
    (collected plugin engine storage : Option Err) → LifeCycle → LifeCycle
unfolding do_nothing
dispose_worker collected plugin engine storage l =
    if is_error collected || is_error plugin || is_error engine || is_error storage
    then record l { stopping_now = do_nothing l.stopping_now }
    else l

-- The return of `Start`: whether it is ErrWorkerStoppedNow.
unfoldable pub start_result : (collected plugin engine storage : Option Err) → LifeCycle → Bool
unfolding dispose_worker is_done
start_result collected plugin engine storage l =
    (is_done (dispose_worker collected plugin engine storage l).stopping_now).1

abbrev pub is_now : Stop → Bool
is_now now = true
is_now gracefully = false

-- A Once on which nobody is inside `Do`.
abbrev Settled : Once → Bool → Type 0
Settled o b = ((is_done o).1 ≡ b) × (o.started ≡ b)

do_nothing-Settled : (o : Once) (b : Bool) → Settled o b → Settled (do_nothing o) true
unfolding do_nothing is_done
do_nothing-Settled o b s = ground arith

stop_now-Settled :
    (l : LifeCycle) (b : Bool) → Settled l.stopping_now b → Settled (stop_now l).stopping_now true
unfolding stop_now
stop_now-Settled l b h = do_nothing-Settled l.stopping_now b h

stop_now-Settled_gracefully :
    (l : LifeCycle) (b : Bool)
    → Settled l.stopping_gracefully b
    → Settled (stop_now l).stopping_gracefully true
unfolding stop_now
stop_now-Settled_gracefully l b h = do_nothing-Settled l.stopping_gracefully b h

stop_gracefully-Settled :
    (l : LifeCycle) (b : Bool)
    → Settled l.stopping_now b
    → Settled (stop_gracefully l).stopping_now b
unfolding stop_gracefully
stop_gracefully-Settled l b h = h

stop_gracefully-Settled_gracefully :
    (l : LifeCycle) (b : Bool)
    → Settled l.stopping_gracefully b
    → Settled (stop_gracefully l).stopping_gracefully true
unfolding stop_gracefully
stop_gracefully-Settled_gracefully l b h = do_nothing-Settled l.stopping_gracefully b h

||-true : (a b : Bool) → (a || (true || b)) ≡ true
||-true a b = ground arith

stop_all-Settled :
    (ss : List Stop) (l : LifeCycle) (n g : Bool)
    → Settled l.stopping_now n
    → Settled l.stopping_gracefully g
    → Settled (stop_all ss l).stopping_now (n || any is_now ss)
unfolding stop_all
stop_all-Settled [] l n g a b = ground arith
stop_all-Settled (now ∷ ss) l n g a b =
    subst (Settled (stop_all ss (stop_now l)).stopping_now) (sym (||-true n (any is_now ss))) (
      stop_all-Settled ss (stop_now l) true true (stop_now-Settled l n a)
        (stop_now-Settled_gracefully l g b))
stop_all-Settled (gracefully ∷ ss) l n g a b =
    stop_all-Settled ss (stop_gracefully l) n true (stop_gracefully-Settled l n a)
      (stop_gracefully-Settled_gracefully l g b)

dispose_worker-done :
    (collected plugin engine storage : Option Err) (l : LifeCycle) (b : Bool)
    → Settled l.stopping_now b
    → start_result collected plugin engine storage l
      ≡ (b || is_error collected || is_error plugin || is_error engine || is_error storage)
unfolding start_result dispose_worker is_done
dispose_worker-done c p e s l b h = ground (arith, do_nothing-Settled l.stopping_now b h)

-- However often the worker is told to stop, and in whatever order, Start returns ErrWorkerStoppedNow
-- exactly when StopNow was called or a part of the worker could not be disposed of.
start_result-stop_all :
    (ss : List Stop) (collected plugin engine storage : Option Err)
    → start_result collected plugin engine storage (stop_all ss running) ≡ (
        any is_now ss
        || is_error collected
        || is_error plugin
        || is_error engine
        || is_error storage)
unfolding is_done
start_result-stop_all ss c p e s =
    dispose_worker-done c p e s (stop_all ss running) (any is_now ss)
      (stop_all-Settled ss running false false (refl, refl) (refl, refl))
