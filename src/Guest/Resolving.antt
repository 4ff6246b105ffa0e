-- ===== src/Guest/Resolving.antt =====
-- engines/qemu/metaservice/metaservice.go: handleSuccess, handleFailed, and the guard of methods.
use taskcluster_worker.Prelude.{
  ◌≡◌, Bool, true, false, not, List, [], ◌∷◌, Option, none, some, arith, if◌then◌else◌,
}

pub record MetaService : Type 0 where
  pub resolved : Bool
  pub result : Bool

abbrev pub new_service : MetaService
new_service = record { resolved = false; result = false }

pub data Method : Type 0 where
  get put post : Method

pub data Status : Type 0 where
  ok conflict method_not_allowed : Status

abbrev pub is_put : Method → Bool
is_put put = true
is_put _ = false

-- The reply, and what the callback is called with, if it is.
pub record Handled : Type 0 where
  pub status : Status
  pub calls_back : Option Bool

-- The two handlers, which differ in what they report.
unfoldable pub handle_success : Method → MetaService → MetaService × Handled
handle_success method s =
    let t = (if s.resolved then s else record s { resolved = true; result = true }) in
    if is_put method
    then (if t.result
        then (t, record { status = ok; calls_back = if s.resolved then none else some true })
        else (t, record { status = conflict; calls_back = none }))
    else (s, record { status = method_not_allowed; calls_back = none })

unfoldable pub handle_failed : Method → MetaService → MetaService × Handled
handle_failed method s =
    let t = (if s.resolved then s else record s { resolved = true; result = false }) in
    if is_put method
    then (if t.result
        then (t, record { status = conflict; calls_back = none })
        else (t, record { status = ok; calls_back = if s.resolved then none else some false }))
    else (s, record { status = method_not_allowed; calls_back = none })

-- A request: its method, and whether it is for the end-point of success.
unfoldable pub handle : Method × Bool → MetaService → MetaService × Handled
unfolding handle_success handle_failed
handle (method, success) s = if success then handle_success method s else handle_failed method s

-- What all requests are answered, and what the callback was called with, in order.
unfoldable pub handle_all : List (Method × Bool) → MetaService → List Status × List Bool
handle_all [] s = ([], [])
handle_all (r ∷ rs) s =
    let (t, h) = handle r s in
    let (statuses, calls) = handle_all rs t in
    (h.status ∷ statuses, elim h.calls_back [ none ↦ calls | some b ↦ b ∷ calls ])

-- Independently of the handlers: the first report by PUT counts, and later ones must agree with it.
abbrev pub same : Bool → Bool → Bool
same true b = b
same false b = not b

unfoldable pub answers : Option Bool → List (Method × Bool) → List Status
answers first [] = []
answers first ((method, b) ∷ rs) =
    if is_put method
    then (elim first [
      | none ↦ ok ∷ answers (some b) rs
      | some f ↦ (if same f b then ok else conflict) ∷ answers (some f) rs
    ])
    else method_not_allowed ∷ answers first rs

unfoldable pub first_report : List (Method × Bool) → Option Bool
first_report [] = none
first_report ((method, b) ∷ rs) =
    let rest = first_report rs in if is_put method then some b else rest

abbrev pub known : MetaService → Option Bool
known s = if s.resolved then some s.result else none

abbrev pub to_list : Option Bool → List Bool
to_list none = []
to_list (some b) = b ∷ []

abbrev still_open : MetaService → Option Bool → List Bool
still_open s first = if s.resolved then [] else to_list first

handle_all_from :
    (rs : List (Method × Bool)) (s : MetaService)
    → ((handle_all rs s).0 ≡ answers (known s) rs)
      × ((handle_all rs s).1 ≡ still_open s (first_report rs))
unfolding handle_all answers first_report handle
handle_all_from [] s = ground arith
handle_all_from (r ∷ rs) s = ground (arith, handle_all_from rs (handle r s).0)

-- Of all requests that report success or failure, in any order and with any methods, the first that
-- is a PUT decides: the callback is called exactly once, with what it reports, or never if there is
-- none; later ones are answered 200 if they agree with it and 409 if they do not, and a wrong method
-- is answered 405 and changes nothing.
pub first_report_decides :
    (rs : List (Method × Bool))
    → handle_all rs new_service ≡ (answers none rs, to_list (first_report rs))
first_report_decides rs = ground (arith, handle_all_from rs new_service)
