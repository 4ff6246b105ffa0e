-- ===== src/Plugins/Volumes.antt =====
-- plugins/cache/cache.go: the volumes of a task. A handle of a cache is a number; what the fetcher,
-- the caches and the sandbox builder answer are arguments.
use taskcluster_worker.Prelude.{
  ℕ, ◌+◌, Bool, true, false, not, ◌&&◌, List, [], ◌∷◌, ◌++◌, Option, none, some, if◌then◌else◌,
  String,
}
use taskcluster_worker.Errors.{
  Err, fatal_internal, non_fatal_internal, malformed_payload, malformed_messages, merge_if_any,
  other,
}

-- One entry of the payload, by what `getVolume` finds: it has a name or not, whose scope the task
-- has or not; and its data to be loaded, which NewReference refuses with an error, by
-- IsBrokenReferenceError or not, or which is there, its scopes covered or not.
pub data Preload : Type 0 where
  no_preload : Preload
  refused : Bool → Err → Preload
  refers : Bool → Preload

pub record Entry : Type 0 where
  pub is_named : Bool
  pub has_scope : Bool
  pub preload : Preload
  -- What Require of the cache answers, the exclusive one where there is a name, and else the shared.
  pub exclusive : ℕ × Option Err
  pub shared : ℕ × Option Err

abbrev answer : ℕ × Option Err → Option ℕ × Option Err
answer (h, none) = (some h, none)
answer (h, some e) = (none, some e)

unfoldable pub get_volume : Entry → Option ℕ × Option Err
get_volume e =
    let got = answer (if e.is_named then e.exclusive else e.shared) in
    if e.is_named && not e.has_scope then (none, some (malformed_payload [])) else elim e.preload [
      | no_preload ↦ got
      | refused broken err ↦ (none, some (if broken then malformed_payload [] else other 0))
      | refers covered ↦ if covered then got else (none, some (malformed_payload []))
    ]

-- The task plugin: its handles, its error, and whether `cachesDisposed` has run.
pub record Volumes : Type 0 where
  pub handles : List (Option ℕ)
  pub caches_error : Option Err
  pub caches_disposed : Bool

-- The messages of the malformed payloads, in order.
abbrev pub malformed_of : List (Option Err) → List (List String)
malformed_of [] = []
malformed_of (e ∷ es) =
    let rest = malformed_of es in elim (malformed_messages e) [ none ↦ rest | some m ↦ m ∷ rest ]

abbrev pub is_internal : Option Err → Bool
is_internal none = false
is_internal (some (malformed_payload ms)) = false
is_internal (some e) = true

-- The loop over the errors; `canceled` says whether the context has an error when one is looked at.
unfoldable pub internal_error : ℕ → (ℕ → Bool) → List (Option Err) → Option Err → Option Err
internal_error i canceled [] acc = acc
internal_error i canceled (e ∷ es) acc =
    internal_error (i + 1) canceled es
      (if is_internal e && not (canceled i) then some non_fatal_internal else acc)

-- The release of all handles, of which those that are there are released.
abbrev pub present : List (Option ℕ) → List ℕ
present [] = []
present (none ∷ hs) = present hs
present (some h ∷ hs) = h ∷ present hs

abbrev pub cleared : List (Option ℕ) → List (Option ℕ)
cleared [] = []
cleared (h ∷ hs) = none ∷ cleared hs

unfoldable pub release_all : Volumes → Volumes × List ℕ
release_all v =
    if v.caches_disposed
    then (v, [])
    else (record v { handles = cleared v.handles; caches_disposed = true }, present v.handles)

abbrev pub firsts : List (Option ℕ × Option Err) → List (Option ℕ)
firsts [] = []
firsts ((h, e) ∷ rs) = h ∷ firsts rs

abbrev pub errors_of : List (Option ℕ × Option Err) → List (Option Err)
errors_of [] = []
errors_of ((h, e) ∷ rs) = e ∷ errors_of rs

-- `getCaches`, with the volumes that getVolume has got, the context's errors while it looks at
-- theirs, and its error at the end; with the handles that it releases.
unfoldable pub get_caches :
    List (Option ℕ × Option Err) → (ℕ → Bool) → Option Err → Volumes × List ℕ
unfolding release_all internal_error
get_caches got canceled ctx_err =
    let internal = internal_error 0 canceled (errors_of got) none in
    let own : Option Err = elim internal [
      | none ↦ merge_if_any (malformed_of (errors_of got))
      | some e ↦ some e
    ] in
    let err : Option Err = elim ctx_err [ none ↦ own | some e ↦ some e ] in
    let v : Volumes = record {
      handles = firsts got;
      caches_error = err;
      caches_disposed = false;
    } in
    elim err [ none ↦ (v, []) | some e ↦ release_all v ]

-- `BuildSandbox` behind the wait: what AttachVolume answers for each entry.
pub data Attached : Type 0 where
  attaches fails_fatal fails_non_fatal mutable_not_supported immutable_not_supported
        naming_conflict :
      Attached
  feature_not_supported fails : Attached
  malformed : List String → Attached

-- The error behind the switch, and the internal error with it.
unfoldable pub judge : Attached → Option Err → Option (List String) × Option Err
judge attaches acc = (none, acc)
judge fails_fatal acc = (none, some fatal_internal)
judge fails_non_fatal acc = (none, elim acc [ none ↦ some non_fatal_internal | some e ↦ some e ])
judge mutable_not_supported acc = (some [], acc)
judge immutable_not_supported acc = (some [], acc)
judge naming_conflict acc = (some [], acc)
judge feature_not_supported acc = (some [], acc)
judge fails acc = (none, some fatal_internal)
judge (malformed ms) acc = (some ms, acc)

abbrev pub heard : Option (List String) → List (List String) → List (List String)
heard none ms = ms
heard (some m) ms = ms ++ m ∷ []

unfoldable pub attach : List Attached → Option Err → List (List String) → Option Err
unfolding judge
attach [] internal ms = elim internal [ none ↦ merge_if_any ms | some e ↦ some e ]
attach (a ∷ as') internal ms = let (m, i) = judge a internal in attach as' i (heard m ms)

unfoldable pub build_sandbox : Volumes → List Attached → Option Err
unfolding attach
build_sandbox v as' = elim v.caches_error [ none ↦ attach as' none [] | some e ↦ some e ]
