-- ===== src/Caching/Conjunction.antt =====
-- runtime/caching/contextconjunction.go. A context is a number; when it is done is a step.
use taskcluster_worker.Prelude.{
  subst, sym, ℕ, zero, suc, ◌+◌, ◌≤◌, ◌<◌, ◌≡◌, ◌⊎◌, ◌↔◌, inl, inr, refl, Bool, true, false, ◌||◌,
  List, [], ◌∷◌, ◌++◌, Option, none, some, arith, if◌then◌else◌, ltb, ◌==◌, length, length-append,
}

-- `err`: that of a context, by the context, or that of a disposal.
pub data Cause : Type 0 where
  context : ℕ → Cause
  canceled : Cause

-- `index` is the loop variable of awaitContexts, and `last` its variable err.
pub record Conjunction : Type 0 where
  pub resolved : Bool
  pub contexts : List ℕ
  pub err : Option Cause
  pub index : ℕ
  pub last : Option Cause

abbrev pub new_conjunction : ℕ → Conjunction
new_conjunction c = record {
  resolved = false;
  contexts = c ∷ [];
  err = none;
  index = 0;
  last = none;
}

unfoldable pub dispose : Conjunction → Conjunction
dispose s = if s.resolved then s else record s { resolved = true; err = some canceled }

-- `AddContext`, with whether the context was added.
unfoldable pub add_context : ℕ → Conjunction → Conjunction × Bool
add_context c s =
    if s.resolved then (s, false) else (record s { contexts = s.contexts ++ c ∷ [] }, true)

abbrev pub nth : ℕ → List ℕ → Option ℕ
nth i [] = none
nth zero (c ∷ cs) = some c
nth (suc i) (c ∷ cs) = nth i cs

-- `awaitContexts` from the return of a select, in which the context was seen done or not, to the
-- next, or to its end.
unfoldable pub go_on : Bool → Conjunction → Conjunction
go_on seen s = elim (nth s.index s.contexts) [
  | none ↦ s
  | some c ↦
      let last : Option Cause = if seen then some (context c) else s.last in
      let t = record s { index = s.index + 1; last = last } in
      if ltb (s.index + 1) (length s.contexts) || s.resolved
      then t
      else record t { resolved = true; err = last }
]

-- The conjunction, and which contexts are done.
pub record Joined : Type 0 where
  pub conj : Conjunction
  pub is_done : ℕ → Bool

abbrev pub done_at : Joined → Option ℕ → Bool
done_at s none = false
done_at s (some c) = s.is_done c

pub data Step (s : Joined) : Joined → Type 0 where
  finishes :
      {t : Joined} (c : ℕ) → t ≡ record s { is_done = λ x. (x == c) || s.is_done x } → Step s t
  adds : {t : Joined} (c : ℕ) → t ≡ record s { conj = (add_context c s.conj).0 } → Step s t
  disposes : {t : Joined} → t ≡ record s { conj = dispose s.conj } → Step s t
  sees_done :
      {t : Joined}
      → done_at s (nth s.conj.index s.conj.contexts) ≡ true
      → t ≡ record s { conj = go_on true s.conj }
      → Step s t
  sees_resolved :
      {t : Joined} → s.conj.resolved ≡ true → t ≡ record s { conj = go_on false s.conj } → Step s t

pub data Reach (c : ℕ) : Joined → Type 0 where
  here : Reach c (record { conj = new_conjunction c; is_done = λ x. false })
  next : {s t : Joined} → Reach c s → Step s t → Reach c t

nth-append : (j c : ℕ) (cs : List ℕ) → j < length cs → nth j (cs ++ c ∷ []) ≡ nth j cs
nth-append j c [] h = absurd (omega arith)
nth-append zero c (d ∷ cs) h = refl
nth-append (suc j) c (d ∷ cs) h = nth-append j c cs (omega arith)

nth-in : (j : ℕ) (cs : List ℕ) → (nth j cs ≡ none) ⊎ (j < length cs)
nth-in j [] = inl refl
nth-in zero (c ∷ cs) = inr (omega arith)
nth-in (suc j) (c ∷ cs) = ground (arith, nth-in j cs)

-- For the context at a position of the list.
record Awaited (s : Joined) (j : ℕ) : Type 0 where
  seen :
      (s.conj.err ≡ some canceled) ⊎ (s.conj.index ≤ j) ⊎ (done_at s (nth j s.conj.contexts) ≡ true)
  inside : s.conj.index ≤ length s.conj.contexts
  over :
      s.conj.resolved ≡ true
      → (s.conj.err ≡ some canceled) ⊎ (s.conj.index ≡ length s.conj.contexts)
  waits : s.conj.resolved ≡ false → (s.conj.index < length s.conj.contexts) × (s.conj.err ≡ none)

still_done :
    (s : Joined) (c : ℕ) (o : Option ℕ)
    → done_at s o ≡ true
    → done_at (record s { is_done = λ x. (x == c) || s.is_done x }) o ≡ true
still_done s c none h = h
still_done s c (some d) h = ground (arith, h)

finish-Awaited :
    (s : Joined) (j c : ℕ)
    → Awaited s j
    → Awaited (record s { is_done = λ x. (x == c) || s.is_done x }) j
finish-Awaited s j c v = record {
  seen = elim v.seen [
    | inl a ↦ inl a
    | inr b ↦
        inr (elim b [ inl d ↦ inl d | inr d ↦ inr (still_done s c (nth j s.conj.contexts) d) ])
  ];
  inside = v.inside;
  over = v.over;
  waits = v.waits;
}

Step-Awaited : {s t : Joined} (j : ℕ) → Step s t → Awaited s j → Awaited t j
unfolding add_context dispose go_on
Step-Awaited {s} j (finishes c e) v = subst (λ u. Awaited u j) (sym e) (finish-Awaited s j c v)
Step-Awaited {s} j (adds c e) v =
    ground (arith, v, e, nth-append j c s.conj.contexts, length-append s.conj.contexts (c ∷ []))
Step-Awaited j (disposes e) v = ground (arith, v, e)
Step-Awaited {s} j (sees_done d e) v = ground (arith, v, e, d, nth-in s.conj.index s.conj.contexts)
Step-Awaited {s} j (sees_resolved d e) v =
    ground (arith, v, e, d, nth-in s.conj.index s.conj.contexts)

Reach-Awaited : (c j : ℕ) {s : Joined} → Reach c s → Awaited s j
Reach-Awaited c j here = ground arith
Reach-Awaited c j (next r st) = Step-Awaited j st (Reach-Awaited c j r)

-- However contexts end, are added and the conjunction is disposed of: it is resolved only by
-- dispose, or when each context that AddContext has let in is done; AddContext adds a context
-- exactly where it is not resolved yet, so that no context is added that is not waited for; and it
-- has an error only if it is resolved.
conjunction_waits :
    (c d j : ℕ) {s : Joined}
    → Reach c s
    → ((s.conj.resolved ≡ false)
        ⊎ (s.conj.err ≡ some canceled)
        ⊎ (length s.conj.contexts ≤ j)
        ⊎ (done_at s (nth j s.conj.contexts) ≡ true))
      × (((add_context d s.conj).1 ≡ true) ↔ (s.conj.resolved ≡ false))
      × ((s.conj.resolved ≡ true) ⊎ (s.conj.err ≡ none))
unfolding add_context
conjunction_waits c d j r =
    let v = Reach-Awaited c j r in
    (ground (arith, v), (λ h. ground (arith, h), λ h. ground (arith, h)), ground (arith, v))
