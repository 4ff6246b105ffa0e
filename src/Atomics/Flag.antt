-- ===== src/Atomics/Flag.antt =====
-- runtime/atomics/bool.go. The `int32` that `sync/atomic` loads, stores and swaps.
use taskcluster_worker.Prelude.{
  ℕ, ◌≡◌, refl, Bool, true, false, not, ap, ◌∙◌, List, [], ◌∷◌, arith, ◌==◌, if◌then◌else◌,
}

pub record AtomicBool : Type 0 where
  pub value : ℕ

unfoldable pub new_bool : Bool → AtomicBool
new_bool value = if value then record { value = 1 } else record { value = 0 }

unfoldable pub set_bool : AtomicBool → Bool → AtomicBool
set_bool b value = if value then record b { value = 1 } else record b { value = 0 }

-- The new object, and the old value.
unfoldable pub swap_bool : AtomicBool → Bool → AtomicBool × Bool
swap_bool b value =
    if value
    then (record b { value = 1 }, not (b.value == 0))
    else (record b { value = 0 }, not (b.value == 0))

unfoldable pub get_bool : AtomicBool → Bool
get_bool b = not (b.value == 0)

pub data FlagCall : Type 0 where
  sets swaps : Bool → FlagCall
  gets : FlagCall

-- One call: the object after it, and what it returns (`Set` returns nothing: `false` here).
unfoldable pub flag_step : AtomicBool → FlagCall → AtomicBool × Bool
unfolding set_bool swap_bool get_bool
flag_step b (sets v) = (set_bool b v, false)
flag_step b (swaps v) = swap_bool b v
flag_step b gets = (b, get_bool b)

-- The answers to a sequence of calls, in the order in which the hardware makes them.
unfoldable pub flag_answers : AtomicBool → List FlagCall → List Bool
flag_answers b [] = []
flag_answers b (c ∷ cs) = let (b', r) = flag_step b c in r ∷ flag_answers b' cs

-- A plain variable of type `bool`, the contract of the object.
abbrev register_step : Bool → FlagCall → Bool × Bool
register_step v (sets w) = (w, false)
register_step v (swaps w) = (w, v)
register_step v gets = (v, v)

abbrev pub register_answers : Bool → List FlagCall → List Bool
register_answers v [] = []
register_answers v (c ∷ cs) = let (v', r) = register_step v c in r ∷ register_answers v' cs

flag_step-refines :
    (b : AtomicBool) (c : FlagCall)
    → (get_bool (flag_step b c).0 ≡ (register_step (get_bool b) c).0)
      × ((flag_step b c).1 ≡ (register_step (get_bool b) c).1)
unfolding flag_step
flag_step-refines b (sets true) = (refl, refl)
flag_step-refines b (sets false) = (refl, refl)
flag_step-refines b (swaps true) = (refl, refl)
flag_step-refines b (swaps false) = (refl, refl)
flag_step-refines b gets = (refl, refl)

flag_answers-refines :
    (b : AtomicBool) (cs : List FlagCall) → flag_answers b cs ≡ register_answers (get_bool b) cs
unfolding flag_answers
flag_answers-refines b [] = refl
flag_answers-refines b (c ∷ cs) =
    ground (arith, flag_step-refines b c, flag_answers-refines (flag_step b c).0 cs)

get-new : (v : Bool) → get_bool (new_bool v) ≡ v
unfolding get_bool new_bool
get-new true = refl
get-new false = refl

-- A flag made by `NewBool` answers every sequence of calls as a plain boolean variable does.
pub new_bool-refines :
    (v : Bool) (cs : List FlagCall) → flag_answers (new_bool v) cs ≡ register_answers v cs
new_bool-refines v cs =
    flag_answers-refines (new_bool v) cs ∙ ap (λ w. register_answers w cs) (get-new v)
