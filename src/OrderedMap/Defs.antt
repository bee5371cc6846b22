-- ===== src/OrderedMap/Defs.antt =====
-- The operations of std::map that the sources use, for any comparator.
use libchromecast.Prelude.{Bool, true, ◌≡◌, List, [], ◌∷◌, Option, none, some, if◌then◌else◌, All}

module _ {K : Type 0} {V : Type 0} (less : K → K → Bool) where
  unfoldable pub find : K → List (K × V) → Option V
  find k [] = none
  find k ((j, v) ∷ m) = if less j k then find k m else if less k j then none else some v

  -- `m[k] = v`
  unfoldable pub insert : K → V → List (K × V) → List (K × V)
  insert k v [] = (k, v) ∷ []
  insert k v ((j, w) ∷ m) =
      if less j k
      then (j, w) ∷ insert k v m
      else if less k j
      then (k, v) ∷ (j, w) ∷ m
      else (j, v) ∷ m

  -- `m.erase(m.find(k))`, for a key that is there
  unfoldable pub erase : K → List (K × V) → List (K × V)
  erase k [] = []
  erase k ((j, w) ∷ m) = if less j k then (j, w) ∷ erase k m else if less k j then (j, w) ∷ m else m

  -- Every key of the map comes after `k`.
  abbrev pub Above : K → List (K × V) → Type 0
  Above k = All (λ e. less k e.0 ≡ true)

-- What std::map asks of its comparator, on the keys that are `Good`.
pub record StrictOrder {K : Type 0} (Good : K → Type 0) (less : K → K → Bool) : Type 0 where
  pub irreflexive : (a : K) → Good a → ¬ (less a a ≡ true)
  pub transitive :
      (a b c : K) → Good a → Good b → Good c → less a b ≡ true → less b c ≡ true → less a c ≡ true
  pub connected : (a b : K) → Good a → Good b → ¬ (less a b ≡ true) → ¬ (less b a ≡ true) → a ≡ b

-- The entries are in strict order, and their keys are good.
abbrev pub IsSorted : {K V : Type 0} → (K → Type 0) → (K → K → Bool) → List (K × V) → Type 0
IsSorted Good less [] = Unit {0}
IsSorted Good less ((k, v) ∷ m) = Good k × Above less k m × IsSorted Good less m
