-- ===== src/Action.antt =====
-- State and exceptions: a call returns or throws, and either way leaves the state that it has
-- written so far.
use libchromecast.Prelude.{◌≡◌, ap, Bool, if◌then◌else◌}
use libchromecast.Utils.{Error, Result, ok, thrown}

abbrev pub Action : Type 0 → Type 0 → Type 0
Action S A = S → Result A × S

module _ {S : Type 0} where
  abbrev pub pure : {A : Type 0} → A → Action S A
  pure a s = (ok a, s)

  abbrev pub throw : {A : Type 0} → Error → Action S A
  throw e s = (thrown e, s)

  abbrev pub lift : {A : Type 0} → Result A → Action S A
  lift r s = (r, s)

  abbrev pub gets : {A : Type 0} → (S → A) → Action S A
  gets f s = (ok (f s), s)

  abbrev pub modify : (S → S) → Action S (Unit {0})
  modify f s = (ok tt, f s)

infixl 5 ◌>>=◌ ◌>>◌
abbrev pub ◌>>=◌ : {S A B : Type 0} → Action S A → (A → Action S B) → Action S B
◌>>=◌ m f s = let (r, s') = m s in elim r [ ok a ↦ f a s' | thrown e ↦ (thrown e, s') ]

abbrev pub ◌>>◌ : {S B : Type 0} → Action S (Unit {0}) → Action S B → Action S B
m >> k = m >>= λ _. k

abbrev pub when : {S : Type 0} → Bool → Action S (Unit {0}) → Action S (Unit {0})
when b m = if b then m else pure tt

-- A sequence whose first call returns goes on with the next one.
pub >>=-ok :
    {S A B : Type 0} (m : Action S A) (next : A → Action S B) (s s' : S) (a : A)
    → m s ≡ (ok a, s')
    → (m >>= next) s ≡ next a s'
>>=-ok m next s s' a h = rw (◌>>=◌, h) (ap (λ p. next a p.1) h)
