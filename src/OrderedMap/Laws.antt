-- ===== src/OrderedMap/Laws.antt =====
-- The laws of the map under a comparator that is a strict order.
use libchromecast.Prelude.{
  Bool, true, false, ◌≡◌, ◌≢◌, refl, subst, inl, inr, List, [], ◌∷◌, none, some, arith, Bool-cases,
}
use libchromecast.OrderedMap.Defs.{find, insert, erase, Above, StrictOrder, IsSorted}

module _ {K : Type 0} {Good : K → Type 0} {less : K → K → Bool}
    (order : StrictOrder Good less) where
  pub asymmetric : (a b : K) → Good a → Good b → less a b ≡ true → less b a ≡ false
  asymmetric a b ga gb h = elim (Bool-cases (less b a)) [
    | inl back ↦ absurd (order.irreflexive a ga (order.transitive a b a ga gb ga h back))
    | inr e ↦ e
  ]

  pub irreflexive_false : (a : K) → Good a → less a a ≡ false
  irreflexive_false a ga = elim (Bool-cases (less a a)) [
    | inl h ↦ absurd (order.irreflexive a ga h)
    | inr e ↦ e
  ]

  connected_false : (a b : K) → Good a → Good b → less a b ≡ false → less b a ≡ false → a ≡ b
  connected_false a b ga gb h h' =
      order.connected a b ga gb (λ (t : less a b ≡ true). cc) (λ (t : less b a ≡ true). cc)

module _ {K V : Type 0} {Good : K → Type 0} {less : K → K → Bool}
    (order : StrictOrder Good less) where
  Above-trans :
      (a b : K) (m : List (K × V))
      → Good a
      → Good b
      → IsSorted Good less m
      → less a b ≡ true
      → Above less b m
      → Above less a m
  Above-trans a b [] ga gb s h above = tt
  Above-trans a b ((k, v) ∷ m) ga gb s h above =
      (order.transitive a b k ga gb s.0 h above.0, Above-trans a b m ga gb s.2 h above.1)

  pub find-Above :
      (k : K) (m : List (K × V))
      → Good k
      → IsSorted Good less m
      → Above less k m
      → find less k m ≡ none
  unfolding find
  find-Above k [] gk s above = refl
  find-Above k ((j, v) ∷ m) gk s above = ground (arith, asymmetric order k j gk s.0 above.0)

  pub find-insert_self :
      (k : K) (v : V) (m : List (K × V))
      → Good k
      → IsSorted Good less m
      → find less k (insert less k v m) ≡ some v
  unfolding find insert
  find-insert_self k v [] gk s = ground (arith, irreflexive_false order k gk)
  find-insert_self k v ((j, w) ∷ m) gk s =
      ground (arith, irreflexive_false order k gk, find-insert_self k v m gk s.2)

  pub find-insert_ne :
      (k j : K) (v : V) (m : List (K × V))
      → Good k
      → Good j
      → IsSorted Good less m
      → j ≢ k
      → find less j (insert less k v m) ≡ find less j m
  unfolding find insert
  find-insert_ne k j v [] gk gj s ne = ground (arith, connected_false order j k gj gk)
  find-insert_ne k j v ((i, w) ∷ m) gk gj s ne = ground (
    arith,
    connected_false order j k gj gk,
    connected_false order i k s.0 gk,
    asymmetric order j k gj gk,
    asymmetric order k i gk s.0,
    order.transitive j k i gj gk s.0,
    order.transitive i j k s.0 gj gk,
    find-insert_ne k j v m gk gj s.2 ne,
  )

  Above-insert :
      (a k : K) (v : V) (m : List (K × V))
      → less a k ≡ true
      → Above less a m
      → Above less a (insert less k v m)
  unfolding insert
  Above-insert a k v [] h above = (h, tt)
  Above-insert a k v ((j, w) ∷ m) h above = ground (arith, Above-insert a k v m h above.1)

  pub insert-IsSorted :
      (k : K) (v : V) (m : List (K × V))
      → Good k
      → IsSorted Good less m
      → IsSorted Good less (insert less k v m)
  unfolding insert
  insert-IsSorted k v [] gk s = (gk, tt, tt)
  insert-IsSorted k v ((j, w) ∷ m) gk s =
      ground
        (arith, Above-insert j k v m, Above-trans k j m gk s.0 s.2, insert-IsSorted k v m gk s.2)

  Above-erase : (a k : K) (m : List (K × V)) → Above less a m → Above less a (erase less k m)
  unfolding erase
  Above-erase a k [] above = tt
  Above-erase a k ((j, w) ∷ m) above = ground (arith, Above-erase a k m above.1)

  pub erase-IsSorted :
      (k : K) (m : List (K × V)) → IsSorted Good less m → IsSorted Good less (erase less k m)
  unfolding erase
  erase-IsSorted k [] s = tt
  erase-IsSorted k ((j, w) ∷ m) s = ground (arith, Above-erase j k m s.1, erase-IsSorted k m s.2)

  pub find-erase_self :
      (k : K) (m : List (K × V))
      → Good k
      → IsSorted Good less m
      → find less k (erase less k m) ≡ none
  unfolding find erase
  find-erase_self k [] gk s = refl
  find-erase_self k ((j, w) ∷ m) gk s = elim (Bool-cases (less j k)) [
    | inl before ↦ rw before (rw before (find-erase_self k m gk s.2))
    | inr e ↦ elim (Bool-cases (less k j)) [
      | inl after ↦ rw (e, after) (rw (e, after))
      | inr e' ↦
          rw (e, e')
            (find-Above k m gk s.2
              (subst (λ x. Above less x m) (connected_false order j k s.0 gk e e') s.1))
    ]
  ]

  pub find-erase_ne :
      (k j : K) (m : List (K × V))
      → Good k
      → Good j
      → IsSorted Good less m
      → j ≢ k
      → find less j (erase less k m) ≡ find less j m
  unfolding find erase
  find-erase_ne k j [] gk gj s ne = refl
  find-erase_ne k j ((i, w) ∷ m) gk gj s ne = ground (
    arith,
    connected_false order i k s.0 gk,
    connected_false order j k gj gk,
    asymmetric order j k gj gk,
    Above-trans j i m gj s.0 s.2,
    find-Above j m gj s.2,
    find-erase_ne k j m gk gj s.2 ne,
  )

  -- Taking out what was put in gives the map back.
  pub erase-insert :
      (k : K) (v : V) (m : List (K × V))
      → Good k
      → IsSorted Good less m
      → find less k m ≡ none
      → erase less k (insert less k v m) ≡ m
  unfolding find insert erase
  erase-insert k v [] gk s absent = ground (arith, irreflexive_false order k gk)
  erase-insert k v ((j, w) ∷ m) gk s absent =
      ground (
        arith,
        irreflexive_false order k gk,
        asymmetric order k j gk s.0,
        erase-insert k v m gk s.2,
      )
