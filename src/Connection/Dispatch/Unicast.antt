-- ===== src/Connection/Dispatch/Unicast.antt =====
-- connection.cpp: ChromecastConnection::OnMessage for a message with one destination.
use libchromecast.Prelude.{
  ℕ, ◌≡◌, ◌≢◌, refl, sym, ap, subst, if◌then◌else◌, true, false, inl, inr, [], ◌∷◌, Option, none,
  some, arith, Bool-cases, Option-cases, str_eq, str_eq_sound,
}
use mathlib.Core.List.{Mem, not-mem-nil, mem-cons, mem-cons_self, mem-cons_of_mem}
use mathlib.Core.Logic.Or
use libchromecast.OrderedMap.{find, irreflexive_false, Above}
use libchromecast.Cast.Address.{Address, less, wildcard}
use libchromecast.Cast.Address.Order.{IsPlain, less-StrictOrder}
use libchromecast.Cast.Message.{CastMessage}
use libchromecast.Connection.Registry.{ChannelMap}
use libchromecast.Connection.Registry.Laws.{IsRegistry, lookup}
use libchromecast.Connection.Dispatch.{Handlers, deliver, on_message}

Above-mem :
    (j k : Address) (p : Option ℕ) (m : ChannelMap)
    → Above less j m
    → Mem (k, p) m
    → less j k ≡ true
Above-mem j k p [] above i = absurd (not-mem-nil i)
Above-mem j k p ((l, q) ∷ m) above i =
    Or.elim (hlevel) (mem-cons.0 i) (λ e. let same : k ≡ l = ap (λ x. x.0) e in rw same above.0)
      λ i'. Above-mem j k p m above.1 i'

-- In a valid map an entry is found under its key.
lookup-mem :
    (k : Address) (p : Option ℕ) (m : ChannelMap)
    → IsPlain k
    → IsRegistry m
    → Mem (k, p) m
    → lookup k m ≡ some p
unfolding find
lookup-mem k p [] plain valid i = absurd (not-mem-nil i)
lookup-mem k p ((j, q) ∷ m) plain valid i =
    Or.elim (hlevel) (mem-cons.0 i)
      (λ e.
        let same : j ≡ k = ap (λ x. x.0) (sym e) in
        let same' : q ≡ p = ap (λ x. x.1) (sym e) in
        rw (same, irreflexive_false less-StrictOrder k plain, same') refl)
      λ i'. rw (Above-mem j k p m valid.1 i') (lookup-mem k p m plain valid.2 i')

-- What is found is an entry of the map.
mem-lookup :
    (k : Address) (p : Option ℕ) (m : ChannelMap)
    → IsPlain k
    → IsRegistry m
    → lookup k m ≡ some p
    → Mem (k, p) m
unfolding find
mem-lookup k p [] plain valid e = absurd (cc)
mem-lookup k p ((j, q) ∷ m) plain valid e = elim (Bool-cases (less j k)) [
  | inl before ↦ mem-cons_of_mem _ (
      mem-lookup k p m plain valid.2 (
        subst (λ b. (if b then lookup k m else if less k j then none else some q) ≡ some p) before
          e))
  | inr not_before ↦ elim (Bool-cases (less k j)) [
    | inl after ↦ absurd (cc)
    | inr not_after ↦
        let key : j ≡ k = less-StrictOrder.connected j k valid.0 plain (λ h. cc) (λ h. cc) in
        let entry : q ≡ p = ground (arith, e) in rw (key, entry) mem-cons_self
  ]
]

-- In a valid map of channels, a message whose destination is not the wildcard, and does not sort
-- before it, goes to the channel that the map holds at exactly its address, once,
-- wherever that entry stands; and to OnUnrecognizedAddress where the map holds no channel at its
-- address, be there no entry or one of a null pointer.
pub on_message-unicast :
    {S : Type 0} (h : Handlers S) (message : CastMessage) (fuel : ℕ) (s : S)
    → message.address.destination ≢ wildcard
    → IsPlain message.address
    → IsRegistry (h.channels s)
    → ((c : ℕ)
        → Mem (message.address, some c) (h.channels s)
        → on_message h fuel message s ≡ some (h.on_message c message s))
      × (((c : ℕ) → ¬ Mem (message.address, some c) (h.channels s))
          → on_message h fuel message s ≡ some (h.on_unrecognized_address message s))
unfolding on_message deliver
on_message-unicast h message fuel s ne plain valid =
    let one : str_eq message.address.destination wildcard ≡ false =
      elim (Bool-cases (str_eq message.address.destination wildcard)) [
        | inl e ↦ absurd (ne (str_eq_sound _ _ e))
        | inr e ↦ e
      ] in
    (
      λ c i. rw (one, lookup-mem message.address (some c) (h.channels s) plain valid i) refl,
      λ absent. elim (Option-cases (lookup message.address (h.channels s))) [
        | inl missing ↦ rw (one, missing) refl
        | inr (none, null) ↦ rw (one, null) refl
        | inr (some c, found) ↦
            absurd (absent c (mem-lookup message.address (some c) (h.channels s) plain valid found))
      ],
    )
