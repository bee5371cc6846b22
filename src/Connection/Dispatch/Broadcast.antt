-- ===== src/Connection/Dispatch/Broadcast.antt =====
-- The loop of ChromecastConnection::OnMessage reaches every channel of the namespace and source,
-- once and in the order of the map.
use libchromecast.Prelude.{
  ℕ, zero, suc, ◌<◌, ◌≡◌, ◌≢◌, refl, sym, ap, ◌∙◌, subst, true, false, inl, inr, List, [], ◌∷◌,
  ◌++◌, Option, none, some, if◌then◌else◌, arith, length, All, All-middle, append_assoc, Bool-cases,
  str_eq, str_eq_sound, str_eq_refl, ◌↔◌,
}
use mathlib.Core.List.{Mem, Mem-prop, not-mem-nil, mem-cons, mem-cons_self, mem-cons_of_mem}
use mathlib.Core.Logic.{∥∥₁_map, ∥∥₁_elim, ∥∥₁_prop}
use mathlib.Core.Logic.Or
use libchromecast.Utils.{Result, ok, thrown}
use libchromecast.Action.{Action, pure, ◌>>◌}
use libchromecast.OrderedMap.{irreflexive_false, asymmetric, Above}
use libchromecast.Cast.Address.{Address, less, wildcard}
use libchromecast.Cast.Address.Order.{IsPlain, less-StrictOrder}
use libchromecast.Cast.Message.{CastMessage}
use libchromecast.Connection.Registry.{ChannelMap}
use libchromecast.Connection.Registry.Laws.{IsRegistry}
use libchromecast.Connection.Dispatch.{
  Handlers, advance, begin, skips, after_call, broadcast, on_message,
}

-- The channels that a broadcast is meant for.
unfoldable pub recipients : CastMessage → ChannelMap → List ℕ
recipients message [] = []
recipients message ((k, none) ∷ m) = recipients message m
recipients message ((k, some c) ∷ m) =
    if skips k message then recipients message m else c ∷ recipients message m

-- No null pointer is registered.
abbrev pub HasNoNull : ChannelMap → Type 0
HasNoNull = All (λ e. e.1 ≢ none)

advance_head :
    (k : Address) (p : Option ℕ) (m : ChannelMap)
    → Above less k m
    → IsPlain k
    → advance k ((k, p) ∷ m) ≡ begin m
unfolding advance
advance_head k p [] above plain = ground (arith, irreflexive_false less-StrictOrder k plain)
advance_head k p (e ∷ m) above plain = ground (arith, irreflexive_false less-StrictOrder k plain)

middle-IsPlain :
    (before : ChannelMap) (k : Address) (p : Option ℕ) (m : ChannelMap)
    → IsRegistry (before ++ (k, p) ∷ m)
    → IsPlain k
middle-IsPlain [] k p m valid = valid.0
middle-IsPlain (_ ∷ before) k p m valid = middle-IsPlain before k p m valid.2

-- The successor of an entry is the entry behind it.
advance_middle :
    (before : ChannelMap) (k : Address) (p : Option ℕ) (m : ChannelMap)
    → IsRegistry (before ++ (k, p) ∷ m)
    → advance k (before ++ (k, p) ∷ m) ≡ begin m
unfolding advance
advance_middle [] k p m valid = advance_head k p m valid.1 valid.0
advance_middle ((j, q) ∷ before) k p m valid =
    rw
      (asymmetric less-StrictOrder j k valid.0 (middle-IsPlain before k p m valid.2)
        (All-middle (λ e. less j e.0 ≡ true) before (k, p) m valid.1))
      (advance_middle before k p m valid.2)

module _ {S : Type 0} (h : Handlers S) (message : CastMessage) where
  -- The calls in order, up to one that throws.
  unfoldable pub visit : List ℕ → Action S (Unit {0})
  visit [] = pure tt
  visit (c ∷ cs) = h.on_message c message >> visit cs

  -- The channels leave the map of channels as it is.
  abbrev pub KeepsChannels : Type 0
  KeepsChannels = (c : ℕ) (s : S) → h.channels (h.on_message c message s).1 ≡ h.channels s

  after_call-visit :
      (cs : List ℕ) (o : Result (Unit {0}) × S) (rest : S → Option (Result (Unit {0}) × S)) (s : S)
      → rest o.1 ≡ some (visit cs o.1)
      → after_call h rest o ≡ some (((λ _. o) >> visit cs) s)
  after_call-visit cs (ok _, s') rest s e = e
  after_call-visit cs (thrown x, s') rest s e = refl

  broadcast-visit :
      KeepsChannels
      → (fuel : ℕ) (before after : ChannelMap) (s : S) → h.channels s ≡ before ++ after
      → IsRegistry (before ++ after)
      → HasNoNull after
      → length after < fuel
      → broadcast h fuel (begin after) message s ≡ some (visit (recipients message after) s)
  unfolding broadcast visit recipients
  broadcast-visit keeps fuel before [] s e valid nonnull enough = refl
  broadcast-visit keeps zero before (x ∷ after) s e valid nonnull enough = absurd (omega arith)
  broadcast-visit keeps (suc fuel) before ((k, none) ∷ after) s e valid nonnull enough =
      absurd (nonnull.0 refl)
  broadcast-visit keeps (suc fuel) before ((k, some c) ∷ after) s e valid nonnull enough =
      elim (Bool-cases (skips k message)) [
        | inl skip ↦
            rw (skip, broadcast, e, advance_middle before k (some c) after valid)
              (broadcast-visit keeps fuel (before ++ (k, some c) ∷ []) after s
                (e ∙ sym (append_assoc before ((k, some c) ∷ []) after))
                (subst IsRegistry (sym (append_assoc before ((k, some c) ∷ []) after)) valid)
                nonnull.1 (omega arith))
        | inr stay ↦
            rw (stay, broadcast)
              (after_call-visit (recipients message after) (h.on_message c message s) _ s (
                rw (keeps c s, e, advance_middle before k (some c) after valid)
                  (broadcast-visit keeps fuel (before ++ (k, some c) ∷ []) after
                    (h.on_message c message s).1
                    (keeps c s ∙ (e ∙ sym (append_assoc before ((k, some c) ∷ []) after)))
                    (subst IsRegistry (sym (append_assoc before ((k, some c) ∷ []) after)) valid)
                    nonnull.1 (omega arith))))
      ]

IsFor : CastMessage → ℕ → ChannelMap → Type 0
IsFor message c m = ∥ (
    (k : Address) × Mem (k, some c) m
    × (k.namespace ≡ message.address.namespace)
    × (k.source ≡ message.address.source)) ∥₁

stays_iff :
    (k : Address) (message : CastMessage)
    → (skips k message ≡ false)
      ↔ ((k.namespace ≡ message.address.namespace) × (k.source ≡ message.address.source))
stays_iff k message = (
  λ e. ground (
    arith,
    str_eq_sound k.namespace message.address.namespace,
    str_eq_sound k.source message.address.source,
  ),
  λ (n, s).
      rw (n, s)
        (ground (arith, str_eq_refl message.address.namespace, str_eq_refl message.address.source)),
)

recipients_sound :
    (message : CastMessage) (c : ℕ) (m : ChannelMap)
    → Mem c (recipients message m)
    → IsFor message c m
unfolding recipients IsFor
recipients_sound message c [] h = absurd (not-mem-nil h)
recipients_sound message c ((k, none) ∷ m) h =
    ∥∥₁_map (recipients_sound message c m h) λ (j, i, n, s). (j, mem-cons_of_mem _ i, n, s)
recipients_sound message c ((k, some d) ∷ m) h = elim (Bool-cases (skips k message)) [
  | inl skip ↦
      ∥∥₁_map
        (recipients_sound message c m (
          subst (λ b. Mem c (if b then recipients message m else d ∷ recipients message m)) skip h))
        λ (j, i, n, s). (j, mem-cons_of_mem _ i, n, s)
  | inr stay ↦
      Or.elim ∥∥₁_prop
        (mem-cons.0 (
          subst (λ b. Mem c (if b then recipients message m else d ∷ recipients message m)) stay h))
        (λ e. let (n, s) = (stays_iff k message).0 stay in ∣ (k, rw e mem-cons_self, n, s) ∣₁)
        (λ i.
          ∥∥₁_map (recipients_sound message c m i) λ (j, i', n, s). (j, mem-cons_of_mem _ i', n, s))
]

recipients_complete :
    (message : CastMessage) (c : ℕ) (m : ChannelMap) (k : Address)
    → Mem (k, some c) m
    → k.namespace ≡ message.address.namespace
    → k.source ≡ message.address.source
    → Mem c (recipients message m)
unfolding recipients
recipients_complete message c [] k i n s = absurd (not-mem-nil i)
recipients_complete message c ((j, none) ∷ m) k i n s =
    Or.elim Mem-prop (mem-cons.0 i) (λ e. absurd (cc))
      λ i'. recipients_complete message c m k i' n s
recipients_complete message c ((j, some d) ∷ m) k i n s =
    let later = λ (i' : Mem (k, some c) m). recipients_complete message c m k i' n s in
    elim (Bool-cases (skips j message)) [
      | inl skip ↦ rw skip (
          Or.elim Mem-prop (mem-cons.0 i)
            (λ e. absurd (cc ((stays_iff k message).1 (n, s), ap (λ x. skips x.0 message) e)))
            later)
      | inr stay ↦ rw stay (
          Or.elim Mem-prop (mem-cons.0 i) (λ e. let same : c ≡ d = cc in rw same mem-cons_self)
            λ i'. mem-cons_of_mem _ (later i'))
    ]

-- With a valid map of channels without null pointers, more fuel than it has entries, and channels
-- that leave it alone, a broadcast calls some channels in order up to one that throws: exactly
-- those registered under an address with the namespace and source of the message, whatever the
-- destination of that address.
pub on_message-broadcast :
    {S : Type 0} (h : Handlers S) (message : CastMessage) (fuel : ℕ) (s : S)
    → message.address.destination ≡ wildcard
    → KeepsChannels h message
    → IsRegistry (h.channels s)
    → HasNoNull (h.channels s)
    → length (h.channels s) < fuel
    → (cs : List ℕ) × (on_message h fuel message s ≡ some (visit h message cs s))
      × ((c : ℕ)
          → Mem c cs
            ↔ ∥ (
                (k : Address) × Mem (k, some c) (h.channels s)
                × (k.namespace ≡ message.address.namespace)
                × (k.source ≡ message.address.source)) ∥₁)
unfolding on_message IsFor
on_message-broadcast h message fuel s star keeps valid nonnull enough = (
  recipients message (h.channels s),
  rw (subst (λ d. str_eq d wildcard ≡ true) (sym star) (str_eq_refl wildcard))
      (broadcast-visit h message keeps fuel [] (h.channels s) s refl valid nonnull enough),
  λ c. (
    recipients_sound message c (h.channels s),
    λ t. ∥∥₁_elim t Mem-prop λ (k, i, n, e). recipients_complete message c (h.channels s) k i n e,
  ),
)
