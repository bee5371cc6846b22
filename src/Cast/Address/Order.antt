-- ===== src/Cast/Address/Order.antt =====
-- operator< on addresses: a strict order on those whose destination does not sort before the
-- wildcard.
use libchromecast.Prelude.{
  Bool, true, false, ◌≡◌, ◌≢◌, refl, sym, ℤ, pos, negsuc, [], ◌∷◌, Bytes, str_eq, str_compare,
  Ordering, arith,
}
use libchromecast.OrderedMap.{StrictOrder}
use libchromecast.Cast.Address.{Address, wildcard, is_negative, less_by, less}

abbrev flip : Ordering → Ordering
flip Ordering.lt = Ordering.gt
flip Ordering.eq = Ordering.eq
flip Ordering.gt = Ordering.lt

str_compare_refl : (a : Bytes) → str_compare a a ≡ Ordering.eq
unfolding str_compare
str_compare_refl [] = refl
str_compare_refl (x ∷ a) = ground (arith, str_compare_refl a)

str_compare-flip : (a b : Bytes) → str_compare b a ≡ flip (str_compare a b)
unfolding str_compare
str_compare-flip [] [] = refl
str_compare-flip [] (y ∷ b) = refl
str_compare-flip (x ∷ a) [] = refl
str_compare-flip (x ∷ a) (y ∷ b) = ground (arith, str_compare-flip a b)

str_compare_sound : (a b : Bytes) → str_compare a b ≡ Ordering.eq → a ≡ b
unfolding str_compare
str_compare_sound [] [] h = refl
str_compare_sound [] (y ∷ b) h = absurd (cc)
str_compare_sound (x ∷ a) [] h = absurd (cc)
str_compare_sound (x ∷ a) (y ∷ b) h = ground (arith, str_compare_sound a b)

str_compare_trans :
    (a b c : Bytes)
    → str_compare a b ≡ Ordering.lt
    → str_compare b c ≡ Ordering.lt
    → str_compare a c ≡ Ordering.lt
unfolding str_compare
str_compare_trans [] [] c h k = absurd (cc)
str_compare_trans [] (y ∷ b) [] h k = absurd (cc)
str_compare_trans [] (y ∷ b) (z ∷ c) h k = refl
str_compare_trans (x ∷ a) [] c h k = absurd (cc)
str_compare_trans (x ∷ a) (y ∷ b) [] h k = absurd (cc)
str_compare_trans (x ∷ a) (y ∷ b) (z ∷ c) h k = ground (arith, str_compare_trans a b c)

abbrev is_zero : Ordering → Bool
is_zero Ordering.eq = true
is_zero _ = false

str_eq-compare : (a b : Bytes) → str_eq a b ≡ is_zero (str_compare a b)
unfolding str_eq str_compare
str_eq-compare [] [] = refl
str_eq-compare [] (y ∷ b) = refl
str_eq-compare (x ∷ a) [] = refl
str_eq-compare (x ∷ a) (y ∷ b) = ground (arith, str_eq-compare a b)

-- The destination does not sort before the wildcard.
abbrev pub IsPlain : Address → Type 0
IsPlain a = str_compare a.destination wildcard ≢ Ordering.lt

-- The order by source, then namespace, then destination.
abbrev then_by : Ordering → Ordering → Ordering
then_by Ordering.eq next = next
then_by o next = o

lexical : Address → Address → Ordering
lexical a b =
    then_by (str_compare a.source b.source)
      (then_by (str_compare a.namespace b.namespace) (str_compare a.destination b.destination))

less-lexical : (a b : Address) → IsPlain a → IsPlain b → less a b ≡ is_negative (lexical a b)
unfolding less lexical
less-lexical a b pa pb = ground (
  arith,
  str_eq-compare a.destination wildcard,
  str_eq-compare b.destination wildcard,
  str_compare-flip b.destination wildcard,
  str_compare_sound a.destination wildcard,
)

lexical_refl : (a : Address) → lexical a a ≡ Ordering.eq
unfolding lexical
lexical_refl a =
    ground (
      arith,
      str_compare_refl a.source,
      str_compare_refl a.namespace,
      str_compare_refl a.destination,
    )

lexical-flip : (a b : Address) → lexical b a ≡ flip (lexical a b)
unfolding lexical
lexical-flip a b = ground (
  arith,
  str_compare-flip a.source b.source,
  str_compare-flip a.namespace b.namespace,
  str_compare-flip a.destination b.destination,
)

lexical_sound : (a b : Address) → lexical a b ≡ Ordering.eq → a ≡ b
unfolding lexical
lexical_sound a b h = ground (
  arith,
  str_compare_sound a.source b.source,
  str_compare_sound a.namespace b.namespace,
  str_compare_sound a.destination b.destination,
)

lexical_trans :
    (a b c : Address)
    → lexical a b ≡ Ordering.lt
    → lexical b c ≡ Ordering.lt
    → lexical a c ≡ Ordering.lt
unfolding lexical
lexical_trans a b c h k = ground (
  arith,
  str_compare_sound a.source b.source,
  str_compare_sound b.source c.source,
  str_compare_trans a.source b.source c.source,
  str_compare_sound a.namespace b.namespace,
  str_compare_sound b.namespace c.namespace,
  str_compare_trans a.namespace b.namespace c.namespace,
  str_compare_trans a.destination b.destination c.destination,
)

-- On the addresses whose destination does not sort before "*", operator< is a strict order of
-- which only equal addresses are unrelated, as std::map asks of its comparator.
pub less-StrictOrder : StrictOrder IsPlain less
less-StrictOrder = record {
  irreflexive = λ a pa h. ground (arith, less-lexical a a pa pa, lexical_refl a);
  transitive = λ a b c pa pb pc h k. ground (
    arith,
    less-lexical a b pa pb,
    less-lexical b c pb pc,
    less-lexical a c pa pc,
    lexical_trans a b c,
  );
  connected = λ a b pa pb h k.
      ground (
        arith,
        less-lexical a b pa pb,
        less-lexical b a pb pa,
        lexical-flip a b,
        lexical_sound a b,
      );
}

-- Over a library whose std::string::compare never gives -1, but other numbers below 0, as the
-- standard lets it, addresses with different sources are not ordered either way.
less_by-unordered :
    (compare : Bytes → Bytes → ℤ) (a b : Address)
    → ((s t : Bytes) → compare s t ≢ negsuc 0)
    → ((s t : Bytes) → s ≢ t → compare s t ≢ pos 0)
    → a.source ≢ b.source
    → (less_by compare a b ≡ false) × (less_by compare b a ≡ false)
less_by-unordered compare a b never distinct ne = (
  ground (arith, never a.source b.source, distinct a.source b.source),
  ground (
    arith,
    never b.source a.source,
    distinct b.source a.source,
    λ (e : b.source ≡ a.source). sym e,
  ),
)

-- Below the wildcard the order breaks: an address whose destination sorts before "*" and the
-- address of the same source and namespace with the wildcard each come before the other.
pub less_both_ways :
    (a b : Address)
    → a.source ≡ b.source
    → a.namespace ≡ b.namespace
    → a.destination ≡ wildcard
    → str_compare b.destination wildcard ≡ Ordering.lt
    → (less a b ≡ true) × (less b a ≡ true)
unfolding less
less_both_ways a b es en ed h = ground (
  arith,
  str_compare_refl a.source,
  str_compare_refl a.namespace,
  str_eq-compare a.destination wildcard,
  str_compare_refl wildcard,
  str_eq-compare b.destination wildcard,
)
