-- ===== src/Proto/AuthResponse/Accessors/Laws.antt =====
-- google_cast_message.h: the accessors of the repeated field of AuthResponse are those of an array.
use libchromecast.Prelude.{
  ℕ, zero, suc, ◌+◌, ◌<◌, ◌≡◌, ◌≢◌, refl, List, [], ◌∷◌, ◌++◌, Bytes, some, length, get_elem?,
  length-append, arith, ap,
}
use mathlib.Core.Option
use libchromecast.Proto.AuthResponse.{AuthResponse}
use libchromecast.Proto.AuthResponse.Accessors.{assign_at, put_certificates, certificates_accessors}

-- What assign_at leaves at each place.
assign_at-elems :
    (i : ℕ) (value : Bytes) (ss : List Bytes)
    → i < length ss
    → (out : List Bytes) × (assign_at i value ss ≡ some out)
      × (length out ≡ length ss)
      × (get_elem? out i ≡ some value)
      × ((j : ℕ) → j ≢ i → get_elem? out j ≡ get_elem? ss j)
unfolding assign_at
assign_at-elems i value [] h = absurd (omega arith)
assign_at-elems zero value (s ∷ rest) h = (value ∷ rest, refl, refl, refl, others)
  where
    others : (j : ℕ) → j ≢ zero → get_elem? (value ∷ rest) j ≡ get_elem? (s ∷ rest) j
    others zero ne = absurd (ne refl)
    others (suc j) ne = refl
assign_at-elems (suc i) value (s ∷ rest) h =
    let (out, e, same_length, there, others) = assign_at-elems i value rest (omega arith) in
    (s ∷ out, rw e refl, omega (arith, same_length), there, others_behind out others)
  where
    others_behind :
        (out : List Bytes)
        → ((j : ℕ) → j ≢ i → get_elem? out j ≡ get_elem? rest j)
        → (j : ℕ) → j ≢ suc i
        → get_elem? (s ∷ out) j ≡ get_elem? (s ∷ rest) j
    others_behind out others zero ne = refl
    others_behind out others (suc j) ne = others j λ e. ne (ap suc e)

get_elem?-append :
    (ss : List Bytes) (value : Bytes) → get_elem? (ss ++ value ∷ []) (length ss) ≡ some value
get_elem?-append [] value = refl
get_elem?-append (s ∷ rest) value = get_elem?-append rest value

get_elem?-before :
    (ss : List Bytes) (value : Bytes) (j : ℕ)
    → j < length ss
    → get_elem? (ss ++ value ∷ []) j ≡ get_elem? ss j
get_elem?-before [] value j h = absurd (omega arith)
get_elem?-before (s ∷ rest) value zero h = refl
get_elem?-before (s ∷ rest) value (suc j) h = get_elem?-before rest value j (omega arith)

-- Setting a certificate within the range changes that one alone, and adding one puts it behind the
-- others, which stay.
pub certificates-array :
    (m : AuthResponse) (i : ℕ) (value : Bytes)
    → i < certificates_accessors.size m
    → ((n : AuthResponse) × (certificates_accessors.set i value m ≡ some n)
        × (certificates_accessors.size n ≡ certificates_accessors.size m)
        × (certificates_accessors.get i n ≡ some value)
        × ((j : ℕ) → j ≢ i → certificates_accessors.get j n ≡ certificates_accessors.get j m))
      × (let n = certificates_accessors.add value m in
          (certificates_accessors.size n ≡ certificates_accessors.size m + 1)
          × (certificates_accessors.get (certificates_accessors.size m) n ≡ some value)
          × ((j : ℕ)
              → j < certificates_accessors.size m
              → certificates_accessors.get j n ≡ certificates_accessors.get j m))
unfolding certificates_accessors
certificates-array m i value h =
    let (out, e, same_length, there, others) =
      assign_at-elems i value m.intermediate_certificate h in
    (
      (
        record m { intermediate_certificate = out },
        ap (Option.map (put_certificates m)) e,
        same_length,
        there,
        others,
      ),
      (
        length-append m.intermediate_certificate (value ∷ []),
        get_elem?-append m.intermediate_certificate value,
        get_elem?-before m.intermediate_certificate value,
      ),
    )
