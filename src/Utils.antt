-- ===== src/Utils.antt =====
-- utils.h, utils.cpp: what a call returns or throws, and `throw_on_error`, which the macros
-- THROW_ON_ERROR and THROW_ON_ERROR_EX call with the place that they stand at.
use libchromecast.Prelude.{
  ℕ, Bool, false, not, ◌≡◌, refl, ◌++◌, Bytes, codes, to_string, ◌==◌, if◌then◌else◌, arith,
}

-- What the sources throw: std::runtime_error with its text, std::exception with its text
-- (a constructor of the Microsoft library), and the failed assertion of a library that is called
-- outside its contract.
pub data Error : Type 0 where
  runtime_error : Bytes → Error
  exception : Bytes → Error
  assertion : Error

-- What a call ends with: its value, or the exception that leaves it.
pub data Result (A : Type 0) : Type 0 where
  ok : A → Result A
  thrown : Error → Result A

infixl 5 ◌>>=◌ ◌>>◌
-- A call and what is done with its value, unless an exception leaves it.
abbrev pub ◌>>=◌ : {A B : Type 0} (call : Result A) (next : A → Result B) → Result B
call >>= next = elim call [ thrown e ↦ thrown e | ok a ↦ next a ]

-- One statement after another.
abbrev pub ◌>>◌ : {B : Type 0} (statement : Result (Unit {0})) (next : Result B) → Result B
statement >> next = elim statement [ thrown e ↦ thrown e | ok _ ↦ next ]

-- Where a macro stands: __FILE__, __FUNCTION__ and __LINE__.
pub record Site : Type 0 where
  pub file : Bytes
  pub function : Bytes
  pub line : ℕ

-- boost::system::error_code, of a library outside the repository: what the sources read of it.
pub record ErrorCode : Type 0 where
  pub value : ℕ
  pub message : Bytes

-- error_code's operator bool
abbrev pub failed : ErrorCode → Bool
failed e = not (e.value == 0)

place : Site → Bytes
place s =
    codes "at " ++ (s.file ++ (codes " in " ++ (s.function ++ (codes " on " ++ to_string s.line))))

-- throw_on_error(bool, …)
unfoldable pub throw_on_error : Bool → Site → Bytes → Result (Unit {0})
unfolding place
throw_on_error error site error_text =
    if error then thrown (runtime_error (place site ++ (codes ": " ++ error_text))) else ok tt

-- throw_on_error(error_code, …)
unfoldable pub throw_on_error_code : ErrorCode → Site → Bytes → Result (Unit {0})
unfolding place
throw_on_error_code error site error_text =
    if failed error
    then thrown (
        runtime_error (
          place site
          ++ (codes ": "
              ++ (error.message
                  ++ (codes " (error: "
                      ++ (to_string error.value ++ (codes "), " ++ error_text)))))))
    else ok tt

-- A sequence that returns is one whose first call returns.
pub ok_of_bind :
    {A B : Type 0} {b : B} (call : Result A) (next : A → Result B)
    → (call >>= next) ≡ ok b
    → (a : A) × (call ≡ ok a) × (next a ≡ ok b)
ok_of_bind (thrown e) next returned = absurd (cc)
ok_of_bind (ok a) next returned = (a, refl, returned)

-- A call that an exception leaves.
abbrev pub Throws : {A : Type 0} → Result A → Type 0
Throws {A} r = (e : Error) × (r ≡ thrown e)

pub Throws-bind :
    {A B : Type 0} (call : Result A) (next : A → Result B)
    → ((a : A) → Throws (next a))
    → Throws (call >>= next)
Throws-bind (thrown e) next throws = (e, refl)
Throws-bind (ok a) next throws = throws a

pub Throws-first :
    {A B : Type 0} (call : Result A) (next : A → Result B) → Throws call → Throws (call >>= next)
Throws-first call next (e, h) = (e, rw h refl)

-- A check that does not fire returns, and one that fires throws.
pub throw_on_error-false : (s : Site) (t : Bytes) → throw_on_error false s t ≡ ok tt
unfolding throw_on_error
throw_on_error-false s t = refl

pub throw_on_error-eq-ok :
    (b : Bool) (s : Site) (t : Bytes) → throw_on_error b s t ≡ ok tt → b ≡ false
unfolding throw_on_error
throw_on_error-eq-ok b s t h = ground arith
