-- ===== src/Core/Errors.antt =====
-- Go's `error`: the sentinels of the packages store, soc, pipeline and detection, an error of a
-- component that is not modelled, and fmt.Errorf's wrapping. The code has no `out_of_fuel`: it is the
-- answer of a model that recurs on fuel and has none left.
use kazutb_siem.Base.{if◌then◌else◌, arith, String, ◌≡◌, refl, ◌⊎◌, inl, inr, Bool, true, false}

pub data Error : Type 0 where
  not_found version_conflict already_exists : Error
  invalid_transition closure_details no_alerts : Error
  invalid_event invalid_observation invalid_rule invalid_query : Error
  external : String → Error
  out_of_fuel : Error
  wrap : String → Error → Error

-- (T, error): a value, or the error with the zero value that no caller reads.
pub data Result {ℓ} (A : Type ℓ) : Type ℓ where
  ok : A → Result A
  err : Error → Result A

-- The rest of a function, which runs if no error was returned.
infixl 5 ◌>>=◌
abbrev pub ◌>>=◌ {ℓ κ} : {A : Type ℓ} {B : Type κ} → Result A → (A → Result B) → Result B
err failure >>= go_on = err failure
ok value >>= go_on = go_on value

infixl 5 ◌>>◌
abbrev pub ◌>>◌ {ℓ} : {B : Type ℓ} → Result (Unit {0}) → Result B → Result B
guard >> rest = guard >>= λ _. rest

-- if !test { return e }
abbrev pub require : Bool → Error → Result (Unit {0})
require true e = ok tt
require false e = err e

pub Result-cases {ℓ} :
    {A : Type ℓ} (r : Result A) → ((e : Error) × (r ≡ err e)) ⊎ ((a : A) × (r ≡ ok a))
Result-cases (ok a) = inr (a, refl)
Result-cases (err e) = inl (e, refl)

-- What a chain that succeeds says of its parts.
pub bind_inv {ℓ κ} :
    {A : Type ℓ} {B : Type κ} (r : Result A) (f : A → Result B) {b : B}
    → (r >>= f) ≡ ok b
    → (a : A) × (r ≡ ok a) × (f a ≡ ok b)
bind_inv (ok a) f e = (a, refl, e)
bind_inv (err failure) f e = absurd (ground (arith, e))

pub ok_inv {ℓ} : {A : Type ℓ} {a b : A} → ok a ≡ ok b → a ≡ b
ok_inv e = ground (arith, e)

-- A chain that succeeds passed its guard.
pub guard_inv {ℓ} :
    {A : Type ℓ} {a : A} (test : Bool) (e : Error) (rest : Result A)
    → (if test then err e else rest) ≡ ok a
    → (test ≡ false) × (rest ≡ ok a)
guard_inv true e rest h = absurd (ground (arith, h))
guard_inv false e rest h = (refl, h)

-- P holds of the value, if there is one.
abbrev pub Holds {ℓ} : {A : Type ℓ} → (A → Type 0) → Result A → Type 0
Holds P (ok a) = P a
Holds P (err e) = Unit

pub Holds-bind {ℓ κ} :
    {A : Type ℓ} {B : Type κ} (Before : A → Type 0) (After : B → Type 0) (first : Result A)
    (onward : A → Result B)
    → Holds Before first
    → ((x : A) → Before x → Holds After (onward x))
    → Holds After (first >>= onward)
Holds-bind Before After (ok a) f h k = k a h
Holds-bind Before After (err e) f h k = tt

pub test_inv {ℓ} :
    {A : Type ℓ} {a : A} (test : Bool) (rest : Result A) (e : Error)
    → (if test then rest else err e) ≡ ok a
    → (test ≡ true) × (rest ≡ ok a)
test_inv true rest e h = (refl, h)
test_inv false rest e h = absurd (ground (arith, h))

pub Holds-after {ℓ κ} :
    {A : Type ℓ} {B : Type κ} (Q : B → Type 0) (r : Result A) (f : A → Result B)
    → ((a : A) → Holds Q (f a))
    → Holds Q (r >>= f)
Holds-after Q (ok a) f k = k a
Holds-after Q (err e) f k = tt

pub Holds-guard {ℓ} :
    {A : Type ℓ} (Q : A → Type 0) (test : Bool) (e : Error) (rest : Result A)
    → (test ≡ false → Holds Q rest)
    → Holds Q (if test then err e else rest)
Holds-guard Q true e rest k = tt
Holds-guard Q false e rest k = k refl
