-- ===== src/Prelude/Results.antt =====
-- What a function that may throw returns. `fail` is a thrown dracon::response, by its status and
-- its body. `thrown` is any other exception, by what() or a word for it. `out_of_fuel` is a loop
-- cut short by the model.
use Prim.Native.Nat.{ℕ}
use Prim.Native.String.{String}
use mathlib.Core.Path.{◌≡◌, refl}
use mathlib.Core.Logic.{◌⊎◌, inl, inr}
use mathlib.Core.Bool.{Bool, true, false}

pub data Result {ℓ} (A : Type ℓ) : Type ℓ where
  ok : A → Result A
  fail : ℕ → String → Result A
  thrown : String → Result A
  out_of_fuel : Result A

infixl 5 ◌>>=◌
abbrev pub ◌>>=◌ {ℓ κ} : {A : Type ℓ} {B : Type κ} → Result A → (A → Result B) → Result B
fail status reason >>= next = fail status reason
thrown what >>= next = thrown what
out_of_fuel >>= next = out_of_fuel
ok result >>= next = next result

-- `if (b) fail(status, reason);`
abbrev pub fail_if : Bool → ℕ → String → Result (Unit {0})
fail_if false status reason = ok tt
fail_if true status reason = fail status reason

infixl 5 ◌>>◌
abbrev pub ◌>>◌ {κ} : {B : Type κ} → Result (Unit {0}) → Result B → Result B
check >> next = check >>= λ _. next

-- A bind that returns had a value to pass on.
pub >>=-eq-ok {ℓ κ} :
    {A : Type ℓ} {B : Type κ} (m : Result A) (next : A → Result B) {b : B}
    → (m >>= next) ≡ ok b
    → (a : A) × (m ≡ ok a) × (next a ≡ ok b)
>>=-eq-ok (fail _ _) next e = cc
>>=-eq-ok (thrown _) next e = cc
>>=-eq-ok out_of_fuel next e = cc
>>=-eq-ok (ok result) next e = (result, refl, e)

pub Result-cases {ℓ} :
    {A : Type ℓ} (m : Result A) → ((a : A) × (m ≡ ok a)) ⊎ (((a : A) → m ≡ ok a → ⊥))
Result-cases (ok a) = inl (a, refl)
Result-cases (fail s r) = inr (λ a e. cc)
Result-cases (thrown w) = inr (λ a e. cc)
Result-cases out_of_fuel = inr (λ a e. cc)

-- A bind that returns was given a value.
pub >>=-not-ok {ℓ κ} :
    {A : Type ℓ} {B : Type κ} (m : Result A) (f : A → Result B) {b : B}
    → ((a : A) → m ≡ ok a → ⊥)
    → (m >>= f) ≡ ok b
    → ⊥
>>=-not-ok (ok a) f h e = h a refl
>>=-not-ok (fail s r) f h e = cc
>>=-not-ok (thrown w) f h e = cc
>>=-not-ok out_of_fuel f h e = cc

pub ok_inj {ℓ} : {A : Type ℓ} {a b : A} → ok a ≡ ok b → a ≡ b
ok_inj e = cc

pub not_both : true ≡ false → ⊥
not_both e = cc
