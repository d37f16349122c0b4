-- ===== src/Base/Exceptions.antt =====
-- C++ exceptions and undefined behaviour as results, with `do` and `catch (const std::exception&)`.
use Prim.Native.String.{String}
use mathlib.Core.Bool.{Bool, true, false}
use mathlib.Core.Logic.{◌⊎◌, inl, inr}
use mathlib.Core.Path.{◌≡◌, refl}

pub data Error : Type 0 where
  runtime_error : String → Error
  invalid_argument : String → Error
  out_of_range : String → Error

-- `undefined` is a call whose behaviour the C++ standard leaves undefined.
pub data Result {ℓ} (A : Type ℓ) : Type ℓ where
  ok : A → Result A
  throws : Error → Result A
  undefined : Result A

-- `if (!condition) throw e;`
abbrev pub guard : Bool → Error → Result (Unit {0})
guard false e = throws e
guard true e = ok tt

-- `try { m } catch (const std::exception& e) { handler }`
abbrev pub try_catch {ℓ} : {A : Type ℓ} → Result A → (Error → Result A) → Result A
try_catch (ok a) handler = ok a
try_catch (throws e) handler = handler e
try_catch undefined handler = undefined

infixl 5 ◌>>=◌
abbrev pub ◌>>=◌ {ℓ κ} : {A : Type ℓ} {B : Type κ} → Result A → (A → Result B) → Result B
undefined >>= next = undefined
throws e >>= next = throws e
ok result >>= next = next result

infixl 5 ◌>>◌
abbrev pub ◌>>◌ {ℓ} : {B : Type ℓ} → Result (Unit {0}) → Result B → Result B
undefined >> k = undefined
throws e >> k = throws e
ok u >> k = k

pub Result-cases {ℓ} :
    {A : Type ℓ} (r : Result A)
    → ((a : A) × (r ≡ ok a)) ⊎ ((e : Error) × (r ≡ throws e)) ⊎ (r ≡ undefined)
Result-cases (ok a) = inl (a, refl)
Result-cases (throws e) = inr (inl (e, refl))
Result-cases undefined = inr (inr refl)
