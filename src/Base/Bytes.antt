-- ===== src/Base/Bytes.antt =====
-- std::string and std::vector<uint8_t> as lists of bytes, with the parts of std::string and of
-- std::stringstream that the program uses.
pub mod Decimals
use Prim.Native.Nat.{ℕ, zero, suc, ◌+◌, ◌/◌, ◌%◌}
use Prim.Native.Char.{code}
use Prim.Native.String.{String}
use mathlib.Core.Path.{◌≡◌, refl}
use mathlib.Core.Logic.{◌↔◌}
use mathlib.Core.Bool.{Bool, true, false, ◌&&◌, ◌||◌}
use mathlib.Core.List.{List, [], ◌∷◌, ◌++◌}
use native.Mathlib.Omega.{arith}
use blockchain_messaging.Base.Tests.{ltb, ◌==◌, if◌then◌else◌}

abbrev pub Str : Type 0
Str = List ℕ

-- A literal of the source.
abbrev pub bytes : String → Str
bytes String.[] = []
bytes (String.◌∷◌ c s) = code c ∷ bytes s

-- `a == b` on strings.
abbrev pub str_eq : Str → Str → Bool
str_eq [] [] = true
str_eq [] (b ∷ t) = false
str_eq (a ∷ s) [] = false
str_eq (a ∷ s) (b ∷ t) = a == b && str_eq s t

pub str_eq_iff : (s t : Str) → (str_eq s t ≡ true) ↔ (s ≡ t)
str_eq_iff [] [] = ground arith
str_eq_iff [] (b ∷ t) = ground arith
str_eq_iff (a ∷ s) [] = ground arith
str_eq_iff (a ∷ s) (b ∷ t) = ground (arith, str_eq_iff s t)

pub str_eq_self : (s : Str) → str_eq s s ≡ true
str_eq_self s = (str_eq_iff s s).1 refl

-- `s.find(w) != npos`.
abbrev pub starts_with : Str → Str → Bool
starts_with [] s = true
starts_with (c ∷ w) [] = false
starts_with (c ∷ w) (a ∷ s) = c == a && starts_with w s

abbrev pub contains : Str → Str → Bool
contains w [] = starts_with w []
contains w (a ∷ s) = starts_with w (a ∷ s) || contains w s

-- The digits that `ss << n` writes for an unsigned number. The fuel exceeds the number.
digits : ℕ → ℕ → Str
digits zero n = []
digits (suc f) n =
    let rest = digits f (n / 10) ++ (48 + n % 10) ∷ [] in if ltb n 10 then (48 + n) ∷ [] else rest

unfoldable pub decimal : ℕ → Str
unfolding digits
decimal n = digits (suc n) n
