-- ===== src/Common/Runes.antt =====
-- Texts walked by runes, Go maps as association lists, sets of strings, and signed integers.
use Prim.Native.Nat.{ℕ, zero, suc}
use Prim.Native.Char.{code}
use Prim.Native.String.{String, compare}
use mathlib.Core.Path.{◌≡◌, refl}
use mathlib.Core.Bool.{Bool, true, false, ◌&&◌, ◌||◌}
use mathlib.Core.Option.{Option, none, some}
use mathlib.Core.List.{List, [], ◌∷◌}
use native.Mathlib.Omega.{arith}
use text.Mathlib.Text.{◌==◌ as str_eq}
use rusui.Common.Tests.{◌==◌, if◌then◌else◌}
use rusui.Common.Lists.{any, drop, length}

-- A text as its runes.
abbrev pub Text : Type 0
Text = List ℕ

abbrev pub codes : String → Text
codes String.[] = []
codes (String.◌∷◌ c s) = code c ∷ codes s

abbrev pub text_eq : Text → Text → Bool
text_eq [] [] = true
text_eq [] (d ∷ t) = false
text_eq (c ∷ s) [] = false
text_eq (c ∷ s) (d ∷ t) = c == d && text_eq s t

pub text_eq_refl : (s : Text) → text_eq s s ≡ true
text_eq_refl [] = refl
text_eq_refl (c ∷ s) = ground (arith, text_eq_refl s)

-- `strings.HasPrefix s p`, with the prefix first.
abbrev pub starts_with : Text → Text → Bool
starts_with [] s = true
starts_with (c ∷ p) [] = false
starts_with (c ∷ p) (d ∷ s) = c == d && starts_with p s

-- `strings.Contains s p`, with the part first.
abbrev pub has_part : Text → Text → Bool
has_part p [] = starts_with p []
has_part p (d ∷ s) = starts_with p (d ∷ s) || has_part p s

-- `strings.TrimPrefix`, with the prefix first.
abbrev pub trim_prefix : Text → Text → Text
trim_prefix p s = if starts_with p s then drop (length p) s else s

abbrev pub text_in : Text → List Text → Bool
text_in s = any (text_eq s)

-- `slices.Contains`, and membership in a set of strings.
abbrev pub str_in : String → List String → Bool
str_in s = any (str_eq s)

abbrev pub Map : Type 0 → Type 0
Map V = List (String × V)

abbrev pub lookup : {V : Type 0} → String → Map V → Option V
lookup k [] = none
lookup k ((key, v) ∷ m) = if str_eq k key then some v else lookup k m

-- Go's `a <= b` on strings.
abbrev pub str_leb : String → String → Bool
str_leb a b = elim (compare a b) [ Prim.Native.Nat.Ordering.gt ↦ false | _ ↦ true ]

abbrev pub insert_sorted {ℓ} : {A : Type ℓ} → (A → A → Bool) → A → List A → List A
insert_sorted le a [] = a ∷ []
insert_sorted le a (b ∷ bs) =
    let rest = insert_sorted le a bs in if le a b then a ∷ b ∷ bs else b ∷ rest

abbrev pub sort_by {ℓ} : {A : Type ℓ} → (A → A → Bool) → List A → List A
sort_by le [] = []
sort_by le (a ∷ rest) = insert_sorted le a (sort_by le rest)

-- Go's `int`, unbounded.
pub data ℤ : Type 0 where
  pos : ℕ → ℤ
  negsuc : ℕ → ℤ

abbrev pub is_negative : ℤ → Bool
is_negative (pos n) = false
is_negative (negsuc n) = true

abbrev pub is_zero : ℤ → Bool
is_zero (pos zero) = true
is_zero (pos (suc n)) = false
is_zero (negsuc n) = false
