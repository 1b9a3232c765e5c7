-- ===== src/Common/Parts.antt =====
-- What the tests of Runes.antt say of a text: a prefix, and a part.
use mathlib.Core.Path.{◌≡◌, refl, sym, ap, subst}
use mathlib.Core.Logic.{inl, inr}
use mathlib.Core.Bool.{true}
use mathlib.Core.List.{[], ◌∷◌, ◌++◌}
use native.Mathlib.Omega.{arith}
use rusui.Common.Tests.{Bool-cases}
use rusui.Common.Lists.{length, drop}
use rusui.Common.Runes.{Text, text_eq, starts_with, has_part, trim_prefix}

pub text_eq-eq : (s t : Text) → text_eq s t ≡ true → s ≡ t
text_eq-eq [] [] h = refl
text_eq-eq [] (d ∷ t) h = ground arith
text_eq-eq (c ∷ s) [] h = ground arith
text_eq-eq (c ∷ s) (d ∷ t) h = ground (arith, text_eq-eq s t)

-- A part of a text, with the text before and after it.
abbrev pub HasPart : Text → Text → Type 0
HasPart p s = (x : Text) × (y : Text) × (s ≡ x ++ (p ++ y))

pub starts_with-rest : (p s : Text) → starts_with p s ≡ true → (r : Text) × (s ≡ p ++ r)
starts_with-rest [] s h = (s, refl)
starts_with-rest (c ∷ p) [] h = ground arith
starts_with-rest (c ∷ p) (d ∷ s) h =
    let (r, e) = starts_with-rest p s (ground arith) in
    let same : d ≡ c = ground arith in (r, ground arith)

pub starts_with-append : (p r : Text) → starts_with p (p ++ r) ≡ true
starts_with-append [] r = refl
starts_with-append (c ∷ p) r = ground (arith, starts_with-append p r)

drop-append : (p r : Text) → drop (length p) (p ++ r) ≡ r
drop-append [] r = refl
drop-append (c ∷ p) r = drop-append p r

pub trim_prefix-append : (p r : Text) → trim_prefix p (p ++ r) ≡ r
trim_prefix-append p r = rw (starts_with-append p r) (drop-append p r)

pub has_part-HasPart : (p s : Text) → has_part p s ≡ true → HasPart p s
has_part-HasPart p [] h = let (r, e) = starts_with-rest p [] h in ([], r, e)
has_part-HasPart p (d ∷ s) h = elim (Bool-cases (starts_with p (d ∷ s))) [
  | inl e ↦ (let (r, k) = starts_with-rest p (d ∷ s) e in ([], r, k))
  | inr e ↦ (let (x, y, k) = has_part-HasPart p s (ground arith) in (d ∷ x, y, ap (λ t. d ∷ t) k))
]

has_part-head : (p y : Text) → has_part p (p ++ y) ≡ true
has_part-head [] [] = refl
has_part-head [] (c ∷ y) = refl
has_part-head (c ∷ p) y = ground (arith, starts_with-append (c ∷ p) y)

has_part-inside : (p x y : Text) → has_part p (x ++ (p ++ y)) ≡ true
has_part-inside p [] y = has_part-head p y
has_part-inside p (c ∷ x) y = ground (arith, has_part-inside p x y)

pub HasPart-has_part : (p s : Text) → HasPart p s → has_part p s ≡ true
HasPart-has_part p s (x, y, e) = subst (λ t. has_part p t ≡ true) (sym e) (has_part-inside p x y)
