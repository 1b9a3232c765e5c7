-- ===== src/Common/Rows.antt =====
-- A SQL table is the list of its rows. These are the statements the store uses, over any row type:
-- SELECT … WHERE … LIMIT 1, UPDATE … WHERE …, COUNT(*), MAX and ORDER BY.
use Prim.Native.Nat.{ℕ, suc, max}
use mathlib.Core.Bool.{Bool}
use mathlib.Core.List.{List, [], ◌∷◌}
use mathlib.Core.Option.{Option, none, some}
use rusui.Common.Tests.{if◌then◌else◌, leb}

module _ {A : Type 0} where
  -- The first row that a condition selects.
  abbrev pub find_where : (A → Bool) → List A → Option A
  find_where p [] = none
  find_where p (x ∷ xs) = if p x then some x else find_where p xs

  abbrev pub select_where : (A → Bool) → List A → List A
  select_where p [] = []
  select_where p (x ∷ xs) = let rest = select_where p xs in if p x then x ∷ rest else rest

  abbrev pub update_where : (A → Bool) → (A → A) → List A → List A
  update_where p f [] = []
  update_where p f (x ∷ xs) = (if p x then f x else x) ∷ update_where p f xs

  abbrev pub count_where : (A → Bool) → List A → ℕ
  count_where p [] = 0
  count_where p (x ∷ xs) = let rest = count_where p xs in if p x then suc rest else rest

  -- ORDER BY key LIMIT 1: the first of the rows with the least key.
  abbrev pub better : (A → ℕ) → A → Option A → A
  better key x none = x
  better key x (some y) = if leb (key x) (key y) then x else y

  abbrev pub first_by : (A → ℕ) → List A → Option A
  first_by key [] = none
  first_by key (x ∷ xs) = some (better key x (first_by key xs))

  -- IFNULL(MAX(key), 0).
  abbrev pub max_of : (A → ℕ) → List A → ℕ
  max_of key [] = 0
  max_of key (x ∷ xs) = max (key x) (max_of key xs)

  -- ORDER BY: a stable insertion sort.
  abbrev pub insert_by : (A → A → Bool) → A → List A → List A
  insert_by le x [] = x ∷ []
  insert_by le x (y ∷ ys) = if le x y then x ∷ y ∷ ys else y ∷ insert_by le x ys

  abbrev pub order_by : (A → A → Bool) → List A → List A
  order_by le [] = []
  order_by le (x ∷ xs) = insert_by le x (order_by le xs)
