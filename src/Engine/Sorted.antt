-- ===== src/Engine/Sorted.antt =====
-- The order in which a claim looks at the queued turns.
use rusui.Common.{
  ◌≡◌, refl, true, false, Option, none, some, List, [], ◌∷◌, ◌++◌, arith, All, order_by, insert_by,
  Bool-cases, inl, inr,
}
use rusui.Engine.Choose.{Candidate, add_found, is_before}

abbrev pub IsSorted : List Candidate → Type 0
IsSorted [] = Unit
IsSorted (c ∷ cs) = All (λ (x : Candidate). is_before c x ≡ true) cs × IsSorted cs

pub is_before_total : (a b : Candidate) → is_before a b ≡ false → is_before b a ≡ true
is_before_total a b h = ground arith

pub is_before_trans :
    (a b c : Candidate) → is_before a b ≡ true → is_before b c ≡ true → is_before a c ≡ true
is_before_trans a b c h g = ground arith

module _ (P : Candidate → Type 0) where
  pub All-weaken :
      {Q : Candidate → Type 0} (cs : List Candidate)
      → ((c : Candidate) → P c → Q c)
      → All P cs
      → All Q cs
  All-weaken [] h a = tt
  All-weaken (c ∷ cs) h a = (h c a.0, All-weaken cs h a.1)

  pub All-insert :
      (c : Candidate) (cs : List Candidate) → P c → All P cs → All P (insert_by is_before c cs)
  All-insert c [] p a = (p, tt)
  All-insert c (x ∷ xs) p a = elim (Bool-cases (is_before c x)) [
    | inl h ↦ rw h (p, a)
    | inr h ↦ rw h (a.0, All-insert c xs p a.1)
  ]

  pub All-order : (cs : List Candidate) → All P cs → All P (order_by is_before cs)
  All-order [] a = tt
  All-order (c ∷ cs) a = All-insert c (order_by is_before cs) a.0 (All-order cs a.1)

  pub All-add :
      (o : Option Candidate) (cs : List Candidate)
      → ((c : Candidate) → o ≡ some c → P c)
      → All P cs
      → All P (add_found o cs)
  All-add none cs h a = a
  All-add (some c) cs h a = (h c refl, a)

  pub All-join : (cs ds : List Candidate) → All P cs → All P ds → All P (cs ++ ds)
  All-join [] ds a b = b
  All-join (c ∷ cs) ds a b = (a.0, All-join cs ds a.1 b)

  pub All-append : (cs ds : List Candidate) → All P (cs ++ ds) → All P cs × All P ds
  All-append [] ds a = (tt, a)
  All-append (c ∷ cs) ds a = let (l, r) = All-append cs ds a.1 in ((a.0, l), r)

pub IsSorted-insert :
    (c : Candidate) (cs : List Candidate) → IsSorted cs → IsSorted (insert_by is_before c cs)
IsSorted-insert c [] s = (tt, tt)
IsSorted-insert c (x ∷ xs) s = elim (Bool-cases (is_before c x)) [
  | inl h ↦
      rw h
        ((h, All-weaken (λ y. is_before x y ≡ true) xs (λ y g. is_before_trans c x y h g) s.0), s)
  | inr h ↦ rw h (
    All-insert (λ y. is_before x y ≡ true) c xs (is_before_total c x h) s.0,
    IsSorted-insert c xs s.1,
  )
]

pub IsSorted-order : (cs : List Candidate) → IsSorted (order_by is_before cs)
IsSorted-order [] = tt
IsSorted-order (c ∷ cs) = IsSorted-insert c (order_by is_before cs) (IsSorted-order cs)

pub IsSorted-append : (cs ds : List Candidate) → IsSorted (cs ++ ds) → IsSorted ds
IsSorted-append [] ds s = s
IsSorted-append (c ∷ cs) ds s = IsSorted-append cs ds s.1
