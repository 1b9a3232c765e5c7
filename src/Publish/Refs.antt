-- ===== src/Publish/Refs.antt =====
-- internal/publish/publish.go `refOK` and `Permitted`: the branches and the writes that the gate knows.
use rusui.Common.{
  ℕ, ◌≡◌, ◌≢◌, refl, sym, ap, ◌∙◌, ◌⊎◌, inl, inr, ◌↔◌, Bool, true, false, ◌&&◌, not, String, [],
  ◌∷◌, ◌++◌, arith, ◌==◌, str_eq, eq_iff, Bool-cases, Text, codes, text_eq, text_eq_refl,
  starts_with, starts_with-rest, starts_with-append, has_part, HasPart, has_part-HasPart,
  HasPart-has_part, trim_prefix, trim_prefix-append,
}
use rusui.Publish.{Candidate, permitted, wanted_prefix, ref_ok}

pub str_eq-eq : (s t : String) → str_eq s t ≡ true → s ≡ t
str_eq-eq s t h = (eq_iff s t).0 h

pub eq-str_eq : (s t : String) → s ≡ t → str_eq s t ≡ true
eq-str_eq s t h = (eq_iff s t).1 h

pub str_eq-other : (s t : String) → str_eq s t ≡ false → s ≢ t
str_eq-other s t h k = absurd (let same = eq-str_eq s t k in cc)

pub other-str_eq : (s t : String) → s ≢ t → str_eq s t ≡ false
other-str_eq s t n = elim (Bool-cases (str_eq s t)) [
  | inl h ↦ absurd (n (str_eq-eq s t h))
  | inr h ↦ h
]

-- The two writes that the gate permits.
abbrev pub NamedWrite : String → Type 0
NamedWrite action = (action ≡ "open_pr") ⊎ (action ≡ "update_pr")

permitted-NamedWrite : (action : String) → permitted action ≡ true → NamedWrite action
unfolding permitted
permitted-NamedWrite action h = elim (Bool-cases (str_eq action "open_pr")) [
  | inl e ↦ inl (str_eq-eq action "open_pr" e)
  | inr e ↦ inr (str_eq-eq action "update_pr" (ground arith))
]

NamedWrite-permitted : (action : String) → NamedWrite action → permitted action ≡ true
unfolding permitted
NamedWrite-permitted action (inl e) = (let same = eq-str_eq action "open_pr" e in ground arith)
NamedWrite-permitted action (inr e) = (let same = eq-str_eq action "update_pr" e in ground arith)

pub permitted_iff : (action : String) → (permitted action ≡ true) ↔ NamedWrite action
permitted_iff action = (permitted-NamedWrite action, NamedWrite-permitted action)

module _ (format_int : ℕ → Text) where
  -- The ref of a candidate is a branch below that of its session, named without `..` and `//`.
  pub record IsOwnRef (c : Candidate) : Type 0 where
    pub name : Text
    pub has_session : c.session_id ≢ 0
    pub ref_is :
        c.ref ≡ (codes "refs/heads/rusui/" ++ (format_int c.session_id ++ codes "/")) ++ name
    pub is_named : name ≢ []
    pub no_dots : ¬ HasPart (codes "..") name
    pub no_slashes : ¬ HasPart (codes "//") name

  no_part : (p s : Text) → has_part p s ≡ false → ¬ HasPart p s
  no_part p s h k = absurd (let found = HasPart-has_part p s k in cc)

  part_free : (p s : Text) → ¬ HasPart p s → has_part p s ≡ false
  part_free p s n = elim (Bool-cases (has_part p s)) [
    | inl h ↦ absurd (n (has_part-HasPart p s h))
    | inr h ↦ h
  ]

  append_nil : (xs : Text) → xs ++ [] ≡ xs
  append_nil [] = refl
  append_nil (x ∷ xs) = ap (λ zs. x ∷ zs) (append_nil xs)

  -- A prefix alone is no name, and with a name it is another text.
  self_prefix : (p r : Text) → text_eq (p ++ r) p ≡ false → r ≢ []
  self_prefix p r h k = absurd (
      let whole = text_eq_refl p in
      let same : p ++ r ≡ p = ap (λ x. p ++ x) k ∙ append_nil p in
      let both : text_eq (p ++ r) p ≡ true = ap (λ x. text_eq x p) same ∙ whole in cc)

  longer : (p r : Text) → r ≢ [] → text_eq (p ++ r) p ≡ false
  longer [] [] n = absurd (n refl)
  longer [] (c ∷ r) n = refl
  longer (c ∷ p) r n = ground (arith, longer p r n)

  five :
      (a b c d e : Bool)
      → (not a && ((b && not c) && (not d && not e))) ≡ true
      → (a ≡ false) × (b ≡ true) × (c ≡ false) × (d ≡ false) × (e ≡ false)
  five a b c d e h = ground arith

  un_zero : (n : ℕ) → (n == 0) ≡ false → n ≢ 0
  un_zero n h k = ground arith

  not_zero : (n : ℕ) → n ≢ 0 → (n == 0) ≡ false
  not_zero n h = ground arith

  ref_ok_sound : (c : Candidate) → ref_ok format_int c ≡ true → IsOwnRef c
  unfolding ref_ok
  ref_ok_sound c h =
      let want = wanted_prefix format_int c.session_id in
      let tests =
        five (c.session_id == 0) (starts_with want c.ref) (text_eq c.ref want)
          (has_part (codes "..") (trim_prefix want c.ref))
          (has_part (codes "//") (trim_prefix want c.ref)) h in
      let (r, e) = starts_with-rest want c.ref tests.1 in
      let rest : trim_prefix want c.ref ≡ r = ap (trim_prefix want) e ∙ trim_prefix-append want r in
      record {
        name = r;
        has_session = un_zero c.session_id tests.0;
        ref_is = e;
        is_named = self_prefix want r (ap (λ x. text_eq x want) (sym e) ∙ tests.2);
        no_dots = no_part (codes "..") r (ap (has_part (codes "..")) (sym rest) ∙ tests.3);
        no_slashes = no_part (codes "//") r (ap (has_part (codes "//")) (sym rest) ∙ tests.4);
      }

  five_true :
      (a b c d e : Bool)
      → a ≡ false
      → b ≡ true
      → c ≡ false
      → d ≡ false
      → e ≡ false
      → (not a && ((b && not c) && (not d && not e))) ≡ true
  five_true a b c d e ha hb hc hd he = ground arith

  ref_ok_complete : (c : Candidate) → IsOwnRef c → ref_ok format_int c ≡ true
  unfolding ref_ok
  ref_ok_complete c o =
      let want = wanted_prefix format_int c.session_id in
      let rest : trim_prefix want c.ref ≡ o.name =
        ap (trim_prefix want) o.ref_is ∙ trim_prefix-append want o.name in
      five_true (c.session_id == 0) (starts_with want c.ref) (text_eq c.ref want)
        (has_part (codes "..") (trim_prefix want c.ref))
        (has_part (codes "//") (trim_prefix want c.ref)) (not_zero c.session_id o.has_session)
        (ap (starts_with want) o.ref_is ∙ starts_with-append want o.name)
        (ap (λ x. text_eq x want) o.ref_is ∙ longer want o.name o.is_named)
        (ap (has_part (codes "..")) rest ∙ part_free (codes "..") o.name o.no_dots)
        (ap (has_part (codes "//")) rest ∙ part_free (codes "//") o.name o.no_slashes)

  pub ref_ok_iff : (c : Candidate) → (ref_ok format_int c ≡ true) ↔ IsOwnRef c
  ref_ok_iff c = (ref_ok_sound c, ref_ok_complete c)
