-- ===== src/Policy/Laws.antt =====
-- internal/policy: what a policy that `Parse` accepts guarantees.
use rusui.Common.{
  ◌≡◌, ◌↔◌, refl, inl, inr, true, false, ◌&&◌, ◌||◌, not, some, List, [], ◌∷◌, ◌++◌, String, Result,
  ok, err, arith, str_eq, str_in, eq_iff, lookup, Map, Text, Bool-cases, ◌∙◌, ap,
}
use rusui.Policy.{Fault, Repo, RepoYaml, Defaults}
use rusui.Policy.Names.{project_key, parse_project_key, valid_slug}
use rusui.Policy.Checks.{and_then, allow_secrets}
use rusui.Policy.Repos.{
  merge_labels_from, merge_protected_labels, always_protected, parse_repo, default_repo,
  override_repo, valid_repo, labels_of,
}

-- A project key is read back as its slug, for every slug that a project may have.
pub parse_project_key-project_key :
    (slug : Text) → valid_slug slug ≡ true → parse_project_key (project_key slug) ≡ some slug
unfolding parse_project_key project_key
parse_project_key-project_key slug e = rw e refl

-- Every given label but the empty one is protected or was seen before.
merge_labels_from-kept :
    (l : String) (seen labels : List String)
    → str_in l labels ≡ true
    → str_eq l "" ≡ false
    → str_in l seen ≡ false
    → str_in l (merge_labels_from seen labels) ≡ true
unfolding merge_labels_from
merge_labels_from-kept l seen [] m n s = ground arith
merge_labels_from-kept l seen (k ∷ ks) m n s = elim (Bool-cases (str_eq l k)) [
  | inl hit ↦
      (let same = (eq_iff l k).0 hit in
        ground
          (arith, same, merge_labels_from-kept l seen ks, merge_labels_from-kept l (k ∷ seen) ks))
  | inr miss ↦
      ground (arith, merge_labels_from-kept l seen ks, merge_labels_from-kept l (k ∷ seen) ks)
]

in-append : (l : String) (xs ys : List String) → str_in l (xs ++ ys) ≡ (str_in l xs || str_in l ys)
in-append l [] ys = refl
in-append l (x ∷ xs) ys = ground (arith, in-append l xs ys)

-- The labels that are always protected, and every label given but the empty one, are protected.
pub merge_protected_labels-kept :
    (l : String) (labels : List String)
    → (str_in l always_protected || (str_in l labels && not (str_eq l ""))) ≡ true
    → str_in l (merge_protected_labels labels) ≡ true
unfolding merge_protected_labels
merge_protected_labels-kept l labels h =
    in-append l always_protected (merge_labels_from always_protected labels)
    ∙ ground (arith, merge_labels_from-kept l always_protected labels)

-- Secrets are allowed exactly when each that is wanted is on the project's list.
pub allow_secrets-each :
    (allow want : List String)
    → (allow_secrets allow want ≡ true)
      ↔ ((id : String) → str_in id want ≡ true → str_in id allow ≡ true)
unfolding allow_secrets
allow_secrets-each allow want = (each want, back want)
  where
    each :
        (want : List String)
        → allow_secrets allow want ≡ true
        → (id : String) → str_in id want ≡ true
        → str_in id allow ≡ true
    each [] h id m = ground arith
    each (w ∷ ws) h id m = elim (Bool-cases (str_eq id w)) [
      | inl hit ↦ (let same = (eq_iff id w).0 hit in ground (arith, same))
      | inr miss ↦ each ws (ground arith) id (ground arith)
    ]

    back :
        (want : List String)
        → ((id : String) → str_in id want ≡ true → str_in id allow ≡ true)
        → allow_secrets allow want ≡ true
    back [] h = refl
    back (w ∷ ws) h = ground (
      arith,
      h w (ap (λ b. b || str_in w ws) ((eq_iff w w).1 refl)),
      back ws (λ id m. h id (ground arith)),
    )

-- A property of every repository that is bound.
abbrev pub Bound : (Repo → Type 0) → Map Repo → Type 0
Bound P m = (name : String) (r : Repo) → lookup name m ≡ some r → P r

-- What `parse_repo` establishes whatever the file says.
pub record IsGuarded (slug : String) (r : Repo) : Type 0 where
  pub project : r.project ≡ slug
  pub never_release : r.never_release ≡ true
  pub never_leak : r.never_leak_private_to_public ≡ true
  pub visibility : (str_eq r.visibility "public" || str_eq r.visibility "private") ≡ true
  pub hold : str_in "rusui:hold" r.protected_labels ≡ true
  pub security : str_in "security" r.protected_labels ≡ true

and_then-ok :
    {A B : Type 0} (r : Result Fault A) (f : A → Result Fault B) (b : B)
    → and_then r f ≡ ok b
    → (a : A) × (r ≡ ok a) × (f a ≡ ok b)
and_then-ok (ok a) f b e = (a, refl, e)
and_then-ok (err x) f b e = ground arith

module _ (lower_trimmed : String → String) (slug : String) where
  -- The part of it that the overrides keep.
  record IsSound (r : Repo) : Type 0 where
    project : r.project ≡ slug
    never_release : r.never_release ≡ true
    never_leak : r.never_leak_private_to_public ≡ true
    hold : str_in "rusui:hold" r.protected_labels ≡ true
    security : str_in "security" r.protected_labels ≡ true

  default_repo-IsSound :
      (d : Defaults) (r : Repo) → default_repo lower_trimmed slug d ≡ ok r → IsSound r
  unfolding default_repo
  default_repo-IsSound d r e = ground (
    arith,
    merge_protected_labels-kept "rusui:hold" d.protected_labels refl,
    merge_protected_labels-kept "security" d.protected_labels refl,
  )

  labels_of-kept :
      (l : String) (r : Repo) (labels : List String)
      → str_in l always_protected ≡ true
      → str_in l r.protected_labels ≡ true
      → str_in l (labels_of lower_trimmed r labels) ≡ true
  unfolding labels_of
  labels_of-kept l r [] a h = h
  labels_of-kept l r (k ∷ ks) a h = merge_protected_labels-kept l _ (rw a refl)

  override_repo-IsGuarded :
      (r : Repo) (y : RepoYaml) (r' : Repo)
      → IsSound r
      → override_repo lower_trimmed r y ≡ ok r'
      → IsGuarded slug r'
  unfolding override_repo valid_repo
  override_repo-IsGuarded r y r' s e = ground (
    arith,
    labels_of-kept "rusui:hold" r y.protected_labels refl s.hold,
    labels_of-kept "security" r y.protected_labels refl s.security,
  )

  pub parse_repo-IsGuarded :
      (d : Defaults) (y : RepoYaml) (r : Repo)
      → parse_repo lower_trimmed slug d y ≡ ok r
      → IsGuarded slug r
  unfolding parse_repo
  parse_repo-IsGuarded d y r e =
      let (r0, p, q) =
        and_then-ok (default_repo lower_trimmed slug d) (λ r. override_repo lower_trimmed r y) r
          e in
      override_repo-IsGuarded r0 y r (default_repo-IsSound d r0 p) q
