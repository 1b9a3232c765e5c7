-- ===== src/Policy/Repos.antt =====
-- internal/policy/policy.go `Parse`: the defaults and the overrides of a repository.
use rusui.Common.{
  true, ◌&&◌, ◌||◌, not, Option, none, some, List, [], ◌∷◌, ◌++◌, String, Result, ok, err,
  if◌then◌else◌, str_eq, str_in, ℤ, pos, is_zero, is_negative,
}
use rusui.Policy.{Fault, bad_repair, negative_repairs, bad_visibility, Defaults, RepoYaml, Repo}
use rusui.Policy.Checks.{and_then}

-- `parseRepairCategory` of a text that is trimmed and in lower case.
unfoldable pub parse_repair_category : String → Result Fault String
parse_repair_category raw =
    if str_in raw ("" ∷ "off" ∷ "false" ∷ [])
    then ok ""
    else if str_eq raw "docs"
    then ok "docs"
    else err bad_repair

-- `mergeProtectedLabels`, with the labels seen so far.
unfoldable pub merge_labels_from : List String → List String → List String
merge_labels_from seen [] = []
merge_labels_from seen (l ∷ ls) =
    let kept = merge_labels_from (l ∷ seen) ls in
    let skipped = merge_labels_from seen ls in
    if str_eq l "" || str_in l seen then skipped else l ∷ kept

abbrev pub always_protected : List String
always_protected = "rusui:hold" ∷ "security" ∷ []

unfoldable pub merge_protected_labels : List String → List String
unfolding merge_labels_from
merge_protected_labels labels = always_protected ++ merge_labels_from always_protected labels

abbrev pub or_else : {A : Type 0} → A → Option A → A
or_else a none = a
or_else a (some b) = b

abbrev pub unless_zero : ℤ → ℤ → ℤ
unless_zero a n = if is_zero n then a else n

module _ (lower_trimmed : String → String) where
  -- The repository as the defaults make it.
  unfoldable pub default_repo : String → Defaults → Result Fault Repo
  default_repo slug d = and_then (parse_repair_category (lower_trimmed d.repair)) λ repair.
      ok (record {
        project = slug;
        visibility = if str_eq d.visibility "" then "private" else d.visibility;
        review = or_else true d.review;
        comments = d.comments;
        comment = d.comment;
        close = d.close;
        implement = d.implement;
        land = d.land;
        repair = repair;
        protected_labels = merge_protected_labels d.protected_labels;
        max_reviews = unless_zero (pos 50) d.max_reviews;
        max_repairs = unless_zero (pos 1) d.max_repairs;
        never_release = true;
        never_leak_private_to_public = true;
      })

  unfoldable pub repair_of : Repo → Option String → Result Fault String
  repair_of r none = ok r.repair
  repair_of r (some raw) = parse_repair_category (lower_trimmed raw)

  unfoldable pub labels_of : Repo → List String → List String
  labels_of r [] = r.protected_labels
  labels_of r (l ∷ ls) = merge_protected_labels (r.protected_labels ++ (l ∷ ls))

  unfoldable pub valid_repo : Repo → Result Fault Repo
  valid_repo r =
      if is_negative r.max_repairs
      then err negative_repairs
      else if not (str_eq r.visibility "public") && not (str_eq r.visibility "private")
      then err bad_visibility
      else ok r

  -- The repository's own settings over the defaults.
  unfoldable pub override_repo : Repo → RepoYaml → Result Fault Repo
  override_repo r y = and_then (repair_of r y.repair) λ repair. valid_repo (record r {
    visibility = or_else r.visibility y.visibility;
    review = or_else r.review y.review;
    comments = or_else r.comments y.comments;
    comment = or_else r.comment y.comment;
    close = or_else r.close y.close;
    implement = or_else r.implement y.implement;
    land = or_else r.land y.land;
    repair = repair;
    protected_labels = labels_of r y.protected_labels;
    max_reviews = or_else r.max_reviews y.max_reviews;
    max_repairs = or_else r.max_repairs y.max_repairs;
  })

  unfoldable pub parse_repo : String → Defaults → RepoYaml → Result Fault Repo
  unfolding default_repo override_repo
  parse_repo slug d y = and_then (default_repo slug d) λ r. override_repo r y
