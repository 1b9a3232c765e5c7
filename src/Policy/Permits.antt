-- ===== src/Policy/Permits.antt =====
-- internal/policy/decision.go: which reviews `DecideReview` permits.
use rusui.Common.{
  ℕ, ◌<◌, ◌≡◌, ◌≢◌, refl, inl, inr, ◌↔◌, Bool, true, false, some, String, arith, str_eq, eq_iff,
  Bool-cases, Option-cases, ℤ, pos, negsuc,
}
use rusui.Policy.{Repo, Project, Effective}
use rusui.Policy.Parse.{find_repo, find_project}
use rusui.Policy.Review.{allowed, review_access, bound_access, decide_review, review_budget}

module _ {G : Type 0} (e : Effective G) where
  -- The conditions on a review of a repository that the policy binds: nothing is paused, the repository is
  -- named and reviewed, its project is known, and fewer reviews have run today than its limit, which is
  -- then not negative.
  pub record MayReview (repo : String) (is_paused : Bool) (today : ℕ) : Type 0 where
    pub row : Repo
    pub limit : ℕ
    pub live : is_paused ≡ false
    pub named : repo ≢ ""
    pub is_bound : find_repo e repo ≡ some row
    pub has_project : (p : Project) × (find_project e row.project ≡ some p)
    pub is_reviewed : row.review ≡ true
    pub is_limit : row.max_reviews ≡ pos limit
    pub below : today < limit

  budget_left :
      (today : ℕ) (l : ℤ) → review_budget today l ≡ allowed → (n : ℕ) × (l ≡ pos n) × (today < n)
  unfolding review_budget
  budget_left today (negsuc n) h = ground arith
  budget_left today (pos n) h = (n, refl, ground arith)

  budget_open : (today n : ℕ) → today < n → review_budget today (pos n) ≡ allowed
  unfolding review_budget
  budget_open today n h = ground arith

  unnamed : (repo : String) → str_eq repo "" ≡ false → repo ≢ ""
  unnamed repo h k = absurd (let same = (eq_iff repo "").1 k in cc)

  is_named : (repo : String) → repo ≢ "" → str_eq repo "" ≡ false
  is_named repo n = elim (Bool-cases (str_eq repo "")) [
    | inl h ↦ absurd (n ((eq_iff repo "").0 h))
    | inr h ↦ h
  ]

  permits_row :
      (repo : String) (is_paused : Bool) (today : ℕ) (r : Repo) (p : Project)
      → find_repo e repo ≡ some r
      → find_project e r.project ≡ some p
      → decide_review e repo is_paused today ≡ allowed
      → MayReview repo is_paused today
  unfolding decide_review review_access bound_access
  permits_row repo is_paused today r p m k h =
      let (n, l, b) = budget_left today r.max_reviews (ground arith) in
      record {
        row = r;
        limit = n;
        live = ground arith;
        named = unnamed repo (ground arith);
        is_bound = m;
        has_project = (p, k);
        is_reviewed = ground arith;
        is_limit = l;
        below = b;
      }

  decide_review-MayReview :
      (repo : String) (is_paused : Bool) (today : ℕ)
      → decide_review e repo is_paused today ≡ allowed
      → MayReview repo is_paused today
  unfolding decide_review review_access bound_access
  decide_review-MayReview repo is_paused today h = elim (Option-cases (find_repo e repo)) [
    | inl m ↦ ground arith
    | inr (r, m) ↦ elim (Option-cases (find_project e r.project)) [
      | inl k ↦ ground arith
      | inr (p, k) ↦ permits_row repo is_paused today r p m k h
    ]
  ]

  MayReview-decide_review :
      (repo : String) (is_paused : Bool) (today : ℕ)
      → MayReview repo is_paused today
      → decide_review e repo is_paused today ≡ allowed
  unfolding decide_review review_access bound_access
  MayReview-decide_review repo is_paused today c =
      let named = is_named repo c.named in
      rw (c.live, named, c.is_bound, bound_access, c.has_project.1, c.is_reviewed, c.is_limit)
        (budget_open today c.limit c.below)

  -- `DecideReview` permits a review exactly when nothing is paused, the repository is named, bound and
  -- reviewed, its project is known, and today's count is below its limit, which none is when it is
  -- negative.
  pub decide_review-allowed :
      (repo : String) (is_paused : Bool) (today : ℕ)
      → (decide_review e repo is_paused today ≡ allowed) ↔ MayReview repo is_paused today
  decide_review-allowed repo is_paused today =
      (decide_review-MayReview repo is_paused today, MayReview-decide_review repo is_paused today)
