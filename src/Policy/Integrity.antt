-- ===== src/Policy/Integrity.antt =====
-- internal/policy/policy.go: what holds of every repository of a policy that `Parse` accepts, and what
-- it means for a review.
use rusui.Common.{
  ◌≡◌, refl, inl, inr, Bool, true, false, ◌||◌, not, Option, none, some, List, [], ◌∷◌, String,
  Result, ok, err, if◌then◌else◌, arith, str_eq, eq_iff, Map, Bool-cases, sym, subst, ◌≢◌,
}
use rusui.Policy.{
  Fault, bound_twice, bad_guests, unsupported_version, projects_required, Repo, RepoYaml, Project,
  ProjectYaml, Defaults, File, Effective, Outside,
}
use rusui.Policy.Repos.{parse_repo}
use rusui.Policy.Parse.{
  bind_repos, parse_projects, parse_with, parse, has_key, Context, parse_project, find_repo,
  kinds_or, text_or, is_version,
}
use rusui.Policy.Laws.{IsGuarded, Bound, parse_repo-IsGuarded}
use rusui.Policy.Review.{missing_project, invalid_repo, paused, review_access, bound_access}

module _ {G : Type 0} (outside : Outside G) where
  Bound-cons :
      (P : Repo → Type 0) (name : String) (r : Repo) (repos : Map Repo)
      → P r
      → Bound P repos
      → Bound P ((name, r) ∷ repos)
  Bound-cons P name r repos p b k s e = elim (Bool-cases (str_eq k name)) [
    | inl hit ↦ (let same : r ≡ s = ground arith in subst P same p)
    | inr miss ↦ b k s (ground arith)
  ]

  bind_repos-Bound :
      (P : Repo → Type 0) (d : Defaults) (slug : String)
      → ((y : RepoYaml) (r : Repo) → parse_repo outside.lower_trimmed slug d y ≡ ok r → P r)
      → (given : Map RepoYaml) (repos : Map Repo) (names : List String)
        (out : Map Repo × List String)
      → Bound P repos
      → bind_repos outside d slug given repos names ≡ ok out
      → Bound P out.0
  unfolding bind_repos
  bind_repos-Bound P d slug h [] repos names out b e =
      let same : repos ≡ out.0 = ground arith in subst (Bound P) same b
  bind_repos-Bound P d slug h ((name, y) ∷ rest) repos names out b e =
      chosen
        (λ r p q.
          bind_repos-Bound P d slug h rest ((name, r) ∷ repos) (name ∷ names) out
            (Bound-cons P name r repos p b) q)
        (has_key name repos) (parse_repo outside.lower_trimmed slug d y) refl e
    where
      chosen :
          ((r : Repo)
            → P r
            → bind_repos outside d slug rest ((name, r) ∷ repos) (name ∷ names) ≡ ok out
            → Bound P out.0)
          → (twice : Bool) (parsed : Result Fault Repo)
          → parse_repo outside.lower_trimmed slug d y ≡ parsed
          → (if twice
              then err bound_twice
              else elim parsed as (λ _. Result Fault (Map Repo × List String)) [
                | err x ↦ err x
                | ok r ↦ bind_repos outside d slug rest ((name, r) ∷ repos) (name ∷ names)
              ])
            ≡ ok out
          → Bound P out.0
      chosen next true parsed p q = ground arith
      chosen next false (err x) p q = ground arith
      chosen next false (ok r) p q = next r (h y r p) q

  -- A bound repository is guarded, and its project is in the policy.
  pub record IsHome (projects : Map Project) (r : Repo) : Type 0 where
    pub guarded : IsGuarded r.project r
    pub has_project : has_key r.project projects ≡ true

  -- The same while its project is being read.
  record IsComing (slug : String) (projects : Map Project) (r : Repo) : Type 0 where
    guarded : IsGuarded r.project r
    has_project : (str_eq r.project slug || has_key r.project projects) ≡ true

  comes :
      (slug : String) (projects : Map Project) (r : Repo)
      → IsGuarded slug r
      → IsComing slug projects r
  comes slug projects r g = record {
    guarded = subst (λ s. IsGuarded s r) (sym g.project) g;
    has_project = rw ((eq_iff r.project slug).1 g.project) refl;
  }

  arrives :
      (slug : String) (p : Project) (projects : Map Project) (r : Repo)
      → IsComing slug projects r
      → IsHome ((slug, p) ∷ projects) r
  arrives slug p projects r c = record {
    guarded = c.guarded;
    has_project = ground (arith, c.has_project);
  }

  waits :
      (slug : String) (projects : Map Project) (r : Repo)
      → IsHome projects r
      → IsComing slug projects r
  waits slug projects r h = record {
    guarded = h.guarded;
    has_project = ground (arith, h.has_project);
  }

  parse_projects-IsHome :
      (c : Context outside) (given : Map ProjectYaml) (out e : Effective G)
      → Bound (IsHome out.projects) out.repos
      → parse_projects outside c given out ≡ ok e
      → Bound (IsHome e.projects) e.repos
  unfolding parse_projects
  parse_projects-IsHome c [] out e b h =
      let same : out ≡ e = ground arith in
      subst (λ (x : Effective G). Bound (IsHome x.projects) x.repos) same b
  parse_projects-IsHome c ((slug, y) ∷ rest) out e b h =
      read (λ o b k. parse_projects-IsHome c rest o e b k) (parse_project outside c slug y) h
    where
      bound :
          ((o : Effective G)
            → Bound (IsHome o.projects) o.repos
            → parse_projects outside c rest o ≡ ok e
            → Bound (IsHome e.projects) e.repos)
          → (p : Project) (r : Result Fault (Map Repo × List String))
          → bind_repos outside c.defaults slug y.repos out.repos [] ≡ r
          → (elim r as (λ _. Result Fault (Effective G)) [
            | err x ↦ err x
            | ok (repos, names) ↦ parse_projects outside c rest (record out {
              repos = repos;
              projects = (slug, record p { repos = names }) ∷ out.projects;
            })
          ])
            ≡ ok e
          → Bound (IsHome e.projects) e.repos
      bound next p (err x) q k = ground arith
      bound next p (ok (repos, names)) q k =
          next _
            (λ name r f.
              arrives slug (record p { repos = names }) out.projects r
                (bind_repos-Bound (IsComing slug out.projects) c.defaults slug
                  (λ y r s.
                    comes slug out.projects r
                      (parse_repo-IsGuarded outside.lower_trimmed slug c.defaults y r s))
                  y.repos out.repos [] (repos, names)
                  (λ name r f. waits slug out.projects r (b name r f)) q name r f))
            k

      read :
          ((o : Effective G)
            → Bound (IsHome o.projects) o.repos
            → parse_projects outside c rest o ≡ ok e
            → Bound (IsHome e.projects) e.repos)
          → (r : Result Fault Project)
          → (elim r as (λ _. Result Fault (Effective G)) [
            | err x ↦ err x
            | ok p ↦
                elim (bind_repos outside c.defaults slug y.repos out.repos [])
                  as (λ _. Result Fault (Effective G)) [
                    | err x ↦ err x
                    | ok (repos, names) ↦ parse_projects outside c rest (record out {
                      repos = repos;
                      projects = (slug, record p { repos = names }) ∷ out.projects;
                    })
                  ]
          ])
            ≡ ok e
          → Bound (IsHome e.projects) e.repos
      read next (err x) k = ground arith
      read next (ok p) k =
          bound next p (bind_repos outside c.defaults slug y.repos out.repos []) refl k

  parse_with-IsHome :
      (f : File G) (given : Map ProjectYaml) (guests : Map G) (e : Effective G)
      → parse_with outside f given guests ≡ ok e
      → Bound (IsHome e.projects) e.repos
  unfolding parse_with
  parse_with-IsHome f given guests e h =
      parse_projects-IsHome
        (record {
          guests = guests;
          defaults = f.defaults;
          kinds = kinds_or ("review" ∷ "run" ∷ "scheduled" ∷ []) f.defaults.session_kinds;
          egress = text_or "trusted" f.defaults.egress;
          gateway = f.defaults.mcp_gateway;
        })
        given
        (record {
          guests = guests;
          projects = [];
          repos = [];
          mcp_gateway = f.defaults.mcp_gateway;
        })
        e (λ name r m. ground arith) (ground arith)

  -- In a policy that `Parse` accepts, whatever the file asks for, each bound repository belongs to a
  -- project of the policy, may never release or leak, is public or private, and protects the hold
  -- and security labels.
  pub parse-IsHome :
      (f : File G) (e : Effective G) (name : String) (r : Repo)
      → parse outside f ≡ ok e
      → find_repo e name ≡ some r
      → IsHome e.projects r
  unfolding parse
  parse-IsHome f e name r h m =
      versioned (is_version 2 f.version) f.projects (outside.valid_guests f.guests) h
    where
      versioned :
          (b : Bool) (projects : Option (Map ProjectYaml)) (guests : Option (Map G))
          → (if not b
              then err unsupported_version
              else elim projects as (λ _. Result Fault (Effective G)) [
                | none ↦ err projects_required
                | some given ↦ elim guests as (λ _. Result Fault (Effective G)) [
                  | none ↦ err bad_guests
                  | some g ↦ parse_with outside f given g
                ]
              ])
            ≡ ok e
          → IsHome e.projects r
      versioned false projects guests k = ground arith
      versioned true none guests k = ground arith
      versioned true (some given) none k = ground arith
      versioned true (some given) (some g) k = parse_with-IsHome f given g e k name r m

  -- A policy that `Parse` accepts never refuses a review for a project that it lacks.
  pub review_access-parse :
      (f : File G) (e : Effective G) (repo : String) (is_paused : Bool)
      → parse outside f ≡ ok e
      → review_access e repo is_paused ≢ missing_project
  unfolding review_access bound_access
  review_access-parse f e repo is_paused h =
      elim (find_repo e repo)
          as (λ o.
            ((r : Repo) → o ≡ some r → IsHome e.projects r)
            → (if is_paused
                then paused
                else if str_eq repo ""
                then invalid_repo
                else bound_access e o)
              ≢ missing_project) [
                | none ↦ λ k. ground arith
                | some r ↦ λ k. (let home = (k r refl).has_project in ground (arith, home))
              ]
        (λ r m. parse-IsHome f e repo r h m)
