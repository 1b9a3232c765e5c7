-- ===== src/Policy/Parse.antt =====
-- internal/policy/policy.go `Parse`, from the decoded file, and the lookups of the effective policy.
use rusui.Common.{
  ℕ, Bool, true, false, ◌&&◌, not, Option, none, some, List, [], ◌∷◌, String, Result, ok, err,
  if◌then◌else◌, ◌==◌, str_eq, str_in, str_leb, sort_by, codes, Map, lookup, ℤ, pos, negsuc,
}
use rusui.Policy.{
  Fault, unsupported_version, projects_required, bad_guests, bad_gateway, local_in_defaults,
  bad_slug, bad_tenant, bound_twice, ProjectGuests, Defaults, RepoYaml, ProjectYaml, File, Repo,
  Project, Effective, McpServer, Outside,
}
use rusui.Policy.Names.{valid_slug, valid_tenant}
use rusui.Policy.Checks.{
  check, and_then, valid_rules, valid_kinds, valid_local_runtime, valid_egress, valid_mcp_servers,
  valid_secrets, valid_size, valid_ship, valid_budgets,
}
use rusui.Policy.Repos.{parse_repo}

unfoldable pub kinds_or : List String → List String → List String
kinds_or default [] = default
kinds_or default (k ∷ ks) = k ∷ ks

abbrev pub text_or : String → String → String
text_or default s = if str_eq s "" then default else s

abbrev pub is_version : ℕ → ℤ → Bool
is_version n (pos v) = v == n
is_version n (negsuc v) = false

abbrev pub has_key : {V : Type 0} → String → Map V → Bool
has_key k m = elim (lookup k m) [ none ↦ false | some v ↦ true ]

-- The loop of `validProjectGuests`, with the names seen so far.
unfoldable pub valid_allowed_from : {G : Type 0} → Map G → List String → List String → Bool
valid_allowed_from registry seen [] = true
valid_allowed_from registry seen (name ∷ names) =
    has_key name registry
    && (not (str_in name seen) && valid_allowed_from registry (name ∷ seen) names)

unfoldable pub valid_project_guests : {G : Type 0} → Map G → Option ProjectGuests → Bool
unfolding valid_allowed_from
valid_project_guests registry none = true
valid_project_guests registry (some choices) =
    not (str_eq choices.default "")
    && (str_in choices.default choices.allowed && valid_allowed_from registry [] choices.allowed)

module _ {G : Type 0} (outside : Outside G) where
  -- What a project takes from the head of the file.
  pub record Context : Type 0 where
    pub guests : Map G
    pub defaults : Defaults
    pub kinds : List String
    pub egress : String
    pub gateway : String

  -- A project, with no repository bound yet.
  unfoldable pub parse_project : Context → String → ProjectYaml → Result Fault Project
  parse_project c slug y =
      let kinds = kinds_or c.kinds y.session_kinds in
      let egress = text_or c.egress y.egress in
      and_then (check (valid_slug (codes slug)) bad_slug) λ _. and_then (valid_kinds kinds) λ _.
        and_then (valid_local_runtime outside.is_clean_abs y.local_runtime kinds) λ runtime.
          and_then (valid_rules y.permissions) λ _. and_then (valid_egress egress) λ _.
            and_then (valid_budgets y.budgets) λ budgets. and_then (valid_size y.size) λ size.
              and_then (valid_secrets y.secrets) λ secrets. and_then (valid_ship y.ship) λ ship.
                and_then (check (valid_project_guests c.guests y.guests) bad_guests) λ _.
                  and_then (check (valid_tenant (codes y.tenant)) bad_tenant) λ _.
                    and_then (valid_mcp_servers outside.valid_url y.mcp_servers c.gateway) λ _.
                      ok (record {
                        guests = y.guests;
                        slug = slug;
                        session_kinds = kinds;
                        local_runtime = runtime;
                        egress = egress;
                        size = size;
                        budgets = budgets;
                        permissions = y.permissions;
                        secrets = secrets;
                        ship = ship;
                        repos = [];
                        tenant = y.tenant;
                        mcp_servers = y.mcp_servers;
                      })

  -- The repositories of a project: a name is bound once in the whole file.
  unfoldable pub bind_repos :
      Defaults
      → String
      → Map RepoYaml
      → Map Repo
      → List String
      → Result Fault (Map Repo × List String)
  bind_repos d slug [] repos names = ok (repos, sort_by str_leb names)
  bind_repos d slug ((name, y) ∷ rest) repos names =
      if has_key name repos
      then err bound_twice
      else elim (parse_repo outside.lower_trimmed slug d y) [
        | err e ↦ err e
        | ok r ↦ bind_repos d slug rest ((name, r) ∷ repos) (name ∷ names)
      ]

  unfoldable pub parse_projects :
      Context → Map ProjectYaml → Effective G → Result Fault (Effective G)
  parse_projects c [] out = ok out
  parse_projects c ((slug, y) ∷ rest) out = elim (parse_project c slug y) [
    | err e ↦ err e
    | ok p ↦ elim (bind_repos c.defaults slug y.repos out.repos []) [
      | err e ↦ err e
      | ok (repos, names) ↦ parse_projects c rest (record out {
        repos = repos;
        projects = (slug, record p { repos = names }) ∷ out.projects;
      })
    ]
  ]

  unfoldable pub parse_with : File G → Map ProjectYaml → Map G → Result Fault (Effective G)
  unfolding parse_projects
  parse_with f projects guests =
      let d = f.defaults in
      let kinds = kinds_or ("review" ∷ "run" ∷ "scheduled" ∷ []) d.session_kinds in
      if not (str_eq d.mcp_gateway "") && not (outside.valid_url d.mcp_gateway)
      then err bad_gateway
      else if str_in "local" kinds
      then err local_in_defaults
      else parse_projects
          (record {
            guests = guests;
            defaults = d;
            kinds = kinds;
            egress = text_or "trusted" d.egress;
            gateway = d.mcp_gateway;
          })
          projects
          (record { guests = guests; projects = []; repos = []; mcp_gateway = d.mcp_gateway })

  -- `Parse`, after the decoder.
  unfoldable pub parse : File G → Result Fault (Effective G)
  unfolding parse_with
  parse f = if not (is_version 2 f.version) then err unsupported_version else elim f.projects [
    | none ↦ err projects_required
    | some projects ↦ elim (outside.valid_guests f.guests) [
      | none ↦ err bad_guests
      | some guests ↦ parse_with f projects guests
    ]
  ]

module _ {G : Type 0} (e : Effective G) where
  abbrev pub find_repo : String → Option Repo
  find_repo name = lookup name e.repos

  abbrev pub find_project : String → Option Project
  find_project slug = lookup slug e.projects

  unfoldable pub project_for_repo : String → Option Project
  project_for_repo name = elim (find_repo name) [ none ↦ none | some r ↦ find_project r.project ]

  unfoldable pub session_mcp_servers : Project → List McpServer
  session_mcp_servers p =
      if str_eq e.mcp_gateway ""
      then p.mcp_servers
      else record { name = "gateway"; url = e.mcp_gateway } ∷ []

abbrev pub allows_kind : Project → String → Bool
allows_kind p kind = str_in kind p.session_kinds
