-- ===== src/Policy/Tests.antt =====
-- One policy with one project and one repository, and the theorems applied to it.
use rusui.Common.{
  ◌≡◌, ◌≢◌, ◌↔◌, refl, true, false, none, some, [], ◌∷◌, String, ok, pos, codes, str_in,
}
use rusui.Policy.{Defaults, RepoYaml, ProjectYaml, File, Repo, Project, Effective, Outside}
use rusui.Policy.Names.{project_key, parse_project_key, valid_slug, valid_tail, valid_tenant}
use rusui.Policy.Checks.{
  allow_secrets, valid_kinds, valid_kinds_from, valid_local_runtime, valid_rules, valid_egress,
  valid_budgets, valid_budgets_from, valid_size, valid_secrets, valid_secrets_from, valid_ship,
  valid_mcp_servers, valid_mcp_servers_from,
}
use rusui.Policy.Repos.{
  merge_protected_labels, parse_repo, default_repo, override_repo, valid_repo, repair_of, labels_of,
  parse_repair_category, merge_labels_from,
}
use rusui.Policy.Parse.{
  parse, parse_with, parse_projects, parse_project, bind_repos, kinds_or, valid_project_guests,
  valid_allowed_from,
}
use rusui.Policy.Review.{
  decide_review, review_access, allowed, missing_project, daily_budget, review_budget, bound_access,
}
use rusui.Policy.Laws.{
  parse_project_key-project_key, merge_protected_labels-kept, allow_secrets-each,
}
use rusui.Policy.Integrity.{IsHome, parse-IsHome, review_access-parse}
use rusui.Policy.Permits.{MayReview, decide_review-allowed}

-- Other packages that accept everything.
abbrev lenient : Outside (Unit {0})
lenient = record {
  valid_url = λ s. true;
  is_clean_abs = λ s. true;
  lower_trimmed = λ s. s;
  valid_guests = λ given. some [];
}

abbrev repo_yaml : RepoYaml
repo_yaml = record {
  visibility = some "public";
  review = none;
  comments = none;
  comment = none;
  close = none;
  implement = none;
  land = none;
  repair = some "docs";
  protected_labels = "mine" ∷ [];
  max_reviews = some (pos 2);
  max_repairs = none;
}

abbrev project_yaml : ProjectYaml
project_yaml = record {
  guests = none;
  repos = ("o/r", repo_yaml) ∷ [];
  session_kinds = [];
  local_runtime = none;
  egress = "";
  size = "small";
  budgets = [];
  permissions = [];
  secrets = [];
  ship = "";
  tenant = "";
  mcp_servers = [];
}

abbrev defaults : Defaults
defaults = record {
  never_release = false;
  never_leak_private_to_public = false;
  session_kinds = [];
  egress = "";
  visibility = "";
  review = none;
  comments = false;
  comment = false;
  close = false;
  implement = false;
  land = false;
  repair = "";
  protected_labels = [];
  max_reviews = pos 0;
  max_repairs = pos 0;
  mcp_gateway = "";
}

abbrev file : File (Unit {0})
file = record {
  guests = none;
  version = pos 2;
  defaults = defaults;
  projects = some (("web", project_yaml) ∷ []);
}

abbrev pub bound : Repo
bound = record {
  project = "web";
  visibility = "public";
  review = true;
  comments = false;
  comment = false;
  close = false;
  implement = false;
  land = false;
  repair = "docs";
  protected_labels = "rusui:hold" ∷ "security" ∷ "mine" ∷ [];
  max_reviews = pos 2;
  max_repairs = pos 1;
  never_release = true;
  never_leak_private_to_public = true;
}

abbrev pub web : Project
web = record {
  guests = none;
  slug = "web";
  session_kinds = "review" ∷ "run" ∷ "scheduled" ∷ [];
  local_runtime = none;
  egress = "trusted";
  size = "small";
  budgets = ("max_concurrent_leases", pos 1) ∷ [];
  permissions = [];
  secrets = [];
  ship = "pull-request";
  repos = "o/r" ∷ [];
  tenant = "";
  mcp_servers = [];
}

abbrev pub effective : Effective (Unit {0})
effective = record {
  guests = [];
  projects = ("web", web) ∷ [];
  repos = ("o/r", bound) ∷ [];
  mcp_gateway = "";
}

file_read : parse lenient file ≡ ok effective
unfolding parse parse_with parse_projects parse_project bind_repos kinds_or valid_project_guests
    valid_allowed_from parse_repo default_repo override_repo valid_repo repair_of labels_of
    parse_repair_category merge_protected_labels merge_labels_from valid_kinds valid_kinds_from
    valid_local_runtime valid_rules valid_egress valid_budgets valid_budgets_from valid_size
    valid_secrets valid_secrets_from valid_ship valid_mcp_servers valid_mcp_servers_from valid_slug
    valid_tail valid_tenant
file_read = refl

parse-IsHome_example : IsHome lenient effective.projects bound
parse-IsHome_example = parse-IsHome lenient file effective "o/r" bound file_read refl

review_access-parse_example : review_access effective "o/r" false ≢ missing_project
review_access-parse_example = review_access-parse lenient file effective "o/r" false file_read

decide_review-allowed_example :
    (decide_review effective "o/r" false 1 ≡ allowed) ↔ MayReview effective "o/r" false 1
decide_review-allowed_example = decide_review-allowed effective "o/r" false 1

-- The limit of the repository is two.
third_today : decide_review effective "o/r" false 2 ≡ daily_budget
unfolding decide_review review_access bound_access review_budget
third_today = refl

merge_protected_labels-kept_example :
    str_in "mine" (merge_protected_labels ("" ∷ "mine" ∷ "mine" ∷ [])) ≡ true
merge_protected_labels-kept_example =
    merge_protected_labels-kept "mine" ("" ∷ "mine" ∷ "mine" ∷ []) refl

allow_secrets-each_example :
    (allow_secrets ("a" ∷ "b" ∷ []) ("b" ∷ []) ≡ true)
    ↔ ((id : String) → str_in id ("b" ∷ []) ≡ true → str_in id ("a" ∷ "b" ∷ []) ≡ true)
allow_secrets-each_example = allow_secrets-each ("a" ∷ "b" ∷ []) ("b" ∷ [])

slug_valid : valid_slug (codes "web-2") ≡ true
unfolding valid_slug valid_tail
slug_valid = refl

parse_project_key-project_key_example :
    parse_project_key (project_key (codes "web-2")) ≡ some (codes "web-2")
parse_project_key-project_key_example = parse_project_key-project_key (codes "web-2") slug_valid
