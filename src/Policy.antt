-- ===== src/Policy.antt =====
-- internal/policy: the policy file as it is decoded, and the effective policy. Decoding the YAML text
-- is a library's work, so the model starts from the decoded `File`. A Go map is an association list
-- in the order of its iteration, which Go leaves open.
pub mod Names
pub mod Checks
pub mod Repos
pub mod Parse
pub mod Review
pub mod Laws
pub mod Integrity
pub mod Permits
pub mod Tests
use rusui.Common.{ℕ, Bool, Option, List, String, Map, ℤ}

-- A check that failed; the messages carry nothing else that the code tests.
pub data Fault : Type 0 where
  unsupported_version projects_required bad_guests bad_gateway local_in_defaults : Fault
  bad_slug bad_kind duplicate_kind bad_local_runtime bad_rule bad_egress : Fault
  bad_budget bad_size bad_secret duplicate_secret bad_ship bad_tenant : Fault
  mcp_behind_gateway bad_mcp_name duplicate_mcp bad_mcp_url : Fault
  bound_twice bad_repair negative_repairs bad_visibility : Fault

pub record AllowRule : Type 0 where
  pub tool : String
  pub kind : String
  pub command : String
  pub action : String

pub record McpServer : Type 0 where
  pub name : String
  pub url : String

pub record ProjectGuests : Type 0 where
  pub default : String
  pub allowed : List String

pub record LocalRuntime : Type 0 where
  pub argv : List String
  pub cwd : String

pub record Defaults : Type 0 where
  pub never_release : Bool
  pub never_leak_private_to_public : Bool
  pub session_kinds : List String
  pub egress : String
  pub visibility : String
  pub review : Option Bool
  pub comments : Bool
  pub comment : Bool
  pub close : Bool
  pub implement : Bool
  pub land : Bool
  pub repair : String
  pub protected_labels : List String
  pub max_reviews : ℤ
  pub max_repairs : ℤ
  pub mcp_gateway : String

pub record RepoYaml : Type 0 where
  pub visibility : Option String
  pub review : Option Bool
  pub comments : Option Bool
  pub comment : Option Bool
  pub close : Option Bool
  pub implement : Option Bool
  pub land : Option Bool
  pub repair : Option String
  pub protected_labels : List String
  pub max_reviews : Option ℤ
  pub max_repairs : Option ℤ

pub record ProjectYaml : Type 0 where
  pub guests : Option ProjectGuests
  pub repos : Map RepoYaml
  pub session_kinds : List String
  pub local_runtime : Option LocalRuntime
  pub egress : String
  pub size : String
  pub budgets : Map ℤ
  pub permissions : List AllowRule
  pub secrets : List String
  pub ship : String
  pub tenant : String
  pub mcp_servers : List McpServer

pub record File (G : Type 0) : Type 0 where
  pub guests : Option (Map G)
  pub version : ℤ
  pub defaults : Defaults
  pub projects : Option (Map ProjectYaml)

pub record Repo : Type 0 where
  pub project : String
  pub visibility : String
  pub review : Bool
  pub comments : Bool
  pub comment : Bool
  pub close : Bool
  pub implement : Bool
  pub land : Bool
  pub repair : String
  pub protected_labels : List String
  pub max_reviews : ℤ
  pub max_repairs : ℤ
  pub never_release : Bool
  pub never_leak_private_to_public : Bool

pub record Project : Type 0 where
  pub guests : Option ProjectGuests
  pub slug : String
  pub session_kinds : List String
  pub local_runtime : Option LocalRuntime
  pub egress : String
  pub size : String
  pub budgets : Map ℤ
  pub permissions : List AllowRule
  pub secrets : List String
  pub ship : String
  pub repos : List String
  pub tenant : String
  pub mcp_servers : List McpServer

pub record Effective (G : Type 0) : Type 0 where
  pub guests : Map G
  pub projects : Map Project
  pub repos : Map Repo
  pub mcp_gateway : String

-- What the checks use of other packages: Go's `url.Parse` with the tests on its result, `filepath.IsAbs`
-- with `filepath.Clean`, `strings.ToLower` after `strings.TrimSpace`, and `validGuests` with the
-- guest registry.
pub record Outside (G : Type 0) : Type 0 where
  pub valid_url : String → Bool
  pub is_clean_abs : String → Bool
  pub lower_trimmed : String → String
  pub valid_guests : Option (Map G) → Option (Map G)
