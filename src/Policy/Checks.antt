-- ===== src/Policy/Checks.antt =====
-- internal/policy/policy.go: the checks of a project.
use rusui.Common.{
  Bool, true, false, ◌&&◌, ◌||◌, not, Option, none, some, List, [], ◌∷◌, String, Result, ok, err,
  if◌then◌else◌, ◌==◌, any, str_eq, str_in, codes, Map, ℤ, pos, is_zero, is_negative,
}
use rusui.Policy.{
  Fault, bad_kind, duplicate_kind, bad_local_runtime, bad_rule, bad_egress, bad_budget, bad_size,
  bad_secret, duplicate_secret, bad_ship, mcp_behind_gateway, bad_mcp_name, duplicate_mcp,
  bad_mcp_url, AllowRule, McpServer, LocalRuntime,
}
use rusui.Policy.Names.{valid_secret_id, valid_mcp_name}

-- The value of a check that tests only.
abbrev pub check : Bool → Fault → Result Fault (Unit {0})
check b e = if b then ok tt else err e

abbrev pub and_then : {A B : Type 0} → Result Fault A → (A → Result Fault B) → Result Fault B
and_then (ok a) f = f a
and_then (err e) f = err e

unfoldable pub valid_rule : AllowRule → Bool
valid_rule r =
    str_eq r.action ""
    || (str_eq r.action "allow"
        || (str_eq r.action "reject"
            && not (str_eq r.tool "" && (str_eq r.kind "" && str_eq r.command ""))))

unfoldable pub valid_rules : List AllowRule → Result Fault (Unit {0})
unfolding valid_rule
valid_rules [] = ok tt
valid_rules (r ∷ rs) = if valid_rule r then valid_rules rs else err bad_rule

abbrev pub session_kinds : List String
session_kinds = "review" ∷ "run" ∷ "scheduled" ∷ "local" ∷ []

-- `validKinds`, with the kinds seen so far.
unfoldable pub valid_kinds_from : List String → List String → Result Fault (Unit {0})
valid_kinds_from seen [] = ok tt
valid_kinds_from seen (k ∷ ks) =
    let rest = valid_kinds_from (k ∷ seen) ks in
    if not (str_in k session_kinds)
    then err bad_kind
    else if str_in k seen
    then err duplicate_kind
    else rest

unfoldable pub valid_kinds : List String → Result Fault (Unit {0})
unfolding valid_kinds_from
valid_kinds = valid_kinds_from []

abbrev pub has_nul : String → Bool
has_nul s = any (λ c. c == 0) (codes s)

unfoldable pub has_executable : List String → Bool
has_executable [] = false
has_executable (a ∷ rest) = not (str_eq a "")

-- `validLocalRuntime`.
unfoldable pub valid_local_runtime :
    (String → Bool) → Option LocalRuntime → List String → Result Fault (Option LocalRuntime)
unfolding has_executable
valid_local_runtime is_clean_abs none kinds =
    if str_in "local" kinds then err bad_local_runtime else ok none
valid_local_runtime is_clean_abs (some r) kinds =
    if not (str_in "local" kinds)
    then err bad_local_runtime
    else if not (has_executable r.argv) || any has_nul r.argv
    then err bad_local_runtime
    else if str_eq r.cwd "" || (has_nul r.cwd || not (is_clean_abs r.cwd))
    then err bad_local_runtime
    else ok (some r)

unfoldable pub valid_egress : String → Result Fault (Unit {0})
valid_egress e = check (str_in e ("none" ∷ "trusted" ∷ "custom" ∷ "full" ∷ [])) bad_egress

-- `validMCPServers`, with the names seen so far.
unfoldable pub valid_mcp_servers_from :
    (String → Bool) → String → List String → List McpServer → Result Fault (Unit {0})
valid_mcp_servers_from valid_url gateway seen [] = ok tt
valid_mcp_servers_from valid_url gateway seen (s ∷ ss) =
    let rest = valid_mcp_servers_from valid_url gateway (s.name ∷ seen) ss in
    if not (str_eq gateway "")
    then err mcp_behind_gateway
    else if not (valid_mcp_name (codes s.name)) || str_eq s.name "gateway"
    then err bad_mcp_name
    else if str_in s.name seen
    then err duplicate_mcp
    else if not (valid_url s.url)
    then err bad_mcp_url
    else rest

unfoldable pub valid_mcp_servers :
    (String → Bool) → List McpServer → String → Result Fault (Unit {0})
unfolding valid_mcp_servers_from
valid_mcp_servers valid_url servers gateway = valid_mcp_servers_from valid_url gateway [] servers

-- `validSecrets`, with the ids seen so far.
unfoldable pub valid_secrets_from : List String → List String → Result Fault (List String)
valid_secrets_from seen [] = ok []
valid_secrets_from seen (id ∷ ids) =
    let rest = valid_secrets_from (id ∷ seen) ids in
    if not (valid_secret_id (codes id))
    then err bad_secret
    else if str_in id seen
    then err duplicate_secret
    else and_then rest λ out. ok (id ∷ out)

unfoldable pub valid_secrets : List String → Result Fault (List String)
unfolding valid_secrets_from
valid_secrets = valid_secrets_from []

-- `AllowSecrets(allow, want) == nil`.
unfoldable pub allow_secrets : List String → List String → Bool
allow_secrets allow [] = true
allow_secrets allow (id ∷ want) = str_in id allow && allow_secrets allow want

unfoldable pub valid_size : String → Result Fault String
valid_size size =
    if str_in size ("" ∷ "small" ∷ "medium" ∷ "large" ∷ []) then ok size else err bad_size

unfoldable pub valid_ship : String → Result Fault String
valid_ship ship =
    if str_eq ship "" || str_eq ship "pull-request"
    then ok "pull-request"
    else if str_eq ship "push-base"
    then ok "push-base"
    else err bad_ship

abbrev pub max_concurrent_leases_key : String
max_concurrent_leases_key = "max_concurrent_leases"

-- `validBudgets`: the one budget, by default 1; a key of the map occurs once.
unfoldable pub valid_budgets_from : Map ℤ → Map ℤ → Result Fault (Map ℤ)
valid_budgets_from out [] = ok out
valid_budgets_from out ((k, v) ∷ rest) =
    let next = valid_budgets_from ((k, v) ∷ []) rest in
    if not (str_eq k max_concurrent_leases_key)
    then err bad_budget
    else if is_negative v || is_zero v
    then err bad_budget
    else next

unfoldable pub valid_budgets : Map ℤ → Result Fault (Map ℤ)
unfolding valid_budgets_from
valid_budgets given = valid_budgets_from ((max_concurrent_leases_key, pos 1) ∷ []) given
