-- ===== src/Policy/Names.antt =====
-- internal/policy/policy.go and project_key.go: the names that a policy may use.
use rusui.Common.{
  ℕ, Bool, true, false, ◌&&◌, ◌||◌, not, Option, none, some, [], ◌∷◌, ◌++◌, if◌then◌else◌, ◌==◌,
  leb, ltb, length, Text, codes, starts_with, drop,
}

abbrev pub is_lower : ℕ → Bool
is_lower c = leb 97 c && leb c 122

abbrev pub is_digit : ℕ → Bool
is_digit c = leb 48 c && leb c 57

-- The runes after the first: letters, digits, and `extra`.
unfoldable pub valid_tail : (ℕ → Bool) → Text → Bool
valid_tail extra [] = true
valid_tail extra (c ∷ s) = (is_lower c || (is_digit c || extra c)) && valid_tail extra s

-- `validSlug(slug) == nil`. The loop admits a digit in front, the test after it does not.
unfoldable pub valid_slug : Text → Bool
unfolding valid_tail
valid_slug [] = false
valid_slug (c ∷ s) = (is_lower c || is_digit c) && (valid_tail (λ d. d == 45) s && is_lower c)

unfoldable pub valid_tenant : Text → Bool
valid_tenant [] = true
valid_tenant (c ∷ s) = valid_slug (c ∷ s)

-- `ValidSecretID`, on a text in ASCII, whose length is its number of runes; no other is valid.
unfoldable pub valid_secret_id : Text → Bool
unfolding valid_tail
valid_secret_id [] = false
valid_secret_id (c ∷ s) =
    not (ltb 32 (length (c ∷ s)))
    && ((is_lower c || is_digit c) && (valid_tail (λ d. d == 95) s && is_lower c))

-- `^[a-z0-9][a-z0-9_-]{0,31}$`.
unfoldable pub valid_mcp_name : Text → Bool
unfolding valid_tail
valid_mcp_name [] = false
valid_mcp_name (c ∷ s) =
    (is_lower c || is_digit c) && (valid_tail (λ d. d == 95 || d == 45) s && leb (length s) 31)

abbrev pub project_key_prefix : Text
project_key_prefix = codes "project:"

-- `ProjectKey`.
unfoldable pub project_key : Text → Text
project_key slug = project_key_prefix ++ slug

-- `ParseProjectKey`.
unfoldable pub parse_project_key : Text → Option Text
parse_project_key repo =
    if not (starts_with project_key_prefix repo)
    then none
    else (let slug = drop (length project_key_prefix) repo in
        if valid_slug slug then some slug else none)

unfoldable pub is_project_key : Text → Bool
is_project_key repo = elim (parse_project_key repo) [ none ↦ false | some slug ↦ true ]
