-- ===== src/Acp/Fence.antt =====
-- internal/acp/fence.go: which commands the fence refuses.
use rusui.Common.{
  ℕ, zero, suc, Bool, true, false, ◌&&◌, ◌||◌, not, Option, none, some, List, [], ◌∷◌, ◌++◌, map,
  if◌then◌else◌, ◌==◌, any, drop, Text, codes, text_eq, text_in, starts_with, has_part, trim_prefix,
}
use rusui.Acp.Lex.{lex_commands}

abbrev pub is : Text → Text → Bool
is w a = text_eq a w

-- Go's `path.Base`: the last element that is not empty, with the one begun and the last so far.
unfoldable pub base_from : Text → Text → Text → Text
base_from [] last [] = last
base_from (d ∷ cur) last [] = d ∷ cur
base_from [] last (c ∷ s) = if c == 47 then base_from [] last s else base_from (c ∷ []) last s
base_from (d ∷ cur) last (c ∷ s) =
    if c == 47 then base_from [] (d ∷ cur) s else base_from ((d ∷ cur) ++ (c ∷ [])) last s

unfoldable pub base : Text → Text
unfolding base_from
base [] = codes "."
base (c ∷ s) = base_from [] (codes "/") (c ∷ s)

abbrev pub shells : List Text
shells = codes "sh" ∷ codes "bash" ∷ codes "zsh" ∷ codes "dash" ∷ codes "ksh" ∷ []

abbrev pub dash : Text → Bool
dash a = starts_with (codes "-") a

-- The git options that take the next argument.
unfoldable pub takes_value : Text → Bool
takes_value a = text_in a (
    codes "-c"
    ∷ codes "--git-dir"
    ∷ codes "--work-tree"
    ∷ codes "--namespace"
    ∷ codes "--exec-path"
    ∷ codes "--config-env"
    ∷ [])

-- `skipGitGlobals`.
unfoldable pub skip_git_globals : List Text → List Text
skip_git_globals [] = []
skip_git_globals (a ∷ []) = if dash a then [] else a ∷ []
skip_git_globals (a ∷ b ∷ rest) =
    let one = skip_git_globals (b ∷ rest) in
    let two = skip_git_globals rest in
    if dash a then (if takes_value a then two else one) else a ∷ b ∷ rest

abbrev pub is_alias : Text → Bool
is_alias a = starts_with (codes "alias.") a

-- `gitAliasGlobal`.
unfoldable pub git_alias_global : List Text → Bool
git_alias_global [] = false
git_alias_global (a ∷ []) =
    dash a && (not (takes_value a) && starts_with (codes "--config-env=alias.") a)
git_alias_global (a ∷ b ∷ rest) =
    let one = git_alias_global (b ∷ rest) in
    let two = git_alias_global rest in
    dash a
    && (if takes_value a
        then is_alias b || two
        else starts_with (codes "--config-env=alias.") a || one)

-- The index of the last `c`, and the text after it.
unfoldable pub after_last : ℕ → Text → Option (ℕ × Text)
after_last c [] = none
after_last c (d ∷ s) = elim (after_last c s) [
  | some (i, t) ↦ some (suc i, t)
  | none ↦ if d == c then some (0, s) else none
]

abbrev pub is_protected : Text → Bool
is_protected dst =
    text_in (trim_prefix (codes "refs/heads/") dst) (codes "main" ∷ codes "master" ∷ [])

-- A refspec that deletes a branch or writes a protected one.
unfoldable pub fenced_ref : Text → Bool
unfolding after_last
fenced_ref a = elim (after_last 58 a) [
  | none ↦ is_protected a
  | some (i, dst) ↦ i == 0 || is_protected dst
]

unfoldable pub fenced_flag : Text → Bool
fenced_flag a =
    text_in a (
      codes "-f"
      ∷ codes "--force"
      ∷ codes "--delete"
      ∷ codes "-d"
      ∷ codes "--mirror"
      ∷ codes "--all"
      ∷ codes "--prune"
      ∷ [])
    || (starts_with (codes "--force") a || starts_with (codes "+") a)

-- `fencedPush`.
unfoldable pub fenced_push : List Text → Bool
unfolding fenced_flag fenced_ref
fenced_push [] = false
fenced_push (a ∷ rest) =
    fenced_flag a || (if dash a then fenced_push rest else fenced_ref a || fenced_push rest)

-- `equalPrefix`, with the test of the length.
unfoldable pub begins : List Text → List Text → Bool
begins [] args = true
begins (w ∷ ws) [] = false
begins (w ∷ ws) (a ∷ args) = text_eq a w && begins ws args

abbrev pub fenced_gh_commands : List (List Text)
fenced_gh_commands =
    (codes "pr" ∷ codes "merge" ∷ [])
    ∷ (codes "pr" ∷ codes "close" ∷ [])
    ∷ (codes "pr" ∷ codes "review" ∷ [])
    ∷ (codes "release" ∷ [])
    ∷ (codes "repo" ∷ [])
    ∷ (codes "workflow" ∷ [])
    ∷ (codes "secret" ∷ [])
    ∷ (codes "variable" ∷ [])
    ∷ (codes "ruleset" ∷ [])
    ∷ (codes "alias" ∷ codes "set" ∷ [])
    ∷ (codes "alias" ∷ codes "import" ∷ [])
    ∷ (codes "extension" ∷ [])
    ∷ []

-- An argument of `gh api` that makes the request a write.
unfoldable pub api_writes : Text → Bool
api_writes a =
    text_in a (
      codes "-x"
      ∷ codes "--method"
      ∷ codes "-f"
      ∷ codes "--field"
      ∷ codes "--raw-field"
      ∷ codes "--input"
      ∷ [])
    || any (λ p. starts_with p a)
        (codes "-x"
          ∷ codes "--method="
          ∷ codes "--field="
          ∷ codes "--raw-field="
          ∷ codes "--input="
          ∷ [])

-- `fencedGHArgs`.
unfoldable pub fenced_gh : List Text → Bool
unfolding begins api_writes
fenced_gh args =
    begins (codes "pr" ∷ codes "create" ∷ []) args
    || (begins (codes "pr" ∷ codes "edit" ∷ []) args
        || (any (λ p. begins p args) fenced_gh_commands
            || ((begins (codes "pr" ∷ codes "ready" ∷ []) args
                  && text_in (codes "--undo") (drop 2 args))
                || (begins (codes "api" ∷ []) args && any api_writes (drop 1 args)))))

abbrev pub runs_command : Text → Bool
runs_command a = dash a && (not (starts_with (codes "--") a) && has_part (codes "c") a)

unfoldable pub join : List Text → Text
join [] = []
join (w ∷ []) = w
join (w ∷ v ∷ ws) = w ++ (32 ∷ join (v ∷ ws))

module _ (nested : Text → Bool) where
  -- The argument of the first `-c` of a shell, when there is one.
  unfoldable pub shell_payload : List Text → Bool
  shell_payload [] = false
  shell_payload (a ∷ []) = false
  shell_payload (a ∷ b ∷ rest) =
      let later = shell_payload (b ∷ rest) in if runs_command a then nested b else later

  unfoldable pub fenced_git : List Text → Bool
  unfolding fenced_push
  fenced_git [] = false
  fenced_git (a ∷ rest) =
      (text_eq a (codes "push") && fenced_push rest)
      || (text_eq a (codes "config") && any is_alias rest)

  -- A word of a command, with the words after it.
  unfoldable pub fenced_word : Text → List Text → Bool
  unfolding shell_payload fenced_git fenced_gh git_alias_global skip_git_globals base join
  fenced_word w rest =
      if text_in (base w) shells
      then shell_payload rest
      else if text_eq (base w) (codes "eval")
      then nested (join rest)
      else if text_eq (base w) (codes "gh")
      then fenced_gh rest
      else if text_eq (base w) (codes "git")
      then git_alias_global rest || fenced_git (skip_git_globals rest)
      else false

  -- `fencedSegment`.
  unfoldable pub fenced_segment : List Text → Bool
  unfolding fenced_word
  fenced_segment [] = false
  fenced_segment (w ∷ rest) = fenced_word w rest || fenced_segment rest

module _ (lower : ℕ → ℕ) where
  -- `fencedLine`, with the number of levels left: at depth 5 none is.
  unfoldable pub fenced_line : ℕ → Text → Bool
  unfolding fenced_segment
  fenced_line zero line = true
  fenced_line (suc left) line =
      any (fenced_segment (fenced_line left)) (lex_commands (map lower line))

  -- `FencedCommand`.
  unfoldable pub fenced_command : Text → Bool
  unfolding fenced_line
  fenced_command = fenced_line 5
