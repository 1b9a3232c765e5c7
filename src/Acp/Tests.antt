-- ===== src/Acp/Tests.antt =====
-- Command lines that the fence of internal/acp/fence.go reads.
use rusui.Common.{
  map, ◌≡◌, refl, true, false, none, some, List, [], ◌∷◌, ◌⊎◌, any, All, Text, codes, arith,
  text_eq, has_part,
}
use rusui.Acp.Lex.{
  lex_commands, lex_from, flush_cmd, flush_word, push, until, match_paren, classify, inside, empty,
}
use rusui.Acp.Fence.{
  fenced_segment, fenced_ref, after_last, base, base_from, fenced_command, fenced_line, fenced_word,
  fenced_push, fenced_flag, fenced_git, skip_git_globals, git_alias_global, takes_value,
  shell_payload, join, begins, fenced_gh, api_writes,
}
use rusui.Acp.Ends.{lex_commands-lex_from}
use rusui.Acp.Gate.{
  Rule, PermOption, ToolCall, members, Fields, tool_call_fields, rules_decide, fence_decide,
  pick_option, rejects, is_space, fields_from, in_order, reject_segment, reject_command,
  all_allowed, allow_command, field_match, fields_match, rule_matches, allow_from, looks_like,
}
use rusui.Acp.Allowed.{is_open, is_covered, fence_decide-allowed, pick_option-refuses}
use rusui.Acp.Push.{push_words, main, onto, end, valued, bare}
use rusui.Acp.Plain.{fenced_command-push, lex_commands-join}

-- `echo "$(git push o main)"; ls`.
nested_words :
    lex_commands (codes "echo \"$(git push o main)\"; ls")
    ≡ (codes "git" ∷ codes "push" ∷ codes "o" ∷ codes "main" ∷ [])
      ∷ (codes "echo" ∷ [] ∷ [])
      ∷ (codes "ls" ∷ [])
      ∷ []
unfolding lex_commands lex_from flush_cmd flush_word push until match_paren classify inside
nested_words = refl

base_of_git : base (codes "/usr/bin/git") ≡ codes "git"
unfolding base base_from
base_of_git = refl

lex_commands-lex_from_example :
    (flush_cmd (lex_from 9 false (codes "a `b c`") empty)).cmds ≡ lex_commands (codes "a `b c`")
lex_commands-lex_from_example = lex_commands-lex_from 9 (codes "a `b c`") (omega arith)

-- The nested shells of a line.
wrapped : fenced_command (λ c. c) (codes "sh -c 'bash -c \"git -c x=y push --force\"'") ≡ true
unfolding fenced_command fenced_line fenced_segment fenced_word fenced_push fenced_flag fenced_ref
    after_last fenced_git skip_git_globals git_alias_global takes_value shell_payload join begins
    fenced_gh api_writes base base_from lex_commands lex_from flush_cmd flush_word push until
    match_paren classify inside
wrapped = refl

-- `env /usr/bin/git -c dir --no-pager push -u head:main`.
abbrev pushed : List Text
pushed =
    push_words (codes "env" ∷ []) (codes "/usr/bin/git")
      (codes "-c" ∷ codes "dir" ∷ codes "--no-pager" ∷ []) (codes "-u" ∷ []) (codes "head:main") []

joined : join pushed ≡ codes "env /usr/bin/git -c dir --no-pager push -u head:main"
unfolding join
joined = refl

lowered : map (λ c. c) (join pushed) ≡ join pushed
unfolding join
lowered = refl

fenced_command-push_example : fenced_command (λ c. c) (join pushed) ≡ true
fenced_command-push_example =
    fenced_command-push (λ c. c) (codes "env" ∷ [])
      (codes "-c" ∷ codes "dir" ∷ codes "--no-pager" ∷ []) (codes "-u" ∷ []) []
      (codes "/usr/bin/git") (codes "head:main") lowered refl base_of_git
      (valued (codes "-c") (codes "dir") (codes "--no-pager" ∷ []) refl
        (bare (codes "--no-pager") [] refl refl end))
      (onto (codes "head") refl main)

lex_commands-join_example :
    lex_commands (join (codes "git" ∷ codes "push" ∷ [])) ≡ (codes "git" ∷ codes "push" ∷ []) ∷ []
lex_commands-join_example = lex_commands-join (codes "git") (codes "push" ∷ []) refl refl

-- `go test` may run, and nothing that publishes.
abbrev go_rules : List Rule
go_rules =
    record { tool = []; kind = codes "execute"; command = codes "go test"; action = [] }
    ∷ record { tool = []; kind = []; command = codes "npm publish"; action = codes "reject" }
    ∷ []

abbrev go_call : ToolCall
go_call =
    members (some (codes "Run tests")) none (some (codes "execute"))
      (some (codes "go test ./... && go test -v"))

abbrev go_fields : Fields
go_fields = record {
  title = codes "Run tests";
  kind = codes "execute";
  cmd = codes "go test ./... && go test -v";
}

go_fields_read : tool_call_fields go_call ≡ go_fields
unfolding tool_call_fields
go_fields_read = refl

go_allowed :
    (fence_decide (λ c. c) (some (rules_decide (λ c. c) text_eq go_rules)) go_call).allow ≡ true
unfolding fence_decide rules_decide tool_call_fields is_space fields_from in_order reject_segment
    reject_command all_allowed allow_command field_match fields_match rule_matches allow_from
    fenced_command fenced_line fenced_segment fenced_word fenced_push fenced_flag fenced_ref
    after_last fenced_git skip_git_globals git_alias_global takes_value shell_payload join begins
    fenced_gh api_writes base base_from lex_commands lex_from flush_cmd flush_word push until
    match_paren classify inside
go_allowed = refl

-- A line that redirects its output asks.
redirected :
    (rules_decide
      (λ c. c)
      text_eq
      go_rules
      (members none none (some (codes "execute")) (some (codes "go test > out")))).matched
    ≡ false
unfolding rules_decide tool_call_fields is_space fields_from in_order reject_segment reject_command
    all_allowed allow_command field_match fields_match rule_matches allow_from begins base base_from
    lex_commands lex_from flush_cmd flush_word push until match_paren classify inside
redirected = refl

fence_decide-allowed_example :
    (fenced_command (λ c. c) (tool_call_fields go_call).cmd ≡ false)
    × (((tool_call_fields go_call).title ≡ (tool_call_fields go_call).cmd)
        ⊎ (fenced_command (λ c. c) (tool_call_fields go_call).title ≡ false))
    × (any (rejects (λ c. c) text_eq (tool_call_fields go_call)) go_rules ≡ false)
    × ((any (is_open (λ c. c) text_eq (tool_call_fields go_call)) go_rules ≡ true)
        ⊎ All
            (λ seg. is_covered (λ c. c) text_eq (tool_call_fields go_call) [] go_rules seg ≡ true)
            (lex_commands (map (λ c. c) (tool_call_fields go_call).cmd)))
fence_decide-allowed_example = fence_decide-allowed (λ c. c) text_eq go_rules go_call go_allowed

abbrev tricky : List PermOption
tricky =
    record { option_id = codes "do-not-reject-allow"; name = []; kind = codes "reject_once" }
    ∷ record { option_id = codes "deny"; name = []; kind = codes "reject_always" }
    ∷ []

picked : pick_option (λ c. c) tricky false ≡ codes "deny"
unfolding pick_option looks_like
picked = refl

pick_option-refuses_example :
    has_part (codes "allow") (map (λ c. c) (pick_option (λ c. c) tricky false)) ≡ false
pick_option-refuses_example = pick_option-refuses (λ c. c) tricky refl
