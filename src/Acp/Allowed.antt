-- ===== src/Acp/Allowed.antt =====
-- internal/acp/rules.go, permission.go and fence.go: what the gate of a session lets pass, and what a
-- refusal answers.
use rusui.Common.{
  ℕ, ◌≡◌, refl, Bool, true, false, ◌&&◌, ◌||◌, not, some, List, [], ◌∷◌, ◌++◌, map, arith, ◌⊎◌, inl,
  inr, Bool-cases, if◌then◌else◌, any, All, Text, codes, text_eq, text_eq-eq, has_part, ap,
}
use rusui.Acp.Lex.{lex_commands}
use rusui.Acp.Fence.{begins, fenced_command}
use rusui.Acp.Gate.{
  Rule, Decision, PermOption, ToolCall, Fields, tool_call_fields, is_empty, is_reject, redirects,
  all_allowed, allow_command, fields_match, rule_words, rejects, add_words, allow_from,
  rules_decide, fence_decide, looks_like, may_refuse, pick_option,
}

any-append :
    (p : List Text → Bool) (xs ys : List (List Text)) → any p (xs ++ ys) ≡ (any p xs || any p ys)
any-append p [] ys = refl
any-append p (x ∷ xs) ys = ground (arith, any-append p xs ys)

-- A command that begins with these words, if there are any.
unfoldable pub begins_some : List Text → List Text → Bool
unfolding begins
begins_some [] seg = false
begins_some (w ∷ ws) seg = begins (w ∷ ws) seg

module _ (lower : ℕ → ℕ) (fold : Text → Text → Bool) (f : Fields) where
  -- An allow rule without a command.
  abbrev pub is_open : Rule → Bool
  is_open r = not (is_reject r) && (fields_match lower fold r f.title f.kind && is_empty r.command)

  -- An allow rule with a command that `seg` begins with.
  abbrev pub covers : List Text → Rule → Bool
  covers seg r =
      not (is_reject r)
      && (fields_match lower fold r f.title f.kind
          && (not (is_empty r.command) && begins_some (rule_words lower fold r) seg))

  -- A command that redirects nothing and begins with some prefix, or is covered by some rule.
  abbrev pub is_covered : List (List Text) → List Rule → List Text → Bool
  is_covered prefixes rules seg =
      not (redirects seg) && (any (λ p. begins p seg) prefixes || any (covers seg) rules)

  covered_each :
      (prefixes segs : List (List Text))
      → all_allowed prefixes segs ≡ true
      → All (λ seg. is_covered prefixes [] seg ≡ true) segs
  unfolding all_allowed
  covered_each prefixes [] h = tt
  covered_each prefixes (seg ∷ segs) h = (ground arith, covered_each prefixes segs (ground arith))

  covered_some :
      (prefixes segs : List (List Text))
      → allow_command prefixes segs ≡ true
      → All (λ seg. is_covered prefixes [] seg ≡ true) segs
  unfolding allow_command
  covered_some prefixes [] h = tt
  covered_some prefixes (seg ∷ segs) h = covered_each prefixes (seg ∷ segs) h

  added_words :
      (prefixes : List (List Text)) (words seg : List Text)
      → any (λ p. begins p seg) (add_words lower fold prefixes words)
        ≡ (any (λ p. begins p seg) prefixes || begins_some words seg)
  unfolding begins_some
  added_words prefixes [] seg = ground arith
  added_words prefixes (w ∷ ws) seg =
      ground (arith, any-append (λ p. begins p seg) prefixes ((w ∷ ws) ∷ []))

  covered_then :
      (prefixes more : List (List Text)) (rules rest : List Rule)
      → ((seg : List Text) → is_covered more rest seg ≡ true → is_covered prefixes rules seg ≡ true)
      → (segs : List (List Text)) → All (λ seg. is_covered more rest seg ≡ true) segs
      → All (λ seg. is_covered prefixes rules seg ≡ true) segs
  covered_then prefixes more rules rest step [] h = h
  covered_then prefixes more rules rest step (seg ∷ segs) (h, hs) =
      (step seg h, covered_then prefixes more rules rest step segs hs)

  skip_rule :
      (prefixes : List (List Text)) (r : Rule) (rules : List Rule)
      → (any is_open rules ≡ true)
        ⊎ All (λ seg. is_covered prefixes rules seg ≡ true) (lex_commands (map lower f.cmd))
      → (any is_open (r ∷ rules) ≡ true)
        ⊎ All (λ seg. is_covered prefixes (r ∷ rules) seg ≡ true) (lex_commands (map lower f.cmd))
  skip_rule prefixes r rules (inl h) = inl (ground arith)
  skip_rule prefixes r rules (inr h) = inr (
      covered_then prefixes prefixes (r ∷ rules) rules (λ seg k. ground arith)
        (lex_commands (map lower f.cmd)) h)

  add_rule :
      (prefixes : List (List Text)) (r : Rule) (rules : List Rule)
      → (is_reject r || not (fields_match lower fold r f.title f.kind)) ≡ false
      → is_empty r.command ≡ false
      → (any is_open rules ≡ true)
        ⊎ All
            (λ seg.
              is_covered (add_words lower fold prefixes (rule_words lower fold r)) rules seg ≡ true)
            (lex_commands (map lower f.cmd))
      → (any is_open (r ∷ rules) ≡ true)
        ⊎ All (λ seg. is_covered prefixes (r ∷ rules) seg ≡ true) (lex_commands (map lower f.cmd))
  add_rule prefixes r rules here named (inl h) = inl (ground arith)
  add_rule prefixes r rules here named (inr h) = inr (
      covered_then prefixes (add_words lower fold prefixes (rule_words lower fold r)) (r ∷ rules)
        rules (λ seg k. ground (arith, added_words prefixes (rule_words lower fold r) seg))
        (lex_commands (map lower f.cmd)) h)

  allowed_from :
      (prefixes : List (List Text)) (rules : List Rule)
      → allow_from lower fold prefixes rules f ≡ true
      → (any is_open rules ≡ true)
        ⊎ All (λ seg. is_covered prefixes rules seg ≡ true) (lex_commands (map lower f.cmd))
  unfolding allow_from
  allowed_from prefixes [] h = inr (covered_some prefixes (lex_commands (map lower f.cmd)) h)
  allowed_from prefixes (r ∷ rules) h =
      elim (Bool-cases (is_reject r || not (fields_match lower fold r f.title f.kind))) [
        | inl out ↦ skip_rule prefixes r rules (allowed_from prefixes rules (ground arith))
        | inr here ↦ elim (Bool-cases (is_empty r.command)) [
          | inl bare ↦ inl (ground arith)
          | inr named ↦ add_rule prefixes r rules here named (
              allowed_from (add_words lower fold prefixes (rule_words lower fold r)) rules
                (ground arith))
        ]
      ]

unfenced :
    (title cmd : Text) (c t : Bool)
    → (c || (not (text_eq title cmd) && t)) ≡ false
    → (c ≡ false) × ((title ≡ cmd) ⊎ (t ≡ false))
unfenced title cmd c t h = elim (Bool-cases (text_eq title cmd)) [
  | inl same ↦ (ground arith, inl (text_eq-eq title cmd same))
  | inr other ↦ (ground arith, inr (ground arith))
]

fence_decide-next :
    (lower : ℕ → ℕ) (next : ToolCall → Decision) (call : ToolCall)
    → (fence_decide lower (some next) call).allow ≡ true
    → (fenced_command lower (tool_call_fields call).cmd ≡ false)
      × (((tool_call_fields call).title ≡ (tool_call_fields call).cmd)
          ⊎ (fenced_command lower (tool_call_fields call).title ≡ false))
      × ((next call).allow ≡ true)
unfolding fence_decide
fence_decide-next lower next call h =
    elim (Bool-cases (
      fenced_command lower (tool_call_fields call).cmd
      || (not (text_eq (tool_call_fields call).title (tool_call_fields call).cmd)
          && fenced_command lower (tool_call_fields call).title))) [
            | inl fenced ↦ ground arith
            | inr free ↦
                (let clear =
                    unfenced (tool_call_fields call).title (tool_call_fields call).cmd
                      (fenced_command lower (tool_call_fields call).cmd)
                      (fenced_command lower (tool_call_fields call).title) free in
                  (clear.0, clear.1, ground arith))
          ]

rules_decide-allowed :
    (lower : ℕ → ℕ) (fold : Text → Text → Bool) (rules : List Rule) (call : ToolCall)
    → (rules_decide lower fold rules call).allow ≡ true
    → (any (rejects lower fold (tool_call_fields call)) rules ≡ false)
      × ((any (is_open lower fold (tool_call_fields call)) rules ≡ true)
          ⊎ All
              (λ seg. is_covered lower fold (tool_call_fields call) [] rules seg ≡ true)
              (lex_commands (map lower (tool_call_fields call).cmd)))
unfolding rules_decide
rules_decide-allowed lower fold [] call h = ground arith
rules_decide-allowed lower fold (r ∷ rules) call h =
    elim (Bool-cases (any (rejects lower fold (tool_call_fields call)) (r ∷ rules))) [
      | inl hit ↦ ground arith
      | inr miss ↦
          (miss, allowed_from lower fold (tool_call_fields call) [] (r ∷ rules) (ground arith))
    ]

-- A tool call that the fence before the rules of a policy allows has no fenced command in its line, and
-- none in its title where that differs. No rule that rejects matches it. And either a rule without a
-- command allows it, or each command of its line redirects nothing and begins with the words of some
-- rule that allows it.
pub fence_decide-allowed :
    (lower : ℕ → ℕ) (fold : Text → Text → Bool) (rules : List Rule) (call : ToolCall)
    → (fence_decide lower (some (rules_decide lower fold rules)) call).allow ≡ true
    → (fenced_command lower (tool_call_fields call).cmd ≡ false)
      × (((tool_call_fields call).title ≡ (tool_call_fields call).cmd)
          ⊎ (fenced_command lower (tool_call_fields call).title ≡ false))
      × (any (rejects lower fold (tool_call_fields call)) rules ≡ false)
      × ((any (is_open lower fold (tool_call_fields call)) rules ≡ true)
          ⊎ All
              (λ seg. is_covered lower fold (tool_call_fields call) [] rules seg ≡ true)
              (lex_commands (map lower (tool_call_fields call).cmd)))
fence_decide-allowed lower fold rules call h =
    let passed = fence_decide-next lower (rules_decide lower fold rules) call h in
    let allowed = rules_decide-allowed lower fold rules call passed.2 in
    (passed.0, passed.1, allowed.0, allowed.1)

module _ (lower : ℕ → ℕ) where
  refusal_id :
      (o : PermOption)
      → may_refuse lower o ≡ true
      → has_part (codes "allow") (map lower o.option_id) ≡ false
  unfolding looks_like
  refusal_id o h = ground arith

  refusal_from :
      (o : PermOption) (opts : List PermOption) (b : Bool)
      → (b ≡ true → has_part (codes "allow") (map lower o.option_id) ≡ false)
      → has_part (codes "allow") (map lower (pick_option lower opts false)) ≡ false
      → has_part
          (codes "allow")
          (map lower (if b then o.option_id else pick_option lower opts false))
        ≡ false
  refusal_from o opts true own rest = own refl
  refusal_from o opts false own rest = rest

  refuses :
      (opts : List PermOption)
      → has_part (codes "allow") (map lower (codes "reject-once")) ≡ false
      → has_part (codes "allow") (map lower (pick_option lower opts false)) ≡ false
  unfolding pick_option
  refuses [] h = h
  refuses (o ∷ opts) h = refusal_from o opts (may_refuse lower o) (refusal_id o) (refuses opts h)

  -- The option that answers a refusal never has an id that contains the word allow, whatever options
  -- the guest offers, provided that lower case leaves the letters of "reject-once" as they are.
  pub pick_option-refuses :
      (opts : List PermOption)
      → map lower (codes "reject-once") ≡ codes "reject-once"
      → has_part (codes "allow") (map lower (pick_option lower opts false)) ≡ false
  pick_option-refuses opts low = refuses opts (ap (has_part (codes "allow")) low)
