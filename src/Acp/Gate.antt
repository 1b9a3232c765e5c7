-- ===== src/Acp/Gate.antt =====
-- internal/acp/rules.go and permission.go: the rules of a policy for the tool calls of a guest, the fence
-- before them (`FenceGate` of fence.go), and the option that answers a request.
use rusui.Common.{
  ℕ, Bool, true, false, ◌&&◌, ◌||◌, not, Option, none, some, List, [], ◌∷◌, ◌++◌, map,
  if◌then◌else◌, ◌==◌, any, Text, codes, text_eq, has_part,
}
use rusui.Acp.Lex.{lex_commands}
use rusui.Acp.Fence.{base, begins, fenced_command}

-- A rule; an empty field is a wildcard.
pub record Rule : Type 0 where
  pub tool : Text
  pub kind : Text
  pub command : Text
  pub action : Text

pub record Decision : Type 0 where
  pub matched : Bool
  pub allow : Bool

pub record PermOption : Type 0 where
  pub option_id : Text
  pub name : Text
  pub kind : Text

-- The JSON of a tool call: the text that could not be read, or its members that are strings.
pub data ToolCall : Type 0 where
  unread : Text → ToolCall
  members : Option Text → Option Text → Option Text → Option Text → ToolCall

pub record Fields : Type 0 where
  pub title : Text
  pub kind : Text
  pub cmd : Text

abbrev pub Gate : Type 0
Gate = ToolCall → Decision

abbrev pub is_empty : Text → Bool
is_empty [] = true
is_empty (c ∷ s) = false

abbrev pub text_or_empty : Option Text → Text
text_or_empty none = []
text_or_empty (some s) = s

-- `toolCallFields`; the members are title, toolName, kind and command.
unfoldable pub tool_call_fields : ToolCall → Fields
tool_call_fields (unread raw) = record { title = []; kind = []; cmd = raw }
tool_call_fields (members title tool_name kind command) =
    let named = text_or_empty title in
    let given = text_or_empty command in
    record {
      title = if is_empty named then text_or_empty tool_name else named;
      kind = text_or_empty kind;
      cmd = if is_empty given then named else given;
    }

-- `unicode.IsSpace`.
unfoldable pub is_space : ℕ → Bool
is_space c =
    any (λ d. c == d)
      (9 ∷ 10 ∷ 11 ∷ 12 ∷ 13 ∷ 32 ∷ 133 ∷ 160 ∷ 5760 ∷ 8192 ∷ 8193 ∷ 8194 ∷ 8195 ∷ 8196 ∷ 8197
        ∷ 8198 ∷ 8199 ∷ 8200 ∷ 8201 ∷ 8202 ∷ 8232 ∷ 8233 ∷ 8239 ∷ 8287 ∷ 12288 ∷ [])

abbrev end_field : Text → List Text
end_field [] = []
end_field (c ∷ s) = (c ∷ s) ∷ []

-- Go's `strings.Fields`, with the word begun.
unfoldable pub fields_from : Text → Text → List Text
unfolding is_space
fields_from cur [] = end_field cur
fields_from cur (c ∷ s) =
    if is_space c then end_field cur ++ fields_from [] s else fields_from (cur ++ (c ∷ [])) s

unfoldable pub in_order : List Text → List Text → Bool
in_order [] got = true
in_order (w ∷ want) [] = false
in_order (w ∷ want) (g ∷ got) =
    let next = in_order want got in
    let same = in_order (w ∷ want) got in if text_eq g w then next else same

-- One command: its words from each position on.
unfoldable pub reject_segment : Text → List Text → List Text → Bool
unfolding base in_order
reject_segment w want [] = false
reject_segment w want (g ∷ seg) =
    (text_eq (base g) w && in_order want seg) || reject_segment w want seg

unfoldable pub reject_command : List Text → List (List Text) → Bool
unfolding reject_segment
reject_command [] segs = false
reject_command (w ∷ want) segs = any (reject_segment w want) segs

abbrev pub redirects : List Text → Bool
redirects seg = any (λ w. has_part (codes ">") w) seg

unfoldable pub all_allowed : List (List Text) → List (List Text) → Bool
unfolding begins
all_allowed prefixes [] = true
all_allowed prefixes (seg ∷ segs) =
    not (redirects seg) && (any (λ p. begins p seg) prefixes && all_allowed prefixes segs)

unfoldable pub allow_command : List (List Text) → List (List Text) → Bool
unfolding all_allowed
allow_command prefixes [] = false
allow_command prefixes (seg ∷ segs) = all_allowed prefixes (seg ∷ segs)

abbrev pub is_reject : Rule → Bool
is_reject r = text_eq r.action (codes "reject")

-- `DenyUnmatched`.
abbrev pub deny_unmatched : Gate
deny_unmatched call = record { matched = false; allow = false }

-- The lower case of a rune, and `strings.EqualFold`.
module _ (lower : ℕ → ℕ) (equal_fold : Text → Text → Bool) where
  unfoldable pub field_match : Text → Text → Bool
  field_match want got =
      not (is_empty want || is_empty got)
      && (equal_fold want got || has_part (map lower want) (map lower got))

  unfoldable pub fields_match : Rule → Text → Text → Bool
  unfolding field_match
  fields_match r title kind =
      (is_empty r.tool || (field_match r.tool title || field_match r.tool kind))
      && (is_empty r.kind || (field_match r.kind kind || field_match r.kind title))

  abbrev pub rule_words : Rule → List Text
  rule_words r = fields_from [] (map lower r.command)

  unfoldable pub rule_matches : Rule → Fields → Bool
  rule_matches r f =
      if is_empty r.tool && (is_empty r.kind && is_empty r.command)
      then not (is_reject r)
      else if not (fields_match r f.title f.kind)
      then false
      else if is_empty r.command
      then true
      else reject_command (rule_words r) (lex_commands (map lower f.cmd))
        || (not (text_eq f.title f.cmd)
            && reject_command (rule_words r) (lex_commands (map lower f.title)))

  abbrev pub add_words : List (List Text) → List Text → List (List Text)
  add_words prefixes [] = prefixes
  add_words prefixes (w ∷ ws) = prefixes ++ ((w ∷ ws) ∷ [])

  -- The loop of `allows`, with the words of the rules before.
  unfoldable pub allow_from : List (List Text) → List Rule → Fields → Bool
  allow_from prefixes [] f = allow_command prefixes (lex_commands (map lower f.cmd))
  allow_from prefixes (r ∷ rules) f =
      let skipped = allow_from prefixes rules f in
      let added = allow_from (add_words prefixes (rule_words r)) rules f in
      if is_reject r || not (fields_match r f.title f.kind)
      then skipped
      else if is_empty r.command
      then true
      else added

  abbrev pub rejects : Fields → Rule → Bool
  rejects f r = is_reject r && rule_matches r f

  -- `RulesGate.Decide`.
  unfoldable pub rules_decide : List Rule → Gate
  rules_decide [] call = record { matched = false; allow = false }
  rules_decide (r ∷ rules) call =
      let f = tool_call_fields call in
      if any (rejects f) (r ∷ rules)
      then record { matched = true; allow = false }
      else if allow_from [] (r ∷ rules) f
      then record { matched = true; allow = true }
      else record { matched = false; allow = false }

abbrev pub decide_next : Option Gate → Gate
decide_next none call = deny_unmatched call
decide_next (some next) call = next call

module _ (lower : ℕ → ℕ) where
  -- `FenceGate.Decide`.
  unfoldable pub fence_decide : Option Gate → Gate
  fence_decide next call =
      let f = tool_call_fields call in
      if fenced_command lower f.cmd || (not (text_eq f.title f.cmd) && fenced_command lower f.title)
      then record { matched = true; allow = false }
      else decide_next next call

  unfoldable pub looks_like : PermOption → List Text → Bool
  looks_like o words =
      any (λ w. has_part w (map lower o.option_id) || has_part w (map lower o.kind)) words

  abbrev first_id : Text → (PermOption → Bool) → List PermOption → Text
  first_id fallback p [] = fallback
  first_id fallback p (o ∷ opts) = if p o then o.option_id else first_id fallback p opts

  abbrev pub may_refuse : PermOption → Bool
  may_refuse o =
      looks_like o (codes "reject" ∷ codes "deny" ∷ []) && not (looks_like o (codes "allow" ∷ []))

  unfoldable pub pick_option : List PermOption → Bool → Text
  unfolding looks_like
  pick_option opts false = first_id (codes "reject-once") may_refuse opts
  pick_option opts true =
      first_id (codes "allow-once") (λ o. looks_like o (codes "allow" ∷ [])) opts
