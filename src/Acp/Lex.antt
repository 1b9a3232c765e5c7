-- ===== src/Acp/Lex.antt =====
-- internal/acp/fence.go `lexCommands` and `matchParen`: a shell line becomes commands of unquoted words.
-- The fuel of `lex_from` counts steps, and the length of the line is enough.
use rusui.Common.{
  ℕ, zero, suc, ◌+◌, ◌-◌, Bool, true, false, ◌&&◌, ◌||◌, List, [], ◌∷◌, ◌++◌, if◌then◌else◌, ◌==◌,
  any, length, Text,
}

-- The builder's word, the words of the command, and the commands so far.
pub record LexState : Type 0 where
  pub cmds : List (List Text)
  pub words : List Text
  pub cur : Text
  pub in_word : Bool

abbrev pub empty : LexState
empty = record { cmds = []; words = []; cur = []; in_word = false }

unfoldable pub flush_word : LexState → LexState
flush_word st =
    if st.in_word
    then record st { words = st.words ++ (st.cur ∷ []); cur = []; in_word = false }
    else st

abbrev pub end_words : List Text → LexState → LexState
end_words [] st = st
end_words (w ∷ ws) st = record st { cmds = st.cmds ++ ((w ∷ ws) ∷ []); words = [] }

unfoldable pub flush_cmd : LexState → LexState
unfolding flush_word
flush_cmd st = end_words (flush_word st).words (flush_word st)

-- A rune outside quotes, and one inside quotes, where the word has begun.
unfoldable pub push : ℕ → LexState → LexState
push c st = record st { cur = st.cur ++ (c ∷ []); in_word = true }

abbrev pub begin_word : LexState → LexState
begin_word st = record st { in_word = true }

abbrev pub write : Text → LexState → LexState
write s st = record st { cur = st.cur ++ s }

-- The text before a rune and the text after it; all of the text, if it does not occur.
unfoldable pub until : ℕ → Text → Text × Text
until q [] = ([], [])
until q (c ∷ s) = let (before, after) = until q s in if c == q then ([], s) else (c ∷ before, after)

-- `matchParen`, inside `depth` parentheses: the text before the one that closes the first, and after.
unfoldable pub match_paren : ℕ → Text → Text × Text
match_paren depth [] = ([], [])
match_paren depth (c ∷ s) =
    let (deep, after_deep) = match_paren (depth + 1) s in
    let (flat, after_flat) = match_paren depth s in
    let (up, after_up) = match_paren (depth - 1) s in
    if c == 40
    then (c ∷ deep, after_deep)
    else if c == 41
    then (if depth == 1 then ([], s) else (c ∷ up, after_up))
    else (c ∷ flat, after_flat)

-- What a rune outside quotes does, with the rest of the line.
pub data Token : Type 0 where
  escaped : ℕ → Text → Token
  single double : Text → Token
  opened : Text → Token
  blank separator plain : Token

abbrev pub is_blank : ℕ → Bool
is_blank c = c == 32 || c == 9

-- `;` `&` `|` newline, backquote, parentheses and braces.
abbrev pub is_separator : ℕ → Bool
is_separator c = any (λ d. c == d) (59 ∷ 38 ∷ 124 ∷ 10 ∷ 96 ∷ 40 ∷ 41 ∷ 123 ∷ 125 ∷ [])

unfoldable pub classify : ℕ → Text → Token
classify c [] =
    if c == 39
    then single []
    else if c == 34
    then double []
    else if is_blank c
    then blank
    else if is_separator c
    then separator
    else plain
classify c (d ∷ r) =
    if c == 92
    then escaped d r
    else if c == 39
    then single (d ∷ r)
    else if c == 34
    then double (d ∷ r)
    else if is_blank c
    then blank
    else if is_separator c
    then separator
    else if c == 36 && d == 40
    then opened r
    else plain

-- What a rune inside double quotes does.
pub data Inside : Type 0 where
  closed : Text → Inside
  literal : ℕ → Text → Inside
  substituted : Text → Text → Inside

abbrev pub backquoted : ℕ → Text → Inside
backquoted c r = if c == 96 then substituted (until 96 r).0 (until 96 r).1 else literal c r

unfoldable pub inside : ℕ → Text → Inside
unfolding until match_paren
inside c [] = if c == 34 then closed [] else backquoted c []
inside c (d ∷ r) =
    if c == 34
    then closed (d ∷ r)
    else if c == 92
    then literal d r
    else if c == 36 && d == 40
    then substituted (match_paren 1 r).0 (match_paren 1 r).1
    else backquoted c (d ∷ r)

-- The loop of `lexCommands`, in double quotes or not.
unfoldable pub lex_from : ℕ → Bool → Text → LexState → LexState
unfolding flush_word flush_cmd push until classify inside
lex_from zero quoted s st = st
lex_from (suc n) quoted [] st = st
lex_from (suc n) false (c ∷ r) st = elim (classify c r) [
  | escaped d rest ↦ lex_from n false rest (if d == 10 then st else push d st)
  | single rest ↦ lex_from n false (until 39 rest).1 (write (until 39 rest).0 (begin_word st))
  | double rest ↦ lex_from n true rest (begin_word st)
  | opened rest ↦ lex_from n false rest (flush_cmd st)
  | blank ↦ lex_from n false r (flush_word st)
  | separator ↦ lex_from n false r (flush_cmd st)
  | plain ↦ lex_from n false r (push c st)
]
lex_from (suc n) true (c ∷ r) st = elim (inside c r) [
  | closed rest ↦ lex_from n false rest st
  | literal d rest ↦ lex_from n true rest (write (d ∷ []) st)
  | substituted inner rest ↦
      lex_from n true rest
        (record st { cmds = st.cmds ++ (flush_cmd (lex_from n false inner empty)).cmds })
]

-- `lexCommands`.
unfoldable pub lex_commands : Text → List (List Text)
unfolding lex_from
lex_commands line = (flush_cmd (lex_from (length line) false line empty)).cmds
