-- ===== src/Acp/Ends.antt =====
-- internal/acp/fence.go `lexCommands`: each step shortens the line, so the length of the line is fuel enough.
use rusui.Common.{
  ℕ, zero, suc, ◌+◌, ◌-◌, ◌≤◌, ◌≡◌, refl, ap, ◌∙◌, Bool, true, false, ◌&&◌, [], ◌∷◌, ◌++◌, arith,
  if◌then◌else◌, ◌==◌, length, Text, Bool-cases, inl, inr,
}
use rusui.Acp.Lex.{
  LexState, empty, flush_word, flush_cmd, push, begin_word, write, until, match_paren, Token,
  escaped, single, double, opened, blank, separator, plain, classify, Inside, closed, literal,
  substituted, inside, lex_from, lex_commands, is_blank, is_separator,
}

until_le :
    (q : ℕ) (s : Text) → (length (until q s).0 ≤ length s) × (length (until q s).1 ≤ length s)
unfolding until
until_le q [] = (omega arith, omega arith)
until_le q (c ∷ s) =
    let (a, b) = until_le q s in
    elim (Bool-cases (c == q)) [
      | inl hit ↦ rw hit (omega arith, omega arith)
      | inr miss ↦ rw miss (omega (arith, a), omega (arith, b))
    ]

match_paren_le :
    (depth : ℕ) (s : Text)
    → (length (match_paren depth s).0 ≤ length s) × (length (match_paren depth s).1 ≤ length s)
unfolding match_paren
match_paren_le depth [] = (omega arith, omega arith)
match_paren_le depth (c ∷ s) =
    let (a, b) = match_paren_le (depth + 1) s in
    let (d, e) = match_paren_le depth s in
    let (f, g) = match_paren_le (depth - 1) s in
    elim (Bool-cases (c == 40)) [
      | inl hit ↦ rw hit (omega (arith, a), omega (arith, b))
      | inr miss ↦ elim (Bool-cases (c == 41)) [
        | inl close ↦ elim (Bool-cases (depth == 1)) [
          | inl last ↦ rw (miss, close, last) (omega arith, omega arith)
          | inr more ↦ rw (miss, close, more) (omega (arith, f), omega (arith, g))
        ]
        | inr other ↦ rw (miss, other) (omega (arith, d), omega (arith, e))
      ]
    ]

-- What is left of the line after a rune is no longer than what followed it.
abbrev TokenFits : ℕ → Token → Type 0
TokenFits k (escaped d rest) = length rest ≤ k
TokenFits k (single rest) = length rest ≤ k
TokenFits k (double rest) = length rest ≤ k
TokenFits k (opened rest) = length rest ≤ k
TokenFits k blank = Unit
TokenFits k separator = Unit
TokenFits k plain = Unit

abbrev InsideFits : ℕ → Inside → Type 0
InsideFits k (closed rest) = length rest ≤ k
InsideFits k (literal d rest) = length rest ≤ k
InsideFits k (substituted inner rest) = (length inner ≤ k) × (length rest ≤ k)

choose : (P : Token → Type 0) (b : Bool) (s t : Token) → P s → P t → P (if b then s else t)
choose P true s t p q = p
choose P false s t p q = q

choose_inside : (P : Inside → Type 0) (b : Bool) (s t : Inside) → P s → P t → P (if b then s else t)
choose_inside P true s t p q = p
choose_inside P false s t p q = q

classify-TokenFits : (c : ℕ) (r : Text) → TokenFits (length r) (classify c r)
unfolding classify
classify-TokenFits c [] = choose (TokenFits 0) (c == 39) _ _ (omega arith) (
    choose (TokenFits 0) (c == 34) _ _ (omega arith)
      (choose (TokenFits 0) (is_blank c) _ _ tt (choose (TokenFits 0) (is_separator c) _ _ tt tt)))
classify-TokenFits c (d ∷ r) =
    let P = TokenFits (suc (length r)) in
    choose P (c == 92) _ _ (omega arith) (
      choose P (c == 39) _ _ (omega arith) (
        choose P (c == 34) _ _ (omega arith) (
          choose P (is_blank c) _ _ tt (
            choose P (is_separator c) _ _ tt
              (choose P (c == 36 && d == 40) _ _ (omega arith) tt)))))

inside-InsideFits : (c : ℕ) (r : Text) → InsideFits (length r) (inside c r)
unfolding inside
inside-InsideFits c [] =
    choose_inside (InsideFits 0) (c == 34) _ _ (omega arith)
      (choose_inside (InsideFits 0) (c == 96) _ _ (until_le 96 []) (omega arith))
inside-InsideFits c (d ∷ r) =
    let P = InsideFits (suc (length r)) in
    let (a, b) = match_paren_le 1 r in
    choose_inside P (c == 34) _ _ (omega arith) (
      choose_inside P (c == 92) _ _ (omega arith) (
        choose_inside P (c == 36 && d == 40) _ _ (omega (arith, a), omega (arith, b))
          (choose_inside P (c == 96) _ _ (until_le 96 (d ∷ r)) (omega arith))))

-- The loop with any fuel that covers the line.
abbrev Same : ℕ → ℕ → ℕ → Type 0
Same k n m =
    (q : Bool) (s : Text) (st : LexState) → length s ≤ k → lex_from n q s st ≡ lex_from m q s st

token-Same :
    (n m k c : ℕ) (r : Text) (st : LexState)
    → Same k n m
    → length r ≤ k
    → lex_from (suc n) false (c ∷ r) st ≡ lex_from (suc m) false (c ∷ r) st
unfolding lex_from
token-Same n m k c r st h l = by_token (classify c r) (classify-TokenFits c r)
  where
    by_token :
        (t : Token)
        → TokenFits (length r) t
        → (elim t as (λ _. LexState) [
          | escaped d rest ↦ lex_from n false rest (if d == 10 then st else push d st)
          | single rest ↦
              lex_from n false (until 39 rest).1 (write (until 39 rest).0 (begin_word st))
          | double rest ↦ lex_from n true rest (begin_word st)
          | opened rest ↦ lex_from n false rest (flush_cmd st)
          | blank ↦ lex_from n false r (flush_word st)
          | separator ↦ lex_from n false r (flush_cmd st)
          | plain ↦ lex_from n false r (push c st)
        ])
          ≡ (elim t as (λ _. LexState) [
            | escaped d rest ↦ lex_from m false rest (if d == 10 then st else push d st)
            | single rest ↦
                lex_from m false (until 39 rest).1 (write (until 39 rest).0 (begin_word st))
            | double rest ↦ lex_from m true rest (begin_word st)
            | opened rest ↦ lex_from m false rest (flush_cmd st)
            | blank ↦ lex_from m false r (flush_word st)
            | separator ↦ lex_from m false r (flush_cmd st)
            | plain ↦ lex_from m false r (push c st)
          ])
    by_token (escaped d rest) f = h false rest _ (omega (arith, f, l))
    by_token (single rest) f =
        h false (until 39 rest).1 _ (omega (arith, f, l, (until_le 39 rest).1))
    by_token (double rest) f = h true rest _ (omega (arith, f, l))
    by_token (opened rest) f = h false rest _ (omega (arith, f, l))
    by_token blank f = h false r _ l
    by_token separator f = h false r _ l
    by_token plain f = h false r _ l

inside-Same :
    (n m k c : ℕ) (r : Text) (st : LexState)
    → Same k n m
    → length r ≤ k
    → lex_from (suc n) true (c ∷ r) st ≡ lex_from (suc m) true (c ∷ r) st
unfolding lex_from
inside-Same n m k c r st h l = by_inside (inside c r) (inside-InsideFits c r)
  where
    by_inside :
        (t : Inside)
        → InsideFits (length r) t
        → (elim t as (λ _. LexState) [
          | closed rest ↦ lex_from n false rest st
          | literal d rest ↦ lex_from n true rest (write (d ∷ []) st)
          | substituted inner rest ↦
              lex_from n true rest
                (record st { cmds = st.cmds ++ (flush_cmd (lex_from n false inner empty)).cmds })
        ])
          ≡ (elim t as (λ _. LexState) [
            | closed rest ↦ lex_from m false rest st
            | literal d rest ↦ lex_from m true rest (write (d ∷ []) st)
            | substituted inner rest ↦
                lex_from m true rest
                  (record st { cmds = st.cmds ++ (flush_cmd (lex_from m false inner empty)).cmds })
          ])
    by_inside (closed rest) f = h false rest _ (omega (arith, f, l))
    by_inside (literal d rest) f = h true rest _ (omega (arith, f, l))
    by_inside (substituted inner rest) f =
        h true rest _ (omega (arith, f.1, l))
        ∙ ap
            (λ (x : LexState).
              lex_from m true rest (record st { cmds = st.cmds ++ (flush_cmd x).cmds }))
            (h false inner empty (omega (arith, f.0, l)))

lex_from_same :
    (n m : ℕ) (q : Bool) (s : Text) (st : LexState)
    → length s ≤ n
    → length s ≤ m
    → lex_from n q s st ≡ lex_from m q s st
unfolding lex_from
lex_from_same zero zero q s st a b = refl
lex_from_same zero (suc m) q [] st a b = refl
lex_from_same zero (suc m) q (c ∷ s) st a b = ground arith
lex_from_same (suc n) zero q [] st a b = refl
lex_from_same (suc n) zero q (c ∷ s) st a b = ground arith
lex_from_same (suc n) (suc m) q [] st a b = refl
lex_from_same (suc n) (suc m) false (c ∷ s) st a b =
    token-Same n m (length s) c s st
      (λ q t u l. lex_from_same n m q t u (omega (arith, a, l)) (omega (arith, b, l))) (omega arith)
lex_from_same (suc n) (suc m) true (c ∷ s) st a b =
    inside-Same n m (length s) c s st
      (λ q t u l. lex_from_same n m q t u (omega (arith, a, l)) (omega (arith, b, l))) (omega arith)

-- Any fuel that is no less than the length of the line gives the commands that `lex_commands` gives: the
-- loop always ends by itself, nested substitutions included.
pub lex_commands-lex_from :
    (n : ℕ) (line : Text)
    → length line ≤ n
    → (flush_cmd (lex_from n false line empty)).cmds ≡ lex_commands line
unfolding lex_commands
lex_commands-lex_from n line l =
    ap (λ (x : LexState). (flush_cmd x).cmds)
      (lex_from_same n (length line) false line empty l (omega arith))
