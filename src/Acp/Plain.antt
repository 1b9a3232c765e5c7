-- ===== src/Acp/Plain.antt =====
-- internal/acp/fence.go: a line of plain words is read as those words.
use rusui.Common.{
  ℕ, zero, suc, ◌≤◌, ◌≡◌, refl, sym, ap, subst, ◌∙◌, Bool, true, false, ◌&&◌, not, List, [], ◌∷◌,
  ◌++◌, arith, ◌==◌, length, Text, any, all, codes, map,
}
use rusui.Acp.Lex.{
  LexState, flush_word, flush_cmd, push, plain, blank, classify, lex_from, lex_commands, is_blank,
  is_separator,
}
use rusui.Acp.Fence.{join, base, fenced_command, fenced_line, fenced_segment}
use rusui.Acp.Push.{Forbidden, Globals, push_words, fenced_segment-push}
use rusui.Acp.Ends.{lex_commands-lex_from}

-- A rune that the shell does not read specially.
abbrev pub is_plain : ℕ → Bool
is_plain c =
    not (c == 92)
    && (not (c == 39)
        && (not (c == 34) && (not (c == 36) && (not (is_blank c) && not (is_separator c)))))

-- A word of plain runes, at least one.
abbrev pub is_word : Text → Bool
is_word [] = false
is_word (c ∷ w) = is_plain c && all is_plain w

special :
    (b1 b2 b3 b4 b5 b6 : Bool)
    → (not b1 && (not b2 && (not b3 && (not b4 && (not b5 && not b6))))) ≡ true
    → (b1 ≡ false) × (b2 ≡ false) × (b3 ≡ false) × (b4 ≡ false) × (b5 ≡ false) × (b6 ≡ false)
special b1 b2 b3 b4 b5 b6 h = ground arith

classify_plain : (c : ℕ) (r : Text) → is_plain c ≡ true → classify c r ≡ plain
unfolding classify
classify_plain c [] h =
    let (e1, e2, e3, e4, e5, e6) =
      special (c == 92) (c == 39) (c == 34) (c == 36) (is_blank c) (is_separator c) h in
    rw (e2, e3, e5, e6) refl
classify_plain c (d ∷ r) h =
    let (e1, e2, e3, e4, e5, e6) =
      special (c == 92) (c == 39) (c == 34) (c == 36) (is_blank c) (is_separator c) h in
    rw (e1, e2, e3, e5, e6, e4) refl

-- A word being read.
abbrev reading : List Text → Text → LexState
reading words cur = record { cmds = []; words = words; cur = cur; in_word = true }

step :
    (n c : ℕ) (r : Text) (st : LexState)
    → is_plain c ≡ true
    → lex_from (suc n) false (c ∷ r) st ≡ lex_from n false r (push c st)
unfolding lex_from
step n c r st h = rw (lex_from, classify_plain c r h) refl

append_one :
    {A : Type 0} (xs : List A) (c : A) (ys : List A) → (xs ++ (c ∷ [])) ++ ys ≡ xs ++ (c ∷ ys)
append_one [] c ys = refl
append_one (x ∷ xs) c ys = ap (λ zs. x ∷ zs) (append_one xs c ys)

append_nil : (xs : Text) → xs ++ [] ≡ xs
append_nil [] = refl
append_nil (x ∷ xs) = ap (λ zs. x ∷ zs) (append_nil xs)

-- One step for each rune of a word.
abbrev after : Text → ℕ → ℕ
after [] n = n
after (c ∷ w) n = suc (after w n)

abbrev begun : List Text → Text → Bool → LexState
begun words cur b = record { cmds = []; words = words; cur = cur; in_word = b }

and_left : (b c : Bool) → (b && c) ≡ true → b ≡ true
and_left b c h = ground arith

and_right : (b c : Bool) → (b && c) ≡ true → c ≡ true
and_right b c h = ground arith

rest_of_word :
    (n : ℕ) (w s cur : Text) (words : List Text)
    → all is_plain w ≡ true
    → lex_from (after w n) false (w ++ s) (reading words cur)
      ≡ lex_from n false s (reading words (cur ++ w))
unfolding push
rest_of_word n [] s cur words h =
    ap (λ x. lex_from n false s (reading words x)) (sym (append_nil cur))
rest_of_word n (c ∷ w) s cur words h =
    step (after w n) c (w ++ s) (reading words cur) (and_left (is_plain c) (all is_plain w) h)
    ∙ rest_of_word n w s (cur ++ (c ∷ [])) words (and_right (is_plain c) (all is_plain w) h)
    ∙ ap (λ x. lex_from n false s (reading words x)) (append_one cur c w)

done : (n : ℕ) (st : LexState) → lex_from n false [] st ≡ st
unfolding lex_from
done zero st = refl
done (suc n) st = refl

one_word :
    (n : ℕ) (w s : Text) (words : List Text)
    → is_word w ≡ true
    → lex_from (after w n) false (w ++ s) (begun words [] false)
      ≡ lex_from n false s (reading words w)
unfolding push
one_word n [] s words h = ground arith
one_word n (c ∷ w) s words h =
    step (after w n) c (w ++ s) (begun words [] false) (and_left (is_plain c) (all is_plain w) h)
    ∙ rest_of_word n w s (c ∷ []) words (and_right (is_plain c) (all is_plain w) h)

-- The steps of a line of words.
abbrev line_fuel : List Text → ℕ
line_fuel [] = 0
line_fuel (w ∷ []) = after w 0
line_fuel (w ∷ v ∷ ws) = after w (suc (line_fuel (v ∷ ws)))

flushed :
    (words : List Text) (w : Text) → (flush_cmd (reading words w)).cmds ≡ (words ++ (w ∷ [])) ∷ []
unfolding flush_cmd flush_word
flushed [] w = refl
flushed (v ∷ words) w = refl

classify_blank : (r : Text) → classify 32 r ≡ blank
unfolding classify
classify_blank [] = refl
classify_blank (c ∷ r) = refl

step_blank :
    (n : ℕ) (r : Text) (st : LexState)
    → lex_from (suc n) false (32 ∷ r) st ≡ lex_from n false r (flush_word st)
unfolding lex_from
step_blank n r st = rw (lex_from, classify_blank r) refl

abbrev commands : LexState → List (List Text)
commands st = (flush_cmd st).cmds

line_words :
    (w : Text) (ws words : List Text)
    → is_word w ≡ true
    → all is_word ws ≡ true
    → commands (lex_from (line_fuel (w ∷ ws)) false (join (w ∷ ws)) (begun words [] false))
      ≡ (words ++ (w ∷ ws)) ∷ []
unfolding join flush_word
line_words w [] words h k =
    ap (λ s. commands (lex_from (after w 0) false s (begun words [] false))) (sym (append_nil w))
    ∙ ap commands (one_word 0 w [] words h)
    ∙ ap commands (done 0 (reading words w))
    ∙ flushed words w
line_words w (v ∷ ws) words h k =
    ap commands (one_word (suc (line_fuel (v ∷ ws))) w (32 ∷ join (v ∷ ws)) words h)
    ∙ ap commands (step_blank (line_fuel (v ∷ ws)) (join (v ∷ ws)) (reading words w))
    ∙ line_words v ws (words ++ (w ∷ [])) (and_left (is_word v) (all is_word ws) k)
        (and_right (is_word v) (all is_word ws) k)
    ∙ ap (λ x. x ∷ []) (append_one words w (v ∷ ws))

after-length : (w s : Text) (n : ℕ) → length s ≤ n → length (w ++ s) ≤ after w n
after-length [] s n h = h
after-length (c ∷ w) s n h = omega (arith, after-length w s n h)

line_fuel_le : (ws : List Text) → length (join ws) ≤ line_fuel ws
unfolding join
line_fuel_le [] = omega arith
line_fuel_le (w ∷ []) =
    subst (λ s. length s ≤ after w 0) (append_nil w) (after-length w [] 0 (omega arith))
line_fuel_le (w ∷ v ∷ ws) =
    after-length w (32 ∷ join (v ∷ ws)) (suc (line_fuel (v ∷ ws)))
      (omega (arith, line_fuel_le (v ∷ ws)))

-- Words of plain runes, joined by spaces, are read as the one command of those words.
pub lex_commands-join :
    (w : Text) (ws : List Text)
    → is_word w ≡ true
    → all is_word ws ≡ true
    → lex_commands (join (w ∷ ws)) ≡ (w ∷ ws) ∷ []
lex_commands-join w ws h k =
    sym (lex_commands-lex_from (line_fuel (w ∷ ws)) (join (w ∷ ws)) (line_fuel_le (w ∷ ws)))
    ∙ line_words w ws [] h k

fenced_plain :
    (lower : ℕ → ℕ) (w : Text) (ws : List Text)
    → map lower (join (w ∷ ws)) ≡ join (w ∷ ws)
    → all is_word (w ∷ ws) ≡ true
    → fenced_segment (fenced_line lower 4) (w ∷ ws) ≡ true
    → fenced_command lower (join (w ∷ ws)) ≡ true
unfolding fenced_command fenced_line
fenced_plain lower w ws low words h =
    ap (λ line. any (fenced_segment (fenced_line lower 4)) (lex_commands line)) low
    ∙ ap (any (fenced_segment (fenced_line lower 4))) (
        lex_commands-join w ws (and_left (is_word w) (all is_word ws) words)
          (and_right (is_word w) (all is_word ws) words))
    ∙ rw h refl

-- A line of plain words in lower case that pushes with git is a fenced command if one of the arguments of
-- the push names a protected branch, as a branch or as what a ref is pushed to, deletes a branch, or is an
-- option that deletes, forces or pushes all, whatever comes before git, whatever options stand before
-- push, and whatever other arguments it has.
pub fenced_command-push :
    (lower : ℕ → ℕ) (before globals flags rest : List Text) (git a : Text)
    → map lower (join (push_words before git globals flags a rest))
      ≡ join (push_words before git globals flags a rest)
    → all is_word (push_words before git globals flags a rest) ≡ true
    → base git ≡ codes "git"
    → Globals globals
    → Forbidden a
    → fenced_command lower (join (push_words before git globals flags a rest)) ≡ true
fenced_command-push lower [] globals flags rest git a low words g opts f =
    fenced_plain lower git (globals ++ (codes "push" ∷ (flags ++ (a ∷ rest)))) low words
      (fenced_segment-push (fenced_line lower 4) [] globals flags rest git a g opts f)
fenced_command-push lower (b ∷ before) globals flags rest git a low words g opts f =
    fenced_plain lower b (push_words before git globals flags a rest) low words
      (fenced_segment-push (fenced_line lower 4) (b ∷ before) globals flags rest git a g opts f)
