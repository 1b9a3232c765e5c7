-- ===== src/Acp/Push.antt =====
-- internal/acp/fence.go `fencedPush` and `skipGitGlobals`: which arguments of a `git push` are refused, and
-- which options may stand before it.
use rusui.Common.{
  ◌≡◌, refl, ◌∙◌, ◌⊎◌, inl, inr, Bool, true, false, ◌||◌, none, some, List, [], ◌∷◌, ◌++◌, arith,
  ◌==◌, any, length, Text, codes, text_in, starts_with,
}
use rusui.Acp.Fence.{
  after_last, fenced_ref, fenced_flag, fenced_push, dash, takes_value, skip_git_globals,
  is_protected, base, fenced_word, fenced_git, fenced_segment, git_alias_global,
}
use rusui.Acp.Laws.{fenced_push-fenced_ref, fenced_segment-fenced_word, or_true, passed_on}

-- The protected branches, by either name.
pub data Protected : Text → Type 0 where
  main : Protected (codes "main")
  master : Protected (codes "master")
  main_ref : Protected (codes "refs/heads/main")
  master_ref : Protected (codes "refs/heads/master")

-- The arguments that no push may have: one that names a protected branch, alone or after a colon, one that
-- deletes a branch, and the options that delete, force, or push more than one branch.
pub data Forbidden : Text → Type 0 where
  branch : {b : Text} → Protected b → Forbidden b
  onto :
      (src : Text) {b : Text}
      → starts_with (codes "-") src ≡ false
      → Protected b
      → Forbidden (src ++ (58 ∷ b))
  deletes : (b : Text) → any (λ c. c == 58) b ≡ false → Forbidden (58 ∷ b)
  delete : Forbidden (codes "--delete")
  delete_short : Forbidden (codes "-d")
  force_short : Forbidden (codes "-f")
  force : (value : Text) → Forbidden (codes "--force" ++ value)
  forced_ref : (ref : Text) → Forbidden (43 ∷ ref)
  mirror : Forbidden (codes "--mirror")
  all_branches : Forbidden (codes "--all")
  prune : Forbidden (codes "--prune")

after_last-none : (b : Text) → any (λ c. c == 58) b ≡ false → after_last 58 b ≡ none
unfolding after_last
after_last-none [] h = refl
after_last-none (c ∷ b) h = (let rest = after_last-none b (ground arith) in ground arith)

after_last-append :
    (src b : Text) → after_last 58 b ≡ none → after_last 58 (src ++ (58 ∷ b)) ≡ some (length src, b)
unfolding after_last
after_last-append [] b h = rw h refl
after_last-append (c ∷ src) b h = rw (after_last-append src b h) refl

Protected-ref : (b : Text) → Protected b → (after_last 58 b ≡ none) × (is_protected b ≡ true)
unfolding after_last
Protected-ref b main = (refl, refl)
Protected-ref b master = (refl, refl)
Protected-ref b main_ref = (refl, refl)
Protected-ref b master_ref = (refl, refl)

Protected-dash : (b : Text) → Protected b → dash b ≡ false
Protected-dash b main = refl
Protected-dash b master = refl
Protected-dash b main_ref = refl
Protected-dash b master_ref = refl

onto_dash : (src b : Text) → starts_with (codes "-") src ≡ false → dash (src ++ (58 ∷ b)) ≡ false
onto_dash [] b h = refl
onto_dash (c ∷ src) b h = ground arith

or_mid : (x y z : Bool) → y ≡ true → (x || (y || z)) ≡ true
or_mid x y z h = ground arith

forces : (a : Text) → starts_with (codes "--force") a ≡ true → fenced_flag a ≡ true
unfolding fenced_flag
forces a h = or_mid _ _ _ h

-- Each is an option that is refused, or a ref that is.
Forbidden-cases :
    (a : Text) → Forbidden a → (fenced_flag a ≡ true) ⊎ ((dash a ≡ false) × (fenced_ref a ≡ true))
unfolding fenced_flag fenced_ref
Forbidden-cases a (branch p) =
    let (n, y) = Protected-ref a p in inr (Protected-dash a p, rw (fenced_ref, n) y)
Forbidden-cases a (onto src {b} d p) =
    let (n, y) = Protected-ref b p in
    inr (onto_dash src b d, rw (fenced_ref, after_last-append src b n) (ground arith))
Forbidden-cases a (deletes b n) =
    inr (refl, rw (fenced_ref, after_last-append [] b (after_last-none b n)) refl)
Forbidden-cases a delete = inl refl
Forbidden-cases a delete_short = inl refl
Forbidden-cases a force_short = inl refl
Forbidden-cases a (force value) = inl (forces (codes "--force" ++ value) refl)
Forbidden-cases a (forced_ref ref) = inl refl
Forbidden-cases a mirror = inl refl
Forbidden-cases a all_branches = inl refl
Forbidden-cases a prune = inl refl

fenced_push-fenced_flag :
    (before after : List Text) (a : Text)
    → fenced_flag a ≡ true
    → fenced_push (before ++ (a ∷ after)) ≡ true
unfolding fenced_push
fenced_push-fenced_flag [] after a h = rw h refl
fenced_push-fenced_flag (b ∷ before) after a h =
    passed_on (fenced_flag b) (dash b) (fenced_ref b) (fenced_push (before ++ (a ∷ after)))
      (fenced_push-fenced_flag before after a h)

pub fenced_push-Forbidden :
    (before after : List Text) (a : Text) → Forbidden a → fenced_push (before ++ (a ∷ after)) ≡ true
fenced_push-Forbidden before after a f = elim (Forbidden-cases a f) [
  | inl h ↦ fenced_push-fenced_flag before after a h
  | inr (d, r) ↦ fenced_push-fenced_ref before after a d r
]

-- The options before a command of git that take the next argument, in lower case.
abbrev pub valued_options : List Text
valued_options =
    codes "-c"
    ∷ codes "--git-dir"
    ∷ codes "--work-tree"
    ∷ codes "--namespace"
    ∷ codes "--exec-path"
    ∷ codes "--config-env"
    ∷ []

-- Options before a command of git.
pub data Globals : List Text → Type 0 where
  end : Globals []
  valued :
      (o v : Text) (gs : List Text)
      → text_in o valued_options ≡ true
      → Globals gs
      → Globals (o ∷ v ∷ gs)
  bare :
      (o : Text) (gs : List Text)
      → starts_with (codes "-") o ≡ true
      → text_in o valued_options ≡ false
      → Globals gs
      → Globals (o ∷ gs)

valued_dash : (o : Text) → text_in o valued_options ≡ true → dash o ≡ true
valued_dash [] h = absurd (cc)
valued_dash (c ∷ o) h = ground arith

skip_bare :
    (o : Text) (xs : List Text)
    → dash o ≡ true
    → takes_value o ≡ false
    → skip_git_globals (o ∷ xs) ≡ skip_git_globals xs
unfolding skip_git_globals
skip_bare o [] d t = rw d refl
skip_bare o (x ∷ xs) d t = rw (d, t) refl

skip_valued :
    (o v : Text) (xs : List Text)
    → dash o ≡ true
    → takes_value o ≡ true
    → skip_git_globals (o ∷ v ∷ xs) ≡ skip_git_globals xs
unfolding skip_git_globals
skip_valued o v xs d t = rw (d, t) refl

skip_push : (rest : List Text) → skip_git_globals (codes "push" ∷ rest) ≡ codes "push" ∷ rest
unfolding skip_git_globals
skip_push [] = refl
skip_push (b ∷ rest) = refl

pub skip_git_globals-push :
    (gs rest : List Text)
    → Globals gs
    → skip_git_globals (gs ++ (codes "push" ∷ rest)) ≡ codes "push" ∷ rest
unfolding takes_value
skip_git_globals-push gs rest end = skip_push rest
skip_git_globals-push gs rest (valued o v gs' t g) =
    skip_valued o v (gs' ++ (codes "push" ∷ rest)) (valued_dash o t) t
    ∙ skip_git_globals-push gs' rest g
skip_git_globals-push gs rest (bare o gs' d t g) =
    skip_bare o (gs' ++ (codes "push" ∷ rest)) d t ∙ skip_git_globals-push gs' rest g

-- `git push` with an argument, among other arguments, behind options of git and other words.
abbrev pub push_words : List Text → Text → List Text → List Text → Text → List Text → List Text
push_words before git globals flags a after =
    before ++ (git ∷ (globals ++ (codes "push" ∷ (flags ++ (a ∷ after)))))

pub fenced_segment-push :
    (nested : Text → Bool) (before globals flags after : List Text) (git a : Text)
    → base git ≡ codes "git"
    → Globals globals
    → Forbidden a
    → fenced_segment nested (push_words before git globals flags a after) ≡ true
unfolding fenced_word fenced_git
fenced_segment-push nested before globals flags after git a g opts f =
    fenced_segment-fenced_word nested before (globals ++ (codes "push" ∷ (flags ++ (a ∷ after))))
      git
      (rw g (
        or_true (git_alias_global (globals ++ (codes "push" ∷ (flags ++ (a ∷ after)))))
          (fenced_git nested
            (skip_git_globals (globals ++ (codes "push" ∷ (flags ++ (a ∷ after))))))
          (rw
            (
              skip_git_globals-push globals (flags ++ (a ∷ after)) opts,
              fenced_push-Forbidden flags after a f,
            )
            refl)))
