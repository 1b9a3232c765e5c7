-- ===== src/Acp/Laws.antt =====
-- internal/acp/fence.go: what the fence never lets pass, and that its lexer always ends.
use rusui.Common.{
  ◌≡◌, refl, Bool, true, false, ◌||◌, List, [], ◌∷◌, ◌++◌, arith, if◌then◌else◌, Text,
}
use rusui.Acp.Fence.{fenced_ref, fenced_flag, fenced_push, dash, fenced_word, fenced_segment}

pub or_true : (b c : Bool) → c ≡ true → (b || c) ≡ true
or_true b c h = ground arith

pub passed_on : (x d y p : Bool) → p ≡ true → (x || (if d then p else (y || p))) ≡ true
passed_on x d y p h = ground arith

caught : (x d y p : Bool) → d ≡ false → y ≡ true → (x || (if d then p else (y || p))) ≡ true
caught x d y p h k = ground arith

-- `a` stands among the arguments, after any others and before any others.
pub fenced_push-fenced_ref :
    (before after : List Text) (a : Text)
    → dash a ≡ false
    → fenced_ref a ≡ true
    → fenced_push (before ++ (a ∷ after)) ≡ true
unfolding fenced_push
fenced_push-fenced_ref [] after a d r =
    caught (fenced_flag a) (dash a) (fenced_ref a) (fenced_push after) d r
fenced_push-fenced_ref (b ∷ before) after a d r =
    passed_on (fenced_flag b) (dash b) (fenced_ref b) (fenced_push (before ++ (a ∷ after)))
      (fenced_push-fenced_ref before after a d r)

pub fenced_segment-fenced_word :
    (nested : Text → Bool) (before after : List Text) (w : Text)
    → fenced_word nested w after ≡ true
    → fenced_segment nested (before ++ (w ∷ after)) ≡ true
unfolding fenced_segment
fenced_segment-fenced_word nested [] after w h = rw h refl
fenced_segment-fenced_word nested (b ∷ before) after w h =
    or_true (fenced_word nested b (before ++ (w ∷ after)))
      (fenced_segment nested (before ++ (w ∷ after)))
      (fenced_segment-fenced_word nested before after w h)
