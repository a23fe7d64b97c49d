-- ===== src/Parameters/Text.antt =====
-- Texts as lists of code points, with the operations of `str` that templates are read by.
use task_scheduler.Prelude.{
  ◌↔◌, subst, ℕ, ◌≤◌, ◌+◌, ◌≡◌, refl, Bool, true, false, ◌&&◌, ◌||◌, Option, none, some, List, [],
  ◌∷◌, arith, leb, ◌==◌, if◌then◌else◌, length, Option-cases, inl, inr,
}
use mathlib.Core.List.{reverse}

abbrev pub Text : Type 0
Text = List ℕ

-- ==
abbrev pub same_text : Text → Text → Bool
same_text [] [] = true
same_text (a ∷ s) (b ∷ t) = a == b && same_text s t
same_text _ _ = false

pub same_text→eq : (s t : Text) → same_text s t ≡ true → s ≡ t
same_text→eq [] [] h = refl
same_text→eq [] (b ∷ t) h = cc
same_text→eq (a ∷ s) [] h = cc
same_text→eq (a ∷ s) (b ∷ t) h = ground (arith, same_text→eq s t)

pub same_text_refl : (s : Text) → same_text s s ≡ true
same_text_refl [] = refl
same_text_refl (a ∷ s) = ground (arith, same_text_refl s)

pub same_text_iff : (s t : Text) → (same_text s t ≡ true) ↔ (s ≡ t)
same_text_iff s t = (same_text→eq s t, λ e. subst (λ x. same_text s x ≡ true) e (same_text_refl s))

-- str::strip_prefix
unfoldable pub strip_prefix : Text → Text → Option Text
strip_prefix [] s = some s
strip_prefix (a ∷ p) [] = none
strip_prefix (a ∷ p) (b ∷ s) = if a == b then strip_prefix p s else none

abbrev push_before : ℕ → Option (Text × Text) → Option (Text × Text)
push_before c none = none
push_before c (some (before, after)) = some (c ∷ before, after)

abbrev found_here : ℕ → Option Text → Option (Text × Text) → Option (Text × Text)
found_here c none later = push_before c later
found_here c (some after) later = some ([], after)

-- str::find, with the slices before and behind the first occurrence
unfoldable pub cut : Text → Text → Option (Text × Text)
cut pattern [] = none
cut pattern (c ∷ s) = found_here c (strip_prefix pattern (c ∷ s)) (cut pattern s)

-- char::is_whitespace
abbrev pub is_whitespace : ℕ → Bool
is_whitespace c =
    (leb 9 c && leb c 13)
    || (c == 32
        || (c == 133
            || (c == 160
                || (c == 5760
                    || ((leb 8192 c && leb c 8202)
                        || (c == 8232
                            || (c == 8233 || (c == 8239 || (c == 8287 || c == 12288)))))))))

unfoldable pub trim_start : Text → Text
trim_start [] = []
trim_start (c ∷ s) = if is_whitespace c then trim_start s else c ∷ s

-- str::trim
unfoldable pub trim : Text → Text
unfolding trim_start
trim s = reverse (trim_start (reverse (trim_start s)))

abbrev push_first : ℕ → List Text → List Text
push_first c [] = (c ∷ []) ∷ []
push_first c (word ∷ words) = (c ∷ word) ∷ words

-- str::split with one separator
unfoldable pub split : ℕ → Text → List Text
split separator [] = [] ∷ []
split separator (c ∷ s) =
    let words = split separator s in if c == separator then [] ∷ words else push_first c words

strip_prefix_shorter :
    (p s after : Text) → strip_prefix p s ≡ some after → length after + length p ≡ length s
unfolding strip_prefix
strip_prefix_shorter [] s after h = ground arith
strip_prefix_shorter (a ∷ p) [] after h = cc
strip_prefix_shorter (a ∷ p) (b ∷ s) after h = ground (arith, strip_prefix_shorter p s after)

-- What stands behind an occurrence is shorter.
pub cut_shorter :
    (p s before after : Text) → cut p s ≡ some (before, after) → length after + length p ≤ length s
unfolding cut
cut_shorter p [] before after h = cc
cut_shorter p (c ∷ s) before after h = elim (Option-cases (strip_prefix p (c ∷ s))) [
  | inr (here, e) ↦ ground (arith, strip_prefix_shorter p (c ∷ s) here e, h, e)
  | inl none_here ↦ elim (Option-cases (cut p s)) [
    | inl e ↦ absurd (ground (arith, h, none_here, e))
    | inr ((first, later), e) ↦ ground (arith, cut_shorter p s first later e, h, none_here, e)
  ]
]
