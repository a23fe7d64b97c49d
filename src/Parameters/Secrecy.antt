-- ===== src/Parameters/Secrecy.antt =====
-- Where the value of a sensitive parameter can go.
use task_scheduler.Prelude.{
  ℕ, zero, suc, ◌≡◌, refl, true, false, some, List, [], ◌∷◌, ◌++◌, arith, ◌==◌, if◌then◌else◌,
  length, Result, err, ok, ◌>>=◌, Option-cases, Bool-cases, inl, inr,
}
use task_scheduler.Parameters.Text.{Text, same_text, cut, strip_prefix, trim, split}
use task_scheduler.Parameters.Json.{Value, get}
use task_scheduler.Parameters.Templates.{
  BlueprintError, opening, closing, walk, lookup, fetch, render_loop, render_string,
}
use task_scheduler.Parameters.Rounds.{round_plain, round_open, round_fetched}
use task_scheduler.Parameters.Bindings.{names_parameter, references_loop, template_references}

-- The parameters agree on every field but one.
abbrev pub AgreeExcept : Text → Value → Value → Type 0
AgreeExcept parameter v w = (key : Text) → same_text key parameter ≡ false → get key v ≡ get key w

-- The part of a path before its first dot.
first_word : Text → Text
first_word [] = []
first_word (c ∷ s) = if c == b'.' then [] else c ∷ first_word s

split_first : (path : Text) → (words : List Text) × (split b'.' path ≡ first_word path ∷ words)
unfolding split first_word
split_first [] = ([], refl)
split_first (c ∷ s) =
    let (words, e) = split_first s in
    elim (Bool-cases (c == b'.')) [
      | inl dot ↦ (split b'.' s, rw dot refl)
      | inr other ↦ (words, rw (other, e) refl)
    ]

first_word_names :
    (path parameter : Text)
    → same_text (first_word path) parameter ≡ true
    → names_parameter parameter path ≡ true
unfolding first_word strip_prefix
first_word_names [] [] h = ground arith
first_word_names [] (e ∷ p) h = cc
first_word_names (d ∷ s) [] h = ground arith
first_word_names (d ∷ s) (e ∷ p) h = ground (arith, first_word_names s p)

lookup_agree :
    (parameter path : Text) (v w : Value)
    → names_parameter parameter path ≡ false
    → AgreeExcept parameter v w
    → lookup v path ≡ lookup w path
unfolding lookup walk
lookup_agree parameter path v w h agree =
    let (words, e) = split_first path in
    let other : same_text (first_word path) parameter ≡ false =
      ground (arith, first_word_names path parameter) in
    rw (e, walk, agree (first_word path) other) refl

fetch_agree :
    (parameter path : Text) (v w : Value)
    → names_parameter parameter (trim path) ≡ false
    → AgreeExcept parameter v w
    → fetch v path ≡ fetch w path
unfolding fetch
fetch_agree parameter path v w h agree = rw (lookup_agree parameter (trim path) v w h agree) refl

after_placeholder :
    (n : ℕ) (rest before expression path after parameter : Text)
    → cut opening rest ≡ some (before, expression)
    → cut closing expression ≡ some (path, after)
    → references_loop (suc n) rest parameter ≡ false
    → (names_parameter parameter (trim path) ≡ false) × (references_loop n after parameter ≡ false)
unfolding references_loop
after_placeholder n rest before expression path after parameter e f h =
    let h' = rw (references_loop, e, f) at h in
    elim (Bool-cases (names_parameter parameter (trim path))) [
      | inl named ↦ absurd (ground (arith, rw named at h'))
      | inr other ↦ (other, rw other at h')
    ]

loop_agree :
    (n : ℕ) (output rest parameter : Text) (v w : Value)
    → references_loop n rest parameter ≡ false
    → AgreeExcept parameter v w
    → render_loop n output rest v ≡ render_loop n output rest w
loop_agree zero output rest parameter v w h agree = unfold render_loop in refl
loop_agree (suc n) output rest parameter v w h agree = elim (Option-cases (cut opening rest)) [
  | inl e ↦ rw (round_plain n output rest v e, round_plain n output rest w e) refl
  | inr ((before, expression), e) ↦ elim (Option-cases (cut closing expression)) [
    | inl f ↦ rw (round_open n output rest v e f, round_open n output rest w e f) refl
    | inr ((path, after), f) ↦
        let (other, later) =
          after_placeholder n rest before expression path after parameter e f h in
        let same = fetch_agree parameter path v w other agree in
        rw (round_fetched n output rest v e f, round_fetched n output rest w e f, same)
          (same_rounds (fetch w path) _ _
            (λ text. loop_agree n (output ++ (before ++ text)) after parameter v w later agree))
  ]
]
  where
    same_rounds :
        (r : Result BlueprintError Text) (f g : Text → Result BlueprintError Text)
        → ((text : Text) → f text ≡ g text)
        → (r >>= f) ≡ (r >>= g)
    same_rounds (err e) f g same = refl
    same_rounds (ok text) f g same = same text

-- A template that does not refer to a parameter renders to the same result, be it a text or an
-- error, whatever the value of that parameter is.
pub render_string_independent :
    (template parameter : Text) (v w : Value)
    → template_references template parameter ≡ false
    → AgreeExcept parameter v w
    → render_string template v ≡ render_string template w
unfolding template_references render_string
render_string_independent template parameter v w h agree =
    loop_agree (suc (length template)) [] template parameter v w h agree
