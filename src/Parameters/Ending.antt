-- ===== src/Parameters/Ending.antt =====
-- The fuel of `render_string` is enough.
use task_scheduler.Prelude.{
  ℕ, true, false, zero, suc, ◌<◌, ◌≡◌, ◌≢◌, refl, some, [], ◌++◌, arith, length, Result, err, ok,
  ◌>>=◌, Option-cases, inl, inr,
}
use task_scheduler.Parameters.Text.{Text, cut, cut_shorter, trim, split}
use task_scheduler.Parameters.Json.{Value, null, bool, number, string, array, object}
use task_scheduler.Parameters.Templates.{
  BlueprintError, out_of_fuel, opening, closing, lookup, embed, fetch, walk, render_loop,
  render_string,
}
use task_scheduler.Parameters.Rounds.{round_plain, round_open, round_fetched}

-- What stands behind a placeholder is shorter than the template.
placeholder_shorter :
    (rest before expression path after : Text)
    → cut opening rest ≡ some (before, expression)
    → cut closing expression ≡ some (path, after)
    → length after < length rest
placeholder_shorter rest before expression path after h k = omega (
  arith,
  cut_shorter opening rest before expression h,
  cut_shorter closing expression path after k,
)

fetch_ends : (parameters : Value) (path : Text) → fetch parameters path ≢ err out_of_fuel
unfolding fetch lookup
fetch_ends parameters path h = elim (Option-cases (walk (split b'.' (trim path)) parameters)) [
  | inl e ↦ ground (arith, e, h)
  | inr (v, e) ↦ embed_ends v (rw e at h)
]
  where
    embed_ends : (v : Value) → embed v ≢ err out_of_fuel
    embed_ends null k = cc
    embed_ends (bool true) k = cc
    embed_ends (bool false) k = cc
    embed_ends (number decimal) k = cc
    embed_ends (string text) k = cc
    embed_ends (array vs) k = cc
    embed_ends (object fs) k = cc

abbrev Same : (a b : Result BlueprintError Text) → Type 0
Same a b = (a ≡ b) × (a ≢ err out_of_fuel)

fetched_enough :
    (r : Result BlueprintError Text) (f g : Text → Result BlueprintError Text)
    → r ≢ err out_of_fuel
    → ((text : Text) → Same (f text) (g text))
    → Same (r >>= f) (r >>= g)
fetched_enough (err e) f g r same = (refl, λ x. r x)
fetched_enough (ok text) f g r same = same text

render_loop_enough :
    (n m : ℕ) (output rest : Text) (parameters : Value)
    → length rest < n
    → length rest < m
    → Same (render_loop n output rest parameters) (render_loop m output rest parameters)
unfolding render_loop
render_loop_enough zero m output rest parameters h k = absurd (omega arith)
render_loop_enough (suc n) zero output rest parameters h k = absurd (omega arith)
render_loop_enough (suc n) (suc m) output rest parameters h k =
    elim (Option-cases (cut opening rest)) [
      | inl e ↦
          rw (round_plain n output rest parameters e, round_plain m output rest parameters e)
            (refl, λ x. cc)
      | inr ((before, expression), e) ↦ elim (Option-cases (cut closing expression)) [
        | inl f ↦
            rw (round_open n output rest parameters e f, round_open m output rest parameters e f)
              (refl, λ x. cc)
        | inr ((path, after), f) ↦
            rw
              (
                round_fetched n output rest parameters e f,
                round_fetched m output rest parameters e f,
              )
              (fetched_enough (fetch parameters path) _ _ (fetch_ends parameters path) (λ text.
                render_loop_enough n m (output ++ (before ++ text)) after parameters
                  (omega (arith, placeholder_shorter rest before expression path after e f))
                  (omega (arith, placeholder_shorter rest before expression path after e f))))
      ]
    ]

-- The fuel of the loop is enough for every template: more of it gives the same result, and the
-- result is never that fuel ran out. The loop ends with a text, or with the error of a placeholder.
pub render_string_ends :
    (template : Text) (parameters : Value)
    → ((fuel : ℕ)
        → length template < fuel
        → render_loop fuel [] template parameters ≡ render_string template parameters)
      × (render_string template parameters ≢ err out_of_fuel)
unfolding render_string
render_string_ends template parameters = (
  λ fuel h.
      (render_loop_enough fuel (suc (length template)) [] template parameters h (omega arith)).0,
  (render_loop_enough (suc (length template)) (suc (length template)) [] template parameters
      (omega arith) (omega arith)).1,
)
