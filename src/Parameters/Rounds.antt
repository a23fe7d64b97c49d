-- ===== src/Parameters/Rounds.antt =====
-- One round of the loop of `render_string`, by what it finds in the rest of the template.
use task_scheduler.Prelude.{ℕ, suc, ◌≡◌, refl, none, some, ◌++◌, err, ok, ◌>>=◌}
use task_scheduler.Parameters.Text.{Text, cut}
use task_scheduler.Parameters.Json.{Value}
use task_scheduler.Parameters.Templates.{unterminated, opening, closing, fetch, render_loop}

module _ (n : ℕ) (output rest : Text) (parameters : Value) where
  pub round_plain :
      cut opening rest ≡ none → render_loop (suc n) output rest parameters ≡ ok (output ++ rest)
  unfolding render_loop
  round_plain e = rw (render_loop, e) refl

  module _ {before expression : Text} (e : cut opening rest ≡ some (before, expression)) where
    pub round_open :
        cut closing expression ≡ none
        → render_loop (suc n) output rest parameters ≡ err unterminated
    unfolding render_loop
    round_open f = rw (render_loop, e, f) refl

    module _ {path after : Text} (f : cut closing expression ≡ some (path, after)) where
      pub round_fetched : render_loop (suc n) output rest parameters ≡ (
          fetch parameters path >>= λ text.
          render_loop n (output ++ (before ++ text)) after parameters)
      unfolding render_loop
      round_fetched = rw (render_loop, e, f) refl
