-- ===== src/Parameters/Templates.antt =====
-- Templates with placeholders `{{params.path}}`: `lookup`, `render_string`, `exact_placeholder` and
-- `render_value` of blueprint.rs. The loop runs on fuel; each round consumes the template.
use task_scheduler.Prelude.{
  ℕ, zero, suc, true, false, Option, none, some, List, [], ◌∷◌, ◌++◌, length, Result, err, ok,
  ◌>>=◌, or_fail,
}
use task_scheduler.Domain.AgentId.{codes}
use task_scheduler.Parameters.Text.{Text, cut, trim, split, strip_prefix}
use task_scheduler.Parameters.Json.{Value, null, bool, number, string, array, object, get}
use mathlib.Core.List.{reverse}

-- What blueprint.rs and bindings.rs refuse; `out_of_fuel` is the loop's own.
pub data BlueprintError : Type 0 where
  unterminated missing not_scalar out_of_fuel : BlueprintError
  excel_incomplete excel_blank_module excel_qualified_module excel_qualified_macro : BlueprintError
  excel_too_many_arguments excel_argument_kind excel_resolved_argument : BlueprintError
  bad_parameter_name dotted_parameter_name bad_environment_name bad_secret_name : BlueprintError
  sensitive_elsewhere unexpected_values binding_mismatch not_an_object bound_parameter_saved :
      BlueprintError
  bad_api_version no_attempts no_timeout empty_program bad_schema schema_violation : BlueprintError

abbrev pub opening : Text
opening = codes "{{params."

abbrev pub closing : Text
closing = codes "}}"

unfoldable pub walk : List Text → Value → Option Value
walk [] v = some v
walk (component ∷ path) v = elim (get component v) [ none ↦ none | some w ↦ walk path w ]

unfoldable pub lookup : Value → Text → Result BlueprintError Value
unfolding walk split
lookup parameters path = or_fail (walk (split b'.' path) parameters) missing

-- What a value contributes to a text.
abbrev pub embed : Value → Result BlueprintError Text
embed (string text) = ok text
embed (number decimal) = ok decimal
embed (bool true) = ok (codes "true")
embed (bool false) = ok (codes "false")
embed null = ok []
embed (array vs) = err not_scalar
embed (object fs) = err not_scalar

-- The text of one placeholder.
unfoldable pub fetch : Value → Text → Result BlueprintError Text
unfolding lookup
fetch parameters path = do value ← lookup parameters (trim path); embed value

unfoldable pub render_loop : ℕ → Text → Text → Value → Result BlueprintError Text
render_loop zero output rest parameters = err out_of_fuel
render_loop (suc fuel) output rest parameters = elim (cut opening rest) [
  | none ↦ ok (output ++ rest)
  | some (before, expression) ↦ elim (cut closing expression) [
    | none ↦ err unterminated
    | some (path, after) ↦ do
      text ← fetch parameters path
      render_loop fuel (output ++ (before ++ text)) after parameters
  ]
]

unfoldable pub render_string : Text → Value → Result BlueprintError Text
unfolding render_loop fetch
render_string template parameters = render_loop (suc (length template)) [] template parameters

abbrev reversed : Option Text → Option Text
reversed none = none
reversed (some s) = some (reverse s)

-- str::strip_suffix
abbrev pub strip_suffix : Text → Text → Option Text
strip_suffix suffix s = reversed (strip_prefix (reverse suffix) (reverse s))

abbrev pub trimmed : Option Text → Option Text
trimmed none = none
trimmed (some s) = some (trim s)

unfoldable pub exact_placeholder : Text → Option Text
exact_placeholder template = elim (strip_prefix opening template) [
  | none ↦ none
  | some value ↦ trimmed (strip_suffix closing value)
]

unfoldable pub render_value : Value → Value → Result BlueprintError Value
unfolding exact_placeholder
render_value (string template) parameters = elim (exact_placeholder template) [
  | some path ↦ lookup parameters path
  | none ↦ do text ← render_string template parameters; ok (string text)
]
render_value v parameters = ok v
