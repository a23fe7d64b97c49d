-- ===== src/Examples/Parameters.antt =====
-- A command that reads a token from its environment: the token is a binding of the blueprint.
use task_scheduler.Prelude.{
  ℕ, ◌≤◌, ◌<◌, ◌≡◌, ◌≢◌, refl, Bool, true, false, none, some, [], ◌∷◌, arith, err, ok, length,
}
use task_scheduler.Domain.{default_policy}
use task_scheduler.Domain.AgentId.{codes}
use task_scheduler.Parameters.Text.{Text, same_text_iff, cut, trim, trim_start, split, strip_prefix}
use task_scheduler.Parameters.Json.{
  Value, string, object, end, field, get_field, insert_field, is_object,
}
use task_scheduler.Parameters.Templates.{
  missing, exact_placeholder, render_value, out_of_fuel, walk, lookup, fetch, render_loop,
  render_string,
}
use task_scheduler.Parameters.Ending.{render_string_ends}
use task_scheduler.Parameters.Executors.{
  ExecutorSpec, command, collect, render_command, render_executor,
}
use task_scheduler.Parameters.Bindings.{
  ParameterBinding, ParameterBindingSource, ParameterBindingValueType, Bindings, get_binding,
  references_loop, template_references, is_prohibited, validate_parameter_name,
  validate_sensitive_binding_usage, validate_parameter_bindings,
}
use task_scheduler.Parameters.Secrecy.{AgreeExcept}
use task_scheduler.Parameters.Confinement.{exposed, sensitive_value_confined}
use task_scheduler.Parameters.Merge.{merge_parameters, deep_merge, merge_fields, is_map, are_maps}
use task_scheduler.Parameters.Overrides.{touches, merge_parameters_lookup}
use task_scheduler.Parameters.Redaction.{
  listed, escape_pointer_segment, sensitive_binding_listed, sensitive_parameter_paths, sort_paths,
  insert_path, collect_properties,
}
use task_scheduler.Parameters.Snapshots.{
  insert_all, Blueprint, ExecutionSnapshot, resolve_snapshot, resolve_late, validate_parameters,
  resolve_parameter_bindings,
}
use task_scheduler.Parameters.Deferral.{WaitsForAgent, Resolved, deferred_resolution}
use task_scheduler.Parameters.Names.{IsSafeName, binding_name_safe}

abbrev pub token : Text
token = codes "token"

abbrev pub token_binding : ParameterBinding
token_binding = record {
  source = ParameterBindingSource.environment;
  name = codes "TASK_TOKEN";
  value_type = ParameterBindingValueType.string;
  sensitive = true;
}

abbrev token_bindings : Bindings
token_bindings = (token, token_binding) ∷ []

abbrev runner_with : Text → ExecutorSpec
runner_with value = command (record {
  program = codes "runner";
  args = codes "--fast" ∷ [];
  env = (codes "TASK_TOKEN", value) ∷ [];
  working_directory = none;
})

abbrev runner : ExecutorSpec
runner = runner_with (codes "{{params.token}}")

abbrev with_token : Text → Value
with_token value = object (field token (string value) end)

runner_valid : validate_parameter_bindings token_bindings runner ≡ ok tt
unfolding validate_parameter_bindings validate_parameter_name validate_sensitive_binding_usage
    is_prohibited template_references references_loop cut strip_prefix
runner_valid = refl

token_found : get_binding token token_bindings ≡ some token_binding
unfolding get_binding
token_found = refl

runner_rendered : render_executor runner (with_token (codes "abc")) ≡ ok (runner_with (codes "abc"))
unfolding render_executor render_command collect render_string render_loop fetch lookup walk split
    trim trim_start cut strip_prefix get_field
runner_rendered = refl

runner_rendered_other :
    render_executor runner (with_token (codes "xyz")) ≡ ok (runner_with (codes "xyz"))
unfolding render_executor render_command collect render_string render_loop fetch lookup walk split
    trim trim_start cut strip_prefix get_field
runner_rendered_other = refl

tokens_agree : AgreeExcept token (with_token (codes "abc")) (with_token (codes "xyz"))
unfolding get_field
tokens_agree key h = ground (arith, same_text_iff token key, same_text_iff key token, h)

sensitive_value_confined_example :
    exposed (runner_with (codes "abc")) ≡ exposed (runner_with (codes "xyz"))
sensitive_value_confined_example =
    sensitive_value_confined token_bindings runner token token_binding (with_token (codes "abc"))
      (with_token (codes "xyz")) (runner_with (codes "abc")) (runner_with (codes "xyz"))
      runner_valid token_found refl tokens_agree runner_rendered runner_rendered_other

binding_name_safe_example :
    (1 ≤ length token_binding.name)
    × (length token_binding.name ≤ 128)
    × IsSafeName token_binding.source token_binding.name
binding_name_safe_example =
    binding_name_safe token_bindings runner token token_binding runner_valid token_found

render_string_ends_example :
    ((fuel : ℕ)
      → length (codes "{{params.token}}!") < fuel
      → render_loop fuel [] (codes "{{params.token}}!") (with_token (codes "abc"))
        ≡ render_string (codes "{{params.token}}!") (with_token (codes "abc")))
    × (render_string (codes "{{params.token}}!") (with_token (codes "abc")) ≢ err out_of_fuel)
render_string_ends_example =
    render_string_ends (codes "{{params.token}}!") (with_token (codes "abc"))

-- Overrides of `{"a": {"x": "1", "y": "2"}}` by `{"a": {"y": "3"}}`.
abbrev base_parameters : Value
base_parameters = object (
    field (codes "a")
      (object (field (codes "x") (string (codes "1")) (field (codes "y") (string (codes "2")) end)))
      end)

abbrev overriding_parameters : Value
overriding_parameters =
    object (field (codes "a") (object (field (codes "y") (string (codes "3")) end)) end)

abbrev merged_parameters : Value
merged_parameters = object (
    field (codes "a")
      (object (field (codes "x") (string (codes "1")) (field (codes "y") (string (codes "3")) end)))
      end)

parameters_merged : merge_parameters base_parameters overriding_parameters ≡ ok merged_parameters
unfolding merge_parameters deep_merge merge_fields get_field insert_field
parameters_merged = refl

overriding_is_map : is_map overriding_parameters ≡ true
unfolding is_map are_maps get_field
overriding_is_map = refl

merge_parameters_lookup_example :
    ((v : Value)
      → walk (codes "a" ∷ codes "y" ∷ []) overriding_parameters ≡ some v
      → is_object v ≡ false
      → walk (codes "a" ∷ codes "y" ∷ []) merged_parameters ≡ some v)
    × (touches (codes "a" ∷ codes "y" ∷ []) overriding_parameters ≡ false
        → walk (codes "a" ∷ codes "y" ∷ []) merged_parameters
          ≡ walk (codes "a" ∷ codes "y" ∷ []) base_parameters)
merge_parameters_lookup_example =
    merge_parameters_lookup base_parameters overriding_parameters merged_parameters
      (codes "a" ∷ codes "y" ∷ []) overriding_is_map parameters_merged

-- The coordinator defers the token, and the agent reads it.
abbrev pub any_schema : Value → Bool
any_schema schema = true

abbrev pub any_parameters : Value → Value → Bool
any_parameters schema parameters = true

abbrev no_digest : {A : Type 0} → A → Text
no_digest x = []

abbrev runner_blueprint : Blueprint
runner_blueprint = record {
  api_version = codes "scheduler/v1";
  executor = runner;
  parameters_schema = object end;
  parameter_bindings = token_bindings;
  required_labels = [];
  policy = default_policy;
}

abbrev pub runner_snapshot : ExecutionSnapshot
runner_snapshot = record {
  executor = runner;
  policy = default_policy;
  required_labels = [];
  blueprint_digest = [];
  parameters_digest = [];
  parameters = some (object end);
  sensitive_parameter_paths = codes "/token" ∷ [];
  late_bindings = some (record {
    executor_template = runner;
    parameters_schema = object end;
    parameters = object end;
    bindings = token_bindings;
  });
}

abbrev pub resolved_runner : ExecutionSnapshot
resolved_runner = record runner_snapshot {
  executor = runner_with (codes "abc");
  late_bindings = none;
}

runner_deferred :
    resolve_snapshot any_schema any_parameters no_digest no_digest runner_blueprint (object end) []
    ≡ ok runner_snapshot
unfolding resolve_snapshot sensitive_parameter_paths sort_paths insert_path collect
    collect_properties get_field
runner_deferred = refl

runner_resolved :
    resolve_parameter_bindings any_schema any_parameters runner_snapshot
      ((token, string (codes "abc")) ∷ [])
    ≡ ok resolved_runner
unfolding resolve_parameter_bindings resolve_late validate_parameters insert_all insert_field
    render_executor render_command collect render_string render_loop fetch lookup walk split trim
    trim_start cut strip_prefix get_field
runner_resolved = refl

deferred_resolution_example :
    WaitsForAgent runner_blueprint (object end) runner_snapshot
    × Resolved any_parameters runner_blueprint
        (object end)
        ((token, string (codes "abc")) ∷ [])
        runner_snapshot
        resolved_runner
deferred_resolution_example =
    deferred_resolution any_schema any_parameters no_digest no_digest runner_blueprint (object end)
      [] ((token, string (codes "abc")) ∷ []) runner_snapshot resolved_runner refl runner_deferred
      runner_resolved

-- An Excel argument of two placeholders is taken for one placeholder, whose path does not exist.
two_placeholders :
    render_value
      (string (codes "{{params.a}}-{{params.b}}"))
      (object (field (codes "a") (string (codes "1")) (field (codes "b") (string (codes "2")) end)))
    ≡ err missing
unfolding render_value exact_placeholder render_string render_loop fetch lookup walk split trim
    trim_start cut strip_prefix get_field
two_placeholders = refl

sensitive_binding_listed_example :
    listed
      (b'/' ∷ escape_pointer_segment token)
      (sensitive_parameter_paths (object end) token_bindings)
    ≡ true
sensitive_binding_listed_example =
    sensitive_binding_listed (object end) token_bindings token token_binding token_found refl
