-- ===== src/Parameters/Snapshots.antt =====
-- `Blueprint`, `ExecutionSnapshot` and `LateBindingSnapshot`, with `validate_blueprint`,
-- `resolve_snapshot` and `resolve_parameter_bindings`. The jsonschema crate decides which values are
-- schemas and which parameters conform to one; digests are those of sha2 and serde_json.
use task_scheduler.Prelude.{
  Bool, true, false, not, ◌||◌, Option, none, some, List, [], ◌∷◌, ◌==◌, if◌then◌else◌, length, any,
  Result, ok, ◌>>=◌, ◌>>◌, guard,
}
use task_scheduler.Domain.{ExecutionPolicy}
use task_scheduler.Domain.AgentId.{codes}
use task_scheduler.Parameters.Text.{Text, same_text}
use task_scheduler.Parameters.Json.{Value, Fields, object, get_field, insert_field, is_object}
use task_scheduler.Parameters.Templates.{
  BlueprintError, unexpected_values, binding_mismatch, not_an_object, bound_parameter_saved,
  bad_api_version, no_attempts, no_timeout, empty_program, bad_schema, schema_violation,
}
use task_scheduler.Parameters.Executors.{
  ExecutorSpec, command, excel_macro, is_blank, validate_excel_spec, render_executor,
}
use task_scheduler.Parameters.Bindings.{Bindings, validate_parameter_bindings}
use task_scheduler.Parameters.Redaction.{sensitive_parameter_paths}

-- BTreeMap<String, String>
abbrev pub Labels : Type 0
Labels = List (Text × Text)

pub record Blueprint : Type 0 where
  pub api_version : Text
  pub executor : ExecutorSpec
  pub parameters_schema : Value
  pub parameter_bindings : Bindings
  pub required_labels : Labels
  pub policy : ExecutionPolicy

pub record LateBindingSnapshot : Type 0 where
  pub executor_template : ExecutorSpec
  pub parameters_schema : Value
  pub parameters : Value
  pub bindings : Bindings

pub record ExecutionSnapshot : Type 0 where
  pub executor : ExecutorSpec
  pub policy : ExecutionPolicy
  pub required_labels : Labels
  pub blueprint_digest : Text
  pub parameters_digest : Text
  pub parameters : Option Value
  pub sensitive_parameter_paths : List Text
  pub late_bindings : Option LateBindingSnapshot

-- BTreeMap::extend, entry by entry
abbrev pub insert_label : Text → Text → Labels → Labels
insert_label key value [] = (key, value) ∷ []
insert_label key value ((k, v) ∷ labels) =
    if same_text k key then (k, value) ∷ labels else (k, v) ∷ insert_label key value labels

abbrev pub extend_labels : Labels → Labels → Labels
extend_labels labels [] = labels
extend_labels labels ((k, v) ∷ more) = extend_labels (insert_label k v labels) more

abbrev pub is_empty {ℓ} : {A : Type ℓ} → List A → Bool
is_empty [] = true
is_empty (x ∷ xs) = false

-- contains_key
abbrev pub has_field : Text → Value → Bool
has_field name (object fs) = elim (get_field name fs) [ none ↦ false | some _ ↦ true ]
has_field name v = false

-- BTreeMap<String, Value>: the values that an agent has read for the bindings.
abbrev pub Values : Type 0
Values = List (Text × Value)

abbrev pub has_value : Text → Values → Bool
has_value name values = any (λ entry. same_text entry.0 name) values

abbrev pub has_binding : Text → Bindings → Bool
has_binding name bindings = any (λ entry. same_text entry.0 name) bindings

-- The three tests of `resolve_parameter_bindings`, negated.
abbrev pub matches_bindings : Values → Bindings → Bool
matches_bindings values bindings = not (
    not (length values == length bindings)
    || (any (λ entry. not (has_value entry.0 values)) bindings
        || any (λ entry. not (has_binding entry.0 bindings)) values))

-- The loop over the values.
unfoldable pub insert_all : Values → Fields → Fields
insert_all [] fs = fs
insert_all ((name, v) ∷ values) fs = insert_all values (insert_field name v fs)

abbrev pub insert_values : Values → Value → Value
insert_values values (object fs) = object (insert_all values fs)
insert_values values v = v

module _ (is_schema : Value → Bool) (conforms : Value → Value → Bool) where
  abbrev pub validate_executor : ExecutorSpec → Result BlueprintError (Unit {0})
  validate_executor (command c) = guard (not (is_blank c.program)) empty_program
  validate_executor (excel_macro e) = validate_excel_spec e false

  unfoldable pub validate_blueprint : Blueprint → Result BlueprintError (Unit {0})
  validate_blueprint b = do
    guard (same_text b.api_version (codes "scheduler/v1")) bad_api_version
    guard (not (b.policy.max_attempts == 0)) no_attempts
    guard (not (b.policy.timeout_seconds == 0)) no_timeout
    validate_executor b.executor
    validate_parameter_bindings b.parameter_bindings b.executor
    guard (is_schema b.parameters_schema) bad_schema

  unfoldable pub validate_parameters : Value → Value → Result BlueprintError (Unit {0})
  validate_parameters schema parameters = do
    guard (is_schema schema) bad_schema
    guard (conforms schema parameters) schema_violation

  -- The executor and the late bindings of a snapshot.
  abbrev pub bind_late :
      Blueprint → Value → Result BlueprintError (ExecutorSpec × Option LateBindingSnapshot)
  bind_late b parameters =
      if is_empty b.parameter_bindings
      then (do
        validate_parameters b.parameters_schema parameters
        executor ← render_executor b.executor parameters
        ok (executor, none))
      else (do
        guard (not (any (λ entry. has_field entry.0 parameters) b.parameter_bindings))
            bound_parameter_saved
        ok (
          b.executor,
          some (record {
            executor_template = b.executor;
            parameters_schema = b.parameters_schema;
            parameters = parameters;
            bindings = b.parameter_bindings;
          }),
        ))

  -- `digest_blueprint` and `digest_parameters` are the hexadecimal SHA-256 of the JSON texts.
  module _ (digest_blueprint : Blueprint → Text) (digest_parameters : Value → Text) where
    unfoldable pub resolve_snapshot :
        Blueprint → Value → Labels → Result BlueprintError ExecutionSnapshot
    resolve_snapshot b parameters schedule_labels = do
      guard (is_object parameters) not_an_object
      (executor, late) ← bind_late b parameters
      ok (record {
        executor = executor;
        policy = b.policy;
        required_labels = extend_labels b.required_labels schedule_labels;
        blueprint_digest = digest_blueprint b;
        parameters_digest = digest_parameters parameters;
        parameters = some parameters;
        sensitive_parameter_paths =
            sensitive_parameter_paths b.parameters_schema b.parameter_bindings;
        late_bindings = late;
      })

  unfoldable pub resolve_late :
      ExecutionSnapshot
      → Option LateBindingSnapshot
      → Values
      → Result BlueprintError ExecutionSnapshot
  resolve_late snapshot none values = do guard (is_empty values) unexpected_values; ok snapshot
  resolve_late snapshot (some late) values = do
    guard (matches_bindings values late.bindings) binding_mismatch
    guard (is_object late.parameters) not_an_object
    let parameters = insert_values values late.parameters
    validate_parameters late.parameters_schema parameters
    executor ← render_executor late.executor_template parameters
    ok (record snapshot { executor = executor; late_bindings = none })

  unfoldable pub resolve_parameter_bindings :
      ExecutionSnapshot → Values → Result BlueprintError ExecutionSnapshot
  unfolding resolve_late
  resolve_parameter_bindings snapshot values = resolve_late snapshot snapshot.late_bindings values
