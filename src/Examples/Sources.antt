-- ===== src/Examples/Sources.antt =====
-- An agent resolves two bindings: a token from a variable and a password from a file.
use task_scheduler.Prelude.{
  ◌≡◌, refl, Bool, true, false, ◌&&◌, none, some, List, [], ◌∷◌, ◌++◌, err, ok, if◌then◌else◌,
}
use task_scheduler.Domain.AgentId.{codes}
use task_scheduler.Parameters.Text.{Text, same_text, cut, trim, trim_start, split, strip_prefix}
use task_scheduler.Parameters.Json.{string, object, end, get_field, insert_field}
use task_scheduler.Parameters.Templates.{walk, lookup, fetch, render_loop, render_string}
use task_scheduler.Parameters.Executors.{
  ExecutorSpec, command, collect, render_command, render_executor,
}
use task_scheduler.Parameters.Bindings.{
  ParameterBinding, ParameterBindingSource, ParameterBindingValueType, references_loop,
  template_references, is_prohibited, validate_parameter_name, validate_sensitive_binding_usage,
  validate_parameter_bindings,
}
use task_scheduler.Parameters.Snapshots.{
  insert_all, LateBindingSnapshot, resolve_late, validate_parameters, resolve_parameter_bindings,
}
use task_scheduler.Agent.Resolver.{
  Located, found, not_found, escapes_root, System, Decoders, ParameterBindingResolver,
  ExecutionAssignment, canonical_roots, new_resolver, decode_binding_value, read_environment,
  read_found, read_from_roots, read_secret_file, read_source, read_values, resolve_with,
  resolve_assignment,
}
use task_scheduler.Agent.Sources.{ResolvedFrom, resolve_assignment_sources}
use task_scheduler.Examples.Parameters.{
  token, token_binding, any_schema, any_parameters, runner_snapshot,
}

abbrev password : Text
password = codes "password"

abbrev password_binding : ParameterBinding
password_binding = record {
  source = ParameterBindingSource.secret_file;
  name = codes "db";
  value_type = ParameterBindingValueType.string;
  sensitive = true;
}

abbrev client_with : Text → Text → ExecutorSpec
client_with a b = command (record {
  program = codes "client";
  args = [];
  env = (codes "TOKEN", a) ∷ (codes "PASSWORD", b) ∷ [];
  working_directory = none;
})

abbrev client_late : LateBindingSnapshot
client_late = record {
  executor_template = client_with (codes "{{params.token}}") (codes "{{params.password}}");
  parameters_schema = object end;
  parameters = object end;
  bindings = (password, password_binding) ∷ (token, token_binding) ∷ [];
}

abbrev client_assignment : ExecutionAssignment
client_assignment = record {
  schedule_id = 1;
  run_id = 2;
  attempt_id = 3;
  attempt_number = 1;
  lease_token = "lease";
  lease_seconds = 60;
  snapshot = record runner_snapshot { late_bindings = some client_late };
}

abbrev resolved_client : ExecutionAssignment
resolved_client = record client_assignment {
  snapshot = record runner_snapshot {
    executor = client_with (codes "abc") (codes "xyz");
    late_bindings = none;
  };
}

-- Paths as lists of components; the directory /secrets has one file.
abbrev Components : Type 0
Components = List Text

abbrev is_below : Components → Components → Bool
is_below path [] = true
is_below [] (c ∷ root) = false
is_below (b ∷ path) (c ∷ root) = same_text b c && is_below path root

abbrev secrets : Components
secrets = codes "secrets" ∷ []

abbrev locate : Components → Components → Located Components
locate target path =
    if is_below path (secrets ++ codes "db" ∷ [])
    then found target
    else if is_below secrets path
    then found path
    else not_found

abbrev machine : Components → System Components
machine target = record {
  var_os = λ name. if same_text name (codes "TASK_TOKEN") then some (codes "abc") else none;
  is_absolute = λ path. true;
  is_dir = λ path. is_below secrets path;
  join = λ root name. root ++ name ∷ [];
  starts_with = is_below;
  canonicalize = locate target;
  metadata = λ path. some (record { is_file = true; len = 3 });
  read = λ path. some (codes "xyz");
}

abbrev db_file : Components
db_file = secrets ++ codes "db" ∷ []

abbrev decoders : Decoders
decoders = record {
  from_utf8 = some;
  parse_integer = some;
  from_slice = λ bytes. some (string bytes);
}

abbrev resolver : ParameterBindingResolver Components
resolver = record {
  allowed_environment = codes "TASK_TOKEN" ∷ [];
  secret_roots = secrets ∷ [];
  max_bytes = 16;
}

resolver_configured :
    new_resolver (machine db_file) (codes "TASK_TOKEN" ∷ []) (secrets ∷ []) 16 ≡ ok resolver
unfolding new_resolver canonical_roots
resolver_configured = refl

client_resolved :
    resolve_assignment
      (machine db_file)
      decoders
      any_schema
      any_parameters
      resolver
      client_assignment
    ≡ ok resolved_client
unfolding resolve_assignment resolve_with read_values read_source read_environment read_secret_file
    read_from_roots read_found decode_binding_value validate_parameter_bindings
    validate_parameter_name validate_sensitive_binding_usage is_prohibited template_references
    references_loop resolve_parameter_bindings resolve_late validate_parameters insert_all
    insert_field render_executor render_command collect render_string render_loop fetch lookup walk
    split trim trim_start cut strip_prefix get_field
client_resolved = refl

resolve_assignment_sources_example :
    ResolvedFrom
      (machine db_file)
      decoders
      any_schema
      any_parameters
      resolver
      client_late
      client_assignment
      resolved_client
resolve_assignment_sources_example =
    resolve_assignment_sources (machine db_file) decoders any_schema any_parameters resolver
      client_late client_assignment resolved_client refl client_resolved

-- A link that leads out of the directory is refused.
link_refused :
    read_secret_file (machine (codes "etc" ∷ [])) resolver password_binding ≡ err escapes_root
unfolding read_secret_file read_from_roots read_found
link_refused = refl
