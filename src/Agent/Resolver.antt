-- ===== src/Agent/Resolver.antt =====
-- bins/agent/src/parameter_bindings.rs: the agent reads the values of bound parameters from the
-- environment variables and directories that its configuration allows.
use task_scheduler.Prelude.{
  ℕ, ◌*◌, String, Bool, true, false, not, ◌||◌, Option, none, some, List, [], ◌∷◌, ltb, ◌==◌,
  if◌then◌else◌, length, any, Result, err, ok, ◌>>=◌, ◌>>◌, or_fail, guard,
}
use task_scheduler.Domain.AgentId.{codes}
use task_scheduler.Parameters.Text.{Text, same_text, trim}
use task_scheduler.Parameters.Json.{Value, string, number, bool}
use task_scheduler.Parameters.Templates.{BlueprintError}
use task_scheduler.Parameters.Bindings.{
  ParameterBinding, ParameterBindingSource, environment, secret_file, ParameterBindingValueType,
  Bindings, is_environment_name, validate_parameter_bindings,
}
use task_scheduler.Parameters.Snapshots.{
  ExecutionSnapshot, LateBindingSnapshot, Values, resolve_parameter_bindings,
}

abbrev pub Bytes : Type 0
Bytes = List ℕ

-- The messages of the module's failures.
pub data ResolverError : Type 0 where
  bad_max_bytes bad_allowed_name relative_root missing_root root_not_directory : ResolverError
  not_allowed variable_missing too_large : ResolverError
  no_roots unreadable escapes_root not_a_file file_missing : ResolverError
  bad_definition bad_value rejected : ResolverError

-- What tokio::fs::canonicalize finds.
pub data Located (PathBuf : Type 0) : Type 0 where
  found : (path : PathBuf) → Located PathBuf
  not_found unavailable : Located PathBuf

pub record Metadata : Type 0 where
  pub is_file : Bool
  pub len : ℕ

-- The operating system: environment variables, and paths with the files behind them.
pub record System (PathBuf : Type 0) : Type 0 where
  pub var_os : Text → Option Bytes
  pub is_absolute : PathBuf → Bool
  pub is_dir : PathBuf → Bool
  pub join : PathBuf → Text → PathBuf
  pub starts_with : PathBuf → PathBuf → Bool
  pub canonicalize : PathBuf → Located PathBuf
  pub metadata : PathBuf → Option Metadata
  pub read : PathBuf → Option Bytes

-- String::from_utf8, str::parse::<i64> with its result printed, and serde_json::from_slice
pub record Decoders : Type 0 where
  pub from_utf8 : Bytes → Option Text
  pub parse_integer : Text → Option Text
  pub from_slice : Bytes → Option Value

pub record ParameterBindingResolver (PathBuf : Type 0) : Type 0 where
  pub allowed_environment : List Text
  pub secret_roots : List PathBuf
  pub max_bytes : ℕ

pub record ExecutionAssignment : Type 0 where
  pub schedule_id : ℕ
  pub run_id : ℕ
  pub attempt_id : ℕ
  pub attempt_number : ℕ
  pub lease_token : String
  pub lease_seconds : ℕ
  pub snapshot : ExecutionSnapshot

abbrev max_configured_binding_bytes : ℕ
max_configured_binding_bytes = 1024 * 1024

abbrev pub contains_text : Text → List Text → Bool
contains_text name names = any (same_text name) names

abbrev pub ensure_size : Bytes → ℕ → Result ResolverError (Unit {0})
ensure_size bytes max_bytes = guard (not (ltb max_bytes (length bytes))) too_large

abbrev pub os_string_bytes : Bytes → ℕ → Result ResolverError Bytes
os_string_bytes value max_bytes = do ensure_size value max_bytes; ok value

abbrev utf8_trimmed : Decoders → Bytes → Option Text
utf8_trimmed d bytes = elim (d.from_utf8 bytes) [ none ↦ none | some s ↦ some (trim s) ]

abbrev decode_boolean : Text → Option Value
decode_boolean s =
    if same_text s (codes "true")
    then some (bool true)
    else if same_text s (codes "false")
    then some (bool false)
    else none

abbrev decode_number : Value → Option Value
decode_number (number n) = some (number n)
decode_number _ = none

-- `none` is any of its failures: the caller replaces them by its own.
unfoldable pub decode_binding_value : Decoders → Bytes → ParameterBindingValueType → Option Value
decode_binding_value d bytes ParameterBindingValueType.string = elim (d.from_utf8 bytes) [
  | none ↦ none
  | some s ↦ some (string s)
]
decode_binding_value d bytes ParameterBindingValueType.integer = elim (utf8_trimmed d bytes) [
  | none ↦ none
  | some s ↦ elim (d.parse_integer s) [ none ↦ none | some n ↦ some (number n) ]
]
decode_binding_value d bytes ParameterBindingValueType.number = elim (d.from_slice bytes) [
  | none ↦ none
  | some v ↦ decode_number v
]
decode_binding_value d bytes ParameterBindingValueType.boolean = elim (utf8_trimmed d bytes) [
  | none ↦ none
  | some s ↦ decode_boolean s
]
decode_binding_value d bytes ParameterBindingValueType.json = d.from_slice bytes

module _ {PathBuf : Type 0} (sys : System PathBuf) where
  abbrev pub found_root : Located PathBuf → Result ResolverError PathBuf
  found_root (found path) = do guard (sys.is_dir path) root_not_directory; ok path
  found_root not_found = err missing_root
  found_root unavailable = err missing_root

  unfoldable pub canonical_roots : List PathBuf → Result ResolverError (List PathBuf)
  canonical_roots [] = ok []
  canonical_roots (root ∷ roots) = do
    guard (sys.is_absolute root) relative_root
    path ← found_root (sys.canonicalize root)
    paths ← canonical_roots roots
    ok (path ∷ paths)

  -- ParameterBindingResolver::new
  unfoldable pub new_resolver :
      List Text → List PathBuf → ℕ → Result ResolverError (ParameterBindingResolver PathBuf)
  unfolding canonical_roots
  new_resolver allowed roots max_bytes = do
    guard (not (max_bytes == 0 || ltb max_configured_binding_bytes max_bytes)) bad_max_bytes
    guard (not (any (λ name. not (is_environment_name name)) allowed)) bad_allowed_name
    canonical ← canonical_roots roots
    ok (record { allowed_environment = allowed; secret_roots = canonical; max_bytes = max_bytes })

  unfoldable pub read_environment :
      ParameterBindingResolver PathBuf → ParameterBinding → Result ResolverError Bytes
  read_environment r binding = do
    guard (contains_text binding.name r.allowed_environment) not_allowed
    value ← or_fail (sys.var_os binding.name) variable_missing
    os_string_bytes value r.max_bytes

  -- The file that a root's entry leads to.
  unfoldable pub read_found : ℕ → PathBuf → PathBuf → Result ResolverError Bytes
  read_found max_bytes root path = do
    guard (sys.starts_with path root) escapes_root
    info ← or_fail (sys.metadata path) unreadable
    guard info.is_file not_a_file
    guard (not (ltb max_bytes info.len)) too_large
    bytes ← or_fail (sys.read path) unreadable
    ensure_size bytes max_bytes
    ok bytes

  unfoldable pub read_from_roots : ℕ → Text → List PathBuf → Result ResolverError Bytes
  unfolding read_found
  read_from_roots max_bytes name [] = err file_missing
  read_from_roots max_bytes name (root ∷ roots) = elim (sys.canonicalize (sys.join root name)) [
    | found path ↦ read_found max_bytes root path
    | not_found ↦ read_from_roots max_bytes name roots
    | unavailable ↦ err unreadable
  ]

  unfoldable pub read_secret_file :
      ParameterBindingResolver PathBuf → ParameterBinding → Result ResolverError Bytes
  unfolding read_from_roots
  read_secret_file r binding = elim r.secret_roots [
    | [] ↦ err no_roots
    | root ∷ roots ↦ read_from_roots r.max_bytes binding.name (root ∷ roots)
  ]

  unfoldable pub read_source :
      ParameterBindingResolver PathBuf
      → ParameterBindingSource
      → ParameterBinding
      → Result ResolverError Bytes
  read_source r environment binding = read_environment r binding
  read_source r secret_file binding = read_secret_file r binding

  -- The loop of `resolve_assignment`, over a map: each parameter occurs once.
  unfoldable pub read_values :
      Decoders → ParameterBindingResolver PathBuf → Bindings → Result ResolverError Values
  unfolding read_source
  read_values d r [] = ok []
  read_values d r ((parameter, binding) ∷ bindings) = do
    bytes ← read_source r binding.source binding
    value ← or_fail (decode_binding_value d bytes binding.value_type) bad_value
    values ← read_values d r bindings
    ok ((parameter, value) ∷ values)

abbrev pub replace_error :
    {A : Type 0} → ResolverError → Result BlueprintError A → Result ResolverError A
replace_error e (ok a) = ok a
replace_error e (err _) = err e

module _ {PathBuf : Type 0} (sys : System PathBuf) (d : Decoders) (is_schema : Value → Bool)
    (conforms : Value → Value → Bool) where
  unfoldable pub resolve_with :
      ParameterBindingResolver PathBuf
      → ExecutionAssignment
      → Option LateBindingSnapshot
      → Result ResolverError ExecutionAssignment
  resolve_with r a none = ok a
  resolve_with r a (some late) = do
    replace_error bad_definition (validate_parameter_bindings late.bindings late.executor_template)
    values ← read_values sys d r late.bindings
    resolved ←
        replace_error rejected (resolve_parameter_bindings is_schema conforms a.snapshot values)
    ok (record a { snapshot = resolved })

  unfoldable pub resolve_assignment :
      ParameterBindingResolver PathBuf
      → ExecutionAssignment
      → Result ResolverError ExecutionAssignment
  unfolding resolve_with
  resolve_assignment r a = resolve_with r a a.snapshot.late_bindings
