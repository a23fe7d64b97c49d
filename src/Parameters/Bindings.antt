-- ===== src/Parameters/Bindings.antt =====
-- crates/scheduler-core/src/bindings.rs: parameters whose values only the agent knows, and the checks
-- on their names and uses.
use task_scheduler.Prelude.{
  ℕ, zero, suc, Bool, true, false, not, ◌&&◌, ◌||◌, Option, none, some, List, [], ◌∷◌, ◌==◌,
  if◌then◌else◌, length, any, all, Result, ok, ◌>>◌, guard,
}
use task_scheduler.Domain.AgentId.{
  codes, is_ascii_alphabetic, is_ascii_alphanumeric, first_is, last_is, length_within,
}
use task_scheduler.Parameters.Text.{Text, same_text, trim, cut, strip_prefix}
use task_scheduler.Parameters.Templates.{
  BlueprintError, bad_parameter_name, dotted_parameter_name, bad_environment_name, bad_secret_name,
  sensitive_elsewhere, opening, closing,
}
use task_scheduler.Parameters.Executors.{ExecutorSpec, command, excel_macro}

pub data ParameterBindingSource : Type 0 where
  environment secret_file : ParameterBindingSource

pub data ParameterBindingValueType : Type 0 where
  string integer number boolean json : ParameterBindingValueType

pub record ParameterBinding : Type 0 where
  pub source : ParameterBindingSource
  pub name : Text
  pub value_type : ParameterBindingValueType
  pub sensitive : Bool

-- BTreeMap<String, ParameterBinding>
abbrev pub Bindings : Type 0
Bindings = List (Text × ParameterBinding)

-- BTreeMap::get
unfoldable pub get_binding : Text → Bindings → Option ParameterBinding
get_binding name [] = none
get_binding name ((k, b) ∷ bindings) =
    if same_text k name then some b else get_binding name bindings

abbrev pub is_identifier_byte : ℕ → Bool
is_identifier_byte b = is_ascii_alphanumeric b || (b == b'_' || b == b'-')

abbrev pub is_safe_identifier : ℕ → Text → Bool
is_safe_identifier max s =
    length_within max s
    && (first_is is_ascii_alphanumeric s
        && (last_is is_ascii_alphanumeric s && all is_identifier_byte s))

abbrev pub is_logical_byte : ℕ → Bool
is_logical_byte b = is_ascii_alphanumeric b || (b == b'.' || (b == b'_' || b == b'-'))

abbrev pub is_safe_logical_name : ℕ → Text → Bool
is_safe_logical_name max s =
    length_within max s
    && (first_is is_ascii_alphanumeric s
        && (last_is is_ascii_alphanumeric s && all is_logical_byte s))

unfoldable pub validate_parameter_name : Text → Result BlueprintError (Unit {0})
validate_parameter_name name = do
  guard (is_safe_identifier 128 name) bad_parameter_name
  guard (not (any (λ c. c == b'.') name)) dotted_parameter_name

abbrev pub is_environment_byte : ℕ → Bool
is_environment_byte b = is_ascii_alphanumeric b || b == b'_'

abbrev pub is_environment_name : Text → Bool
is_environment_name s =
    length_within 128 s
    && (first_is (λ b. is_ascii_alphabetic b || b == b'_') s && all is_environment_byte s)

abbrev pub is_secret_name : Text → Bool
is_secret_name s = not (
    not (is_safe_logical_name 128 s)
    || ((same_text s (codes ".") || same_text s (codes ".."))
        || any (λ c. c == b'/' || (c == b'\\' || c == b':')) s))

-- The match of `validate_binding_source_name`.
abbrev pub check_source_name : ParameterBindingSource → Text → Result BlueprintError (Unit {0})
check_source_name environment name = guard (is_environment_name name) bad_environment_name
check_source_name secret_file name = guard (is_secret_name name) bad_secret_name

abbrev pub validate_binding_source_name : ParameterBinding → Result BlueprintError (Unit {0})
validate_binding_source_name binding = check_source_name binding.source binding.name

abbrev starts_with_dot : Option Text → Bool
starts_with_dot none = false
starts_with_dot (some s) = first_is (λ c. c == b'.') s

-- path == parameter, or a path below it
abbrev pub names_parameter : Text → Text → Bool
names_parameter parameter path =
    same_text path parameter || starts_with_dot (strip_prefix parameter path)

unfoldable pub references_loop : ℕ → Text → Text → Bool
references_loop zero rest parameter = false
references_loop (suc fuel) rest parameter = elim (cut opening rest) [
  | none ↦ false
  | some (_, expression) ↦ elim (cut closing expression) [
    | none ↦ false
    | some (path, after) ↦ elim (names_parameter parameter (trim path)) [
      | true ↦ true
      | false ↦ references_loop fuel after parameter
    ]
  ]
]

unfoldable pub template_references : Text → Text → Bool
unfolding references_loop
template_references template parameter = references_loop (suc (length template)) template parameter

abbrev pub option_references : Option Text → Text → Bool
option_references none parameter = false
option_references (some s) parameter = template_references s parameter

-- The uses that a sensitive parameter is barred from.
unfoldable pub is_prohibited : Text → ExecutorSpec → Bool
is_prohibited parameter (command c) =
    template_references c.program parameter
    || (any (λ s. template_references s parameter) c.args
        || option_references c.working_directory parameter)
is_prohibited parameter (excel_macro e) =
    template_references e.workbook_path parameter
    || (option_references e.module_name parameter || template_references e.macro_name parameter)

unfoldable pub validate_sensitive_binding_usage :
    Text → ExecutorSpec → Result BlueprintError (Unit {0})
unfolding is_prohibited
validate_sensitive_binding_usage parameter executor =
    guard (not (is_prohibited parameter executor)) sensitive_elsewhere

unfoldable pub validate_parameter_bindings :
    Bindings → ExecutorSpec → Result BlueprintError (Unit {0})
unfolding validate_parameter_name validate_sensitive_binding_usage
validate_parameter_bindings [] executor = ok tt
validate_parameter_bindings ((parameter, binding) ∷ bindings) executor = do
  validate_parameter_name parameter
  validate_binding_source_name binding
  if binding.sensitive then validate_sensitive_binding_usage parameter executor else ok tt
  validate_parameter_bindings bindings executor
