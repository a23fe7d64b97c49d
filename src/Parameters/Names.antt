-- ===== src/Parameters/Names.antt =====
-- The names that bindings may have: of environment variables, and of secret files.
use task_scheduler.Prelude.{
  ℕ, ◌≤◌, ◌≡◌, ◌≢◌, ◌⊎◌, true, ◌||◌, some, [], ◌∷◌, arith, ok, ◌==◌, length, all, All,
}
use task_scheduler.Domain.AgentId.{is_ascii_alphabetic, is_ascii_alphanumeric, first_is}
use task_scheduler.Parameters.Text.{Text}
use task_scheduler.Parameters.Executors.{ExecutorSpec}
use task_scheduler.Parameters.Bindings.{
  ParameterBinding, ParameterBindingSource, environment, secret_file, Bindings, get_binding,
  validate_parameter_bindings, check_source_name, is_secret_name, is_environment_name,
  is_logical_byte, is_environment_byte,
}
use task_scheduler.Parameters.Confinement.{validated-Checked}

-- A code point that leads out of a directory, on any platform.
abbrev pub IsPathCharacter : ℕ → Type 0
IsPathCharacter c = (c ≡ b'/') ⊎ (c ≡ b'\\') ⊎ (c ≡ b':') ⊎ (c ≡ 0)

-- A name is one component of a path, or a variable of a POSIX shell.
abbrev pub IsSafeName : ParameterBindingSource → Text → Type 0
IsSafeName secret_file name =
    All (λ c. (c ≤ 127) × (¬ IsPathCharacter c)) name
    × (name ≢ b'.' ∷ [])
    × (name ≢ b'.' ∷ b'.' ∷ [])
IsSafeName environment name =
    All (λ c. (is_ascii_alphanumeric c || c == b'_') ≡ true) name
    × (first_is (λ c. is_ascii_alphabetic c || c == b'_') name ≡ true)

logical_bytes :
    (s : Text) → all is_logical_byte s ≡ true → All (λ c. (c ≤ 127) × (¬ IsPathCharacter c)) s
logical_bytes [] h = tt
logical_bytes (c ∷ s) h = (ground arith, logical_bytes s (ground arith))

environment_bytes :
    (s : Text)
    → all is_environment_byte s ≡ true
    → All (λ c. (is_ascii_alphanumeric c || c == b'_') ≡ true) s
environment_bytes [] h = tt
environment_bytes (c ∷ s) h = (ground arith, environment_bytes s (ground arith))

secret_name_safe :
    (s : Text)
    → is_secret_name s ≡ true
    → (1 ≤ length s) × (length s ≤ 128) × IsSafeName secret_file s
secret_name_safe [] h = cc
secret_name_safe (c ∷ s) h =
    (ground arith, ground arith, (logical_bytes (c ∷ s) (ground arith), ground arith, ground arith))

environment_name_safe :
    (s : Text)
    → is_environment_name s ≡ true
    → (1 ≤ length s) × (length s ≤ 128) × IsSafeName environment s
environment_name_safe s h =
    (ground arith, ground arith, (environment_bytes s (ground arith), ground arith))

source_name_safe :
    (source : ParameterBindingSource) (name : Text)
    → check_source_name source name ≡ ok tt
    → (1 ≤ length name) × (length name ≤ 128) × IsSafeName source name
source_name_safe environment name h = environment_name_safe name (ground arith)
source_name_safe secret_file name h = secret_name_safe name (ground arith)

-- A binding that the checks accept names a secret file by one component of a path, which is
-- neither `.` nor `..`, or an environment variable by letters, digits and underscores, no digit
-- first; the name has 1 to 128 characters, all ASCII.
pub binding_name_safe :
    (bindings : Bindings) (executor : ExecutorSpec) (parameter : Text) (binding : ParameterBinding)
    → validate_parameter_bindings bindings executor ≡ ok tt
    → get_binding parameter bindings ≡ some binding
    → (1 ≤ length binding.name)
      × (length binding.name ≤ 128)
      × IsSafeName binding.source binding.name
binding_name_safe bindings executor parameter binding h found =
    source_name_safe binding.source binding.name
      (validated-Checked bindings executor parameter binding h found).source
