-- ===== src/Agent/Sources.antt =====
-- Where the values that an agent resolves a snapshot with come from
-- (bins/agent/src/parameter_bindings.rs).
use task_scheduler.Prelude.{
  ℕ, ◌≤◌, ◌≡◌, refl, subst, Bool, true, false, not, some, List, [], ◌∷◌, ◌⊎◌, inl, inr, arith, ltb,
  length, Result, err, ok, ok_value, >>=-eq-ok, or_fail, or_fail-ok, guard,
}
use mathlib.Core.List.{Memᴰ}
use task_scheduler.Parameters.Text.{Text}
use task_scheduler.Parameters.Json.{Value}
use task_scheduler.Parameters.Templates.{BlueprintError}
use task_scheduler.Parameters.Bindings.{
  ParameterBinding, ParameterBindingSource, environment, secret_file, Bindings,
  validate_parameter_bindings,
}
use task_scheduler.Parameters.Snapshots.{LateBindingSnapshot, Values, resolve_parameter_bindings}
use task_scheduler.Agent.Resolver.{
  Bytes, ResolverError, bad_definition, bad_value, rejected, no_roots, not_allowed,
  variable_missing, escapes_root, unreadable, not_a_file, too_large, Located, found, not_found,
  unavailable, Metadata, System, Decoders, ParameterBindingResolver, ExecutionAssignment,
  contains_text, ensure_size, os_string_bytes, decode_binding_value, read_environment, read_found,
  read_from_roots, read_secret_file, read_source, read_values, replace_error, resolve_with,
  resolve_assignment,
}

guard-ok : {E : Type 0} (b : Bool) (e : E) (u : Unit {0}) → guard b e ≡ ok u → b ≡ true
guard-ok true e u h = refl
guard-ok false e u h = cc

os_string_bytes-ok :
    (value bytes : Bytes) (max_bytes : ℕ)
    → os_string_bytes value max_bytes ≡ ok bytes
    → (value ≡ bytes) × (length bytes ≤ max_bytes)
os_string_bytes-ok value bytes max_bytes h =
    let (u, small, h1) = >>=-eq-ok (ensure_size value max_bytes) _ h in
    let bound = guard-ok (not (ltb max_bytes (length value))) too_large u small in
    let same = ok_value h1 in (same, subst (λ x. length x ≤ max_bytes) same (ground arith))

module _ {PathBuf : Type 0} (sys : System PathBuf) where
  -- A regular file whose canonical path lies below a configured root, within the size limit.
  pub record FromFile (roots : List PathBuf) (max_bytes : ℕ) (name : Text) (bytes : Bytes)
      : Type 0 where
    pub root : PathBuf
    pub path : PathBuf
    pub info : Metadata
    pub configured : Memᴰ root roots
    pub located : sys.canonicalize (sys.join root name) ≡ found path
    pub inside : sys.starts_with path root ≡ true
    pub described : sys.metadata path ≡ some info
    pub regular : info.is_file ≡ true
    pub contents : sys.read path ≡ some bytes
    pub bounded : length bytes ≤ max_bytes

  -- What an agent may read for a binding.
  pub data Allowed (r : ParameterBindingResolver PathBuf)
      : ParameterBindingSource → Text → Bytes → Type 0 where
    from_variable :
        {name : Text} {bytes : Bytes}
        → contains_text name r.allowed_environment ≡ true
        → sys.var_os name ≡ some bytes
        → length bytes ≤ r.max_bytes
        → Allowed r environment name bytes
    from_file :
        {name : Text} {bytes : Bytes}
        → FromFile r.secret_roots r.max_bytes name bytes
        → Allowed r secret_file name bytes

  read_environment-Allowed :
      (r : ParameterBindingResolver PathBuf) (binding : ParameterBinding) (bytes : Bytes)
      → read_environment sys r binding ≡ ok bytes
      → Allowed r environment binding.name bytes
  unfolding read_environment
  read_environment-Allowed r binding bytes h =
      let (u, listed, h1) =
        >>=-eq-ok (guard (contains_text binding.name r.allowed_environment) not_allowed) _ h in
      let (value, set, h2) = >>=-eq-ok (or_fail (sys.var_os binding.name) variable_missing) _ h1 in
      let (same, small) = os_string_bytes-ok value bytes r.max_bytes h2 in
      from_variable (guard-ok _ not_allowed u listed)
        (subst (λ x. sys.var_os binding.name ≡ some x) same
          (or_fail-ok _ variable_missing value set))
        small

  read_found-FromFile :
      (max_bytes : ℕ) (name : Text) (root path : PathBuf) (roots : List PathBuf) (bytes : Bytes)
      → Memᴰ root roots
      → sys.canonicalize (sys.join root name) ≡ found path
      → read_found sys max_bytes root path ≡ ok bytes
      → FromFile roots max_bytes name bytes
  unfolding read_found
  read_found-FromFile max_bytes name root path roots bytes configured located h =
      let (u, below, h1) = >>=-eq-ok (guard (sys.starts_with path root) escapes_root) _ h in
      let (info, described, h2) = >>=-eq-ok (or_fail (sys.metadata path) unreadable) _ h1 in
      let (v, regular, h3) = >>=-eq-ok (guard info.is_file not_a_file) _ h2 in
      let (w, claimed, h4) = >>=-eq-ok (guard (not (ltb max_bytes info.len)) too_large) _ h3 in
      let (value, contents, h5) = >>=-eq-ok (or_fail (sys.read path) unreadable) _ h4 in
      let (same, small) = os_string_bytes-ok value bytes max_bytes h5 in
      record {
        root = root;
        path = path;
        info = info;
        configured = configured;
        located = located;
        inside = guard-ok _ escapes_root u below;
        described = or_fail-ok _ unreadable info described;
        regular = guard-ok _ not_a_file v regular;
        contents =
            subst (λ x. sys.read path ≡ some x) same (or_fail-ok _ unreadable value contents);
        bounded = small;
      }

  widen :
      (root : PathBuf) (roots : List PathBuf) (max_bytes : ℕ) (name : Text) (bytes : Bytes)
      → FromFile roots max_bytes name bytes
      → FromFile (root ∷ roots) max_bytes name bytes
  widen root roots max_bytes name bytes f = record {
    root = f.root;
    path = f.path;
    info = f.info;
    configured = Memᴰ.tail f.configured;
    located = f.located;
    inside = f.inside;
    described = f.described;
    regular = f.regular;
    contents = f.contents;
    bounded = f.bounded;
  }

  Located-cases :
      (l : Located PathBuf)
      → ((p : PathBuf) × (l ≡ found p)) ⊎ ((l ≡ not_found) ⊎ (l ≡ unavailable))
  Located-cases (found p) = inl (p, refl)
  Located-cases not_found = inr (inl refl)
  Located-cases unavailable = inr (inr refl)

  read_from_roots-FromFile :
      (max_bytes : ℕ) (name : Text) (roots : List PathBuf) (bytes : Bytes)
      → read_from_roots sys max_bytes name roots ≡ ok bytes
      → FromFile roots max_bytes name bytes
  unfolding read_from_roots
  read_from_roots-FromFile max_bytes name [] bytes h = cc
  read_from_roots-FromFile max_bytes name (root ∷ roots) bytes h =
      elim (Located-cases (sys.canonicalize (sys.join root name))) [
        | inl (path, e) ↦
            read_found-FromFile max_bytes name root path (root ∷ roots) bytes (Memᴰ.head refl) e
              (rw (read_from_roots, e) at h)
        | inr (inl e) ↦
            widen root roots max_bytes name bytes
              (read_from_roots-FromFile max_bytes name roots bytes (rw (read_from_roots, e) at h))
        | inr (inr e) ↦ ground arith
      ]

  read_secret_file-FromFile :
      (r : ParameterBindingResolver PathBuf) (binding : ParameterBinding) (bytes : Bytes)
      → read_secret_file sys r binding ≡ ok bytes
      → FromFile r.secret_roots r.max_bytes binding.name bytes
  unfolding read_secret_file
  read_secret_file-FromFile r binding bytes h = go r.secret_roots h
    where
      go :
          (roots : List PathBuf)
          → (elim roots [
            | [] ↦ err no_roots
            | root ∷ rest ↦ read_from_roots sys r.max_bytes binding.name (root ∷ rest)
          ])
            ≡ ok bytes
          → FromFile roots r.max_bytes binding.name bytes
      go [] h = cc
      go (root ∷ rest) h = read_from_roots-FromFile r.max_bytes binding.name (root ∷ rest) bytes h

  read_source-Allowed :
      (r : ParameterBindingResolver PathBuf) (source : ParameterBindingSource)
      (binding : ParameterBinding) (bytes : Bytes)
      → read_source sys r source binding ≡ ok bytes
      → Allowed r source binding.name bytes
  unfolding read_source
  read_source-Allowed r environment binding bytes h = read_environment-Allowed r binding bytes h
  read_source-Allowed r secret_file binding bytes h =
      from_file (read_secret_file-FromFile r binding bytes h)

  -- Each binding in turn, with the bytes that its value is decoded from.
  pub data ReadFrom (d : Decoders) (r : ParameterBindingResolver PathBuf)
      : Bindings → Values → Type 0 where
    done : ReadFrom d r [] []
    read_next :
        {parameter : Text} {binding : ParameterBinding} {bindings : Bindings} {value : Value}
        {values : Values} {bytes : Bytes}
        → Allowed r binding.source binding.name bytes
        → decode_binding_value d bytes binding.value_type ≡ some value
        → ReadFrom d r bindings values
        → ReadFrom d r ((parameter, binding) ∷ bindings) ((parameter, value) ∷ values)

  read_values-ReadFrom :
      (d : Decoders) (r : ParameterBindingResolver PathBuf) (bindings : Bindings) (values : Values)
      → read_values sys d r bindings ≡ ok values
      → ReadFrom d r bindings values
  unfolding read_values
  read_values-ReadFrom d r [] values h = subst (ReadFrom d r []) (ok_value h) done
  read_values-ReadFrom d r ((parameter, binding) ∷ bindings) values h =
      let (bytes, source, h1) = >>=-eq-ok (read_source sys r binding.source binding) _ h in
      let (value, decoded, h2) =
        >>=-eq-ok (or_fail (decode_binding_value d bytes binding.value_type) bad_value) _ h1 in
      let (rest, others, h3) = >>=-eq-ok (read_values sys d r bindings) _ h2 in
      subst (ReadFrom d r ((parameter, binding) ∷ bindings)) (ok_value h3) (
        read_next (read_source-Allowed r binding.source binding bytes source)
          (or_fail-ok _ bad_value value decoded) (read_values-ReadFrom d r bindings rest others))

replace_error-ok :
    {A : Type 0} (e : ResolverError) (m : Result BlueprintError A) (a : A)
    → replace_error e m ≡ ok a
    → m ≡ ok a
replace_error-ok e (ok x) a h = cc
replace_error-ok e (err x) a h = cc

module _ {PathBuf : Type 0} (sys : System PathBuf) (d : Decoders) (is_schema : Value → Bool)
    (conforms : Value → Value → Bool) where
  -- The assignment `b` is `a` with the snapshot that the values resolve to.
  pub record ResolvedFrom (r : ParameterBindingResolver PathBuf) (late : LateBindingSnapshot)
      (a b : ExecutionAssignment) : Type 0 where
    pub values : Values
    pub checked : validate_parameter_bindings late.bindings late.executor_template ≡ ok tt
    pub sources : ReadFrom sys d r late.bindings values
    pub resolved : resolve_parameter_bindings is_schema conforms a.snapshot values ≡ ok b.snapshot
    pub kept : b ≡ record a { snapshot = b.snapshot }

  resolve_with-ResolvedFrom :
      (r : ParameterBindingResolver PathBuf) (late : LateBindingSnapshot)
      (a b : ExecutionAssignment)
      → resolve_with sys d is_schema conforms r a (some late) ≡ ok b
      → ResolvedFrom r late a b
  unfolding resolve_with
  resolve_with-ResolvedFrom r late a b h =
      let (u, checked, h1) =
        >>=-eq-ok
          (replace_error bad_definition
            (validate_parameter_bindings late.bindings late.executor_template))
          _ h in
      let (values, reads, h2) = >>=-eq-ok (read_values sys d r late.bindings) _ h1 in
      let (snapshot, resolved, h3) =
        >>=-eq-ok
          (replace_error rejected (resolve_parameter_bindings is_schema conforms a.snapshot values))
          _ h2 in
      subst (ResolvedFrom r late a) (ok_value h3) (record {
        values = values;
        checked = replace_error-ok bad_definition _ u checked;
        sources = read_values-ReadFrom sys d r late.bindings values reads;
        resolved = replace_error-ok rejected _ snapshot resolved;
        kept = refl;
      })

  -- When an agent resolves an assignment that has late bindings, the bindings are accepted for the
  -- template, and each bound value is decoded, by the type of its binding, from bytes that the agent's
  -- configuration allows: those of an allowed environment variable, or of a regular file whose
  -- canonical path lies below a configured root, and no more bytes than the limit. The snapshot is
  -- resolved with these values, and nothing else of the assignment changes.
  pub resolve_assignment_sources :
      (r : ParameterBindingResolver PathBuf) (late : LateBindingSnapshot)
      (a b : ExecutionAssignment)
      → a.snapshot.late_bindings ≡ some late
      → resolve_assignment sys d is_schema conforms r a ≡ ok b
      → ResolvedFrom r late a b
  unfolding resolve_assignment
  resolve_assignment_sources r late a b bound h =
      resolve_with-ResolvedFrom r late a b
        (subst (λ o. resolve_with sys d is_schema conforms r a o ≡ ok b) bound h)
