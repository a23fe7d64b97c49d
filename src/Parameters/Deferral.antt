-- ===== src/Parameters/Deferral.antt =====
-- A blueprint with bindings, from the coordinator's snapshot to the agent's.
use task_scheduler.Prelude.{
  ◌∙◌, ◌≡◌, refl, sym, ap, subst, Bool, true, false, not, ◌||◌, Option, none, some, List, [], ◌∷◌,
  arith, any, if◌then◌else◌, Bool-cases, inl, inr, ok, ok_value, >>=-eq-ok, guard,
}
use task_scheduler.Parameters.Text.{Text, same_text, same_text→eq}
use task_scheduler.Parameters.Json.{Value, Fields, object, get, get_field, insert_field, is_object}
use task_scheduler.Parameters.Templates.{bound_parameter_saved, not_an_object, binding_mismatch}
use task_scheduler.Parameters.Executors.{ExecutorSpec, render_executor}
use task_scheduler.Parameters.Bindings.{Bindings}
use task_scheduler.Parameters.Merge.{get-insert}
use task_scheduler.Parameters.Snapshots.{
  Blueprint, LateBindingSnapshot, ExecutionSnapshot, Labels, Values, is_empty, has_field, has_value,
  has_binding, matches_bindings, insert_all, insert_values, validate_parameters, bind_late,
  resolve_snapshot, resolve_late, resolve_parameter_bindings,
}

-- What the coordinator puts into the snapshot of a blueprint with bindings.
abbrev pub late_of : Blueprint → Value → LateBindingSnapshot
late_of b parameters = record {
  executor_template = b.executor;
  parameters_schema = b.parameters_schema;
  parameters = parameters;
  bindings = b.parameter_bindings;
}

-- No bound parameter has a saved value, and the template is not rendered yet.
pub record WaitsForAgent (b : Blueprint) (parameters : Value) (snapshot : ExecutionSnapshot)
    : Type 0 where
  pub unsaved : any (λ entry. has_field entry.0 parameters) b.parameter_bindings ≡ false
  pub template : snapshot.executor ≡ b.executor
  pub saved : snapshot.parameters ≡ some parameters
  pub late : snapshot.late_bindings ≡ some (late_of b parameters)

-- The value read for a name, the last if there are several, and else `saved`.
abbrev pub read_or : Option Value → Text → Values → Option Value
read_or saved k [] = saved
read_or saved k ((name, v) ∷ values) = read_or (if same_text name k then some v else saved) k values

-- What the agent makes of it: the executor of the blueprint, rendered with parameters that have, at
-- each name, the value that was read for it, and the saved one where none was. Values were read for
-- exactly the bound names, and the parameters conform to the schema.
pub record Resolved (conforms : Value → Value → Bool) (b : Blueprint) (parameters : Value)
    (values : Values) (snapshot done : ExecutionSnapshot) : Type 0 where
  pub complete : Value
  pub named :
      (k : Text)
      → any (λ entry. same_text entry.0 k) values
        ≡ any (λ entry. same_text entry.0 k) b.parameter_bindings
  pub is_complete : (k : Text) → get k complete ≡ read_or (get k parameters) k values
  pub valid : conforms b.parameters_schema complete ≡ true
  pub rendered : render_executor b.executor complete ≡ ok done.executor
  pub stripped : done ≡ record snapshot { executor = done.executor; late_bindings = none }

-- A name of the list passes a test that none of its names fails.
passes :
    {A : Type 0} (q : Text → Bool) (k : Text) (xs : List (Text × A))
    → any (λ entry. not (q entry.0)) xs ≡ false
    → any (λ entry. same_text entry.0 k) xs ≡ true
    → q k ≡ true
passes q k [] h m = absurd (cc)
passes q k ((name, x) ∷ xs) h m = elim (Bool-cases (same_text name k)) [
  | inl e ↦ subst (λ n. q n ≡ true) (same_text→eq name k e) (not_failed (q name) (any _ xs) h)
  | inr e ↦ passes q k xs (ground (arith, h)) (rw e at m)
]
  where
    not_failed : (b c : Bool) → (not b || c) ≡ false → b ≡ true
    not_failed b c e = ground (arith, e)

same_names :
    (k : Text) (values : Values) (bindings : Bindings)
    → matches_bindings values bindings ≡ true
    → has_value k values ≡ has_binding k bindings
same_names k values bindings h =
    let every_binding : any (λ entry. not (has_value entry.0 values)) bindings ≡ false =
      ground (arith, h) in
    let every_value : any (λ entry. not (has_binding entry.0 bindings)) values ≡ false =
      ground (arith, h) in
    both_ways (has_value k values) (has_binding k bindings)
      (passes (λ n. has_binding n bindings) k values every_value)
      (passes (λ n. has_value n values) k bindings every_binding)
  where
    both_ways : (a b : Bool) → (a ≡ true → b ≡ true) → (b ≡ true → a ≡ true) → a ≡ b
    both_ways true b f g = sym (f refl)
    both_ways false true f g = g refl
    both_ways false false f g = refl

get-insert_all :
    (k : Text) (values : Values) (fs : Fields)
    → get_field k (insert_all values fs) ≡ read_or (get_field k fs) k values
unfolding insert_all
get-insert_all k [] fs = refl
get-insert_all k ((name, v) ∷ values) fs =
    get-insert_all k values (insert_field name v fs)
    ∙ ap (λ o. read_or o k values) (get-insert k name v fs)

get-insert_values :
    (k : Text) (values : Values) (parameters : Value)
    → is_object parameters ≡ true
    → get k (insert_values values parameters) ≡ read_or (get k parameters) k values
get-insert_values k values (object fs) h = get-insert_all k values fs
get-insert_values k values parameters h = cc

module _ (is_schema : Value → Bool) (conforms : Value → Value → Bool)
    (digest_blueprint : Blueprint → Text) (digest_parameters : Value → Text) where
  bind_late-eq-ok :
      (b : Blueprint) (parameters : Value) (bound : ExecutorSpec × Option LateBindingSnapshot)
      → is_empty b.parameter_bindings ≡ false
      → bind_late is_schema conforms b parameters ≡ ok bound
      → (any (λ entry. has_field entry.0 parameters) b.parameter_bindings ≡ false)
        × (bound ≡ (b.executor, some (late_of b parameters)))
  bind_late-eq-ok b parameters bound some_bindings d =
      let saved = any (λ entry. has_field entry.0 parameters) b.parameter_bindings in
      let (_, u, d1) =
        >>=-eq-ok (guard (not saved) bound_parameter_saved) _ (rw some_bindings at d) in
      (ground (arith, u), sym (ok_value d1))

  resolve_snapshot-WaitsForAgent :
      (b : Blueprint) (parameters : Value) (labels : Labels) (snapshot : ExecutionSnapshot)
      → is_empty b.parameter_bindings ≡ false
      → resolve_snapshot is_schema conforms digest_blueprint digest_parameters b parameters labels
        ≡ ok snapshot
      → WaitsForAgent b parameters snapshot
  unfolding resolve_snapshot
  resolve_snapshot-WaitsForAgent b parameters labels snapshot some_bindings h =
      let (_, o, h1) = >>=-eq-ok (guard (is_object parameters) not_an_object) _ h in
      let (bound, d, h2) = >>=-eq-ok (bind_late is_schema conforms b parameters) _ h1 in
      let (unsaved, pair) = bind_late-eq-ok b parameters bound some_bindings d in
      let made = ok_value h2 in
      record {
        unsaved = unsaved;
        template = sym (ap (λ x. x.executor) made) ∙ ap (λ x. x.0) pair;
        saved = sym (ap (λ x. x.parameters) made);
        late = sym (ap (λ x. x.late_bindings) made) ∙ ap (λ x. x.1) pair;
      }

  late-Resolved :
      (b : Blueprint) (parameters : Value) (values : Values) (snapshot done : ExecutionSnapshot)
      → resolve_late is_schema conforms snapshot (some (late_of b parameters)) values ≡ ok done
      → Resolved conforms b parameters values snapshot done
  unfolding resolve_late validate_parameters
  late-Resolved b parameters values snapshot done h =
      let (_, m, h1) =
        >>=-eq-ok (guard (matches_bindings values b.parameter_bindings) binding_mismatch) _ h in
      let (_, o, h2) = >>=-eq-ok (guard (is_object parameters) not_an_object) _ h1 in
      let all_values = insert_values values parameters in
      let (_, v, h3) =
        >>=-eq-ok (validate_parameters is_schema conforms b.parameters_schema all_values) _ h2 in
      let (executor, r, h4) = >>=-eq-ok (render_executor b.executor all_values) _ h3 in
      subst (Resolved conforms b parameters values snapshot) (ok_value h4) (record {
        complete = all_values;
        named = λ k. same_names k values b.parameter_bindings (ground (arith, m));
        is_complete = λ k. get-insert_values k values parameters (ground (arith, o));
        valid = ground (arith, v);
        rendered = r;
        stripped = refl;
      })

  -- A blueprint with bindings is rendered late. The coordinator's snapshot has the template and the
  -- saved parameters, among which no bound name has a value. If the agent resolves it, it has read
  -- values for exactly the bound names; its executor is the blueprint's, rendered with parameters that
  -- have at each name the value that was read, or else the saved one, and that conform to the schema;
  -- and nothing else of the snapshot has changed but that the bindings are gone.
  pub deferred_resolution :
      (b : Blueprint) (parameters : Value) (labels : Labels) (values : Values)
      (snapshot done : ExecutionSnapshot)
      → is_empty b.parameter_bindings ≡ false
      → resolve_snapshot is_schema conforms digest_blueprint digest_parameters b parameters labels
        ≡ ok snapshot
      → resolve_parameter_bindings is_schema conforms snapshot values ≡ ok done
      → WaitsForAgent b parameters snapshot × Resolved conforms b parameters values snapshot done
  unfolding resolve_parameter_bindings
  deferred_resolution b parameters labels values snapshot done some_bindings h k =
      let d = resolve_snapshot-WaitsForAgent b parameters labels snapshot some_bindings h in
      (d, late-Resolved b parameters values snapshot done (rw d.late at k))
