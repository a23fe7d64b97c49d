-- ===== src/Parameters/Confinement.antt =====
-- What the checks of `validate_parameter_bindings` give the rendered executor.
use task_scheduler.Prelude.{
  ◌∙◌, ok_value, ◌≡◌, refl, sym, subst, true, false, not, Option, none, some, List, [], ◌∷◌, map,
  arith, if◌then◌else◌, any, all, ok, guard, >>=-eq-ok, Bool-cases, inl, inr,
}
use task_scheduler.Parameters.Text.{Text, same_text, same_text→eq}
use task_scheduler.Parameters.Json.{Value, is_scalar}
use task_scheduler.Parameters.Templates.{render_string}
use task_scheduler.Parameters.Executors.{
  CommandSpec, ExcelMacroSpec, ExecutorSpec, command, excel_macro, collect, transpose, render_entry,
  render_text, render_command, render_excel, render_executor, render_argument, validate_excel_spec,
}
use task_scheduler.Parameters.Bindings.{
  ParameterBinding, Bindings, get_binding, template_references, option_references, is_prohibited,
  validate_parameter_bindings, validate_parameter_name, validate_binding_source_name,
  validate_sensitive_binding_usage,
}
use task_scheduler.Parameters.Secrecy.{AgreeExcept, render_string_independent}

-- What the checks establish of one binding.
pub record Checked (parameter : Text) (binding : ParameterBinding) (executor : ExecutorSpec)
    : Type 0 where
  pub named : validate_parameter_name parameter ≡ ok tt
  pub source : validate_binding_source_name binding ≡ ok tt
  pub confined : binding.sensitive ≡ true → is_prohibited parameter executor ≡ false

Checked-cons :
    (parameter : Text) (binding : ParameterBinding) (bindings : Bindings) (executor : ExecutorSpec)
    → validate_parameter_bindings ((parameter, binding) ∷ bindings) executor ≡ ok tt
    → Checked parameter binding executor × (validate_parameter_bindings bindings executor ≡ ok tt)
unfolding validate_parameter_bindings validate_sensitive_binding_usage
Checked-cons parameter binding bindings executor h =
    let (u, a, h1) = >>=-eq-ok (validate_parameter_name parameter) _ h in
    let (x, b, h2) = >>=-eq-ok (validate_binding_source_name binding) _ h1 in
    let (y, c, h3) =
      >>=-eq-ok
        (if binding.sensitive then guard (not (is_prohibited parameter executor)) _ else ok tt) _
        h2 in
    (record { named = a; source = b; confined = λ s. ground (arith, c, s) }, h3)

pub validated-Checked :
    (bindings : Bindings) (executor : ExecutorSpec) (parameter : Text) (binding : ParameterBinding)
    → validate_parameter_bindings bindings executor ≡ ok tt
    → get_binding parameter bindings ≡ some binding
    → Checked parameter binding executor
unfolding get_binding
validated-Checked [] executor parameter binding h found = cc
validated-Checked ((k, b) ∷ bindings) executor parameter binding h found =
    let (checked, rest) = Checked-cons k b bindings executor h in
    elim (Bool-cases (same_text k parameter)) [
      | inl here ↦
          subst (λ p. Checked p binding executor) (same_text→eq k parameter here)
            (subst (λ x. Checked k x executor) (ground (arith, found, here)) checked)
      | inr there ↦
          validated-Checked bindings executor parameter binding rest (ground (arith, found, there))
    ]

collect_agree :
    (parameter : Text) (v w : Value) (templates : List Text)
    → any (λ s. template_references s parameter) templates ≡ false
    → AgreeExcept parameter v w
    → collect (render_text v) templates ≡ collect (render_text w) templates
unfolding collect
collect_agree parameter v w [] h agree = refl
collect_agree parameter v w (s ∷ ss) h agree =
    rw
      (
        render_string_independent s parameter v w (ground arith) agree,
        collect_agree parameter v w ss (ground arith) agree,
      )
      refl

option_agree :
    (parameter : Text) (v w : Value) (template : Option Text)
    → option_references template parameter ≡ false
    → AgreeExcept parameter v w
    → transpose (render_text v) template ≡ transpose (render_text w) template
option_agree parameter v w none h agree = refl
option_agree parameter v w (some s) h agree =
    rw (render_string_independent s parameter v w h agree) refl

-- An entry of the environment without its value.
abbrev pub without_value : Text × Text → Text × Text
without_value (name, value) = (name, [])

entry_name :
    (v : Value) (entry rendered : Text × Text)
    → render_entry v entry ≡ ok rendered
    → without_value rendered ≡ without_value entry
entry_name v (name, value) rendered h =
    let (text, e, k) = >>=-eq-ok (render_string value v) _ h in ground (arith, k)

environment_names :
    (v : Value) (env rendered : List (Text × Text))
    → collect (render_entry v) env ≡ ok rendered
    → map without_value rendered ≡ map without_value env
unfolding collect
environment_names v [] rendered h = ground arith
environment_names v (entry ∷ env) rendered h =
    let (first, a, h1) = >>=-eq-ok (render_entry v entry) _ h in
    let (rest, b, h2) = >>=-eq-ok (collect (render_entry v) env) _ h1 in
    let e : first ∷ rest ≡ rendered = ground (arith, h2) in
    rw (← e, entry_name v entry first a, environment_names v env rest b) refl

-- An executor without the values of its environment, or without its Excel arguments.
abbrev pub exposed : ExecutorSpec → ExecutorSpec
exposed (command c) = command (record c { env = map without_value c.env })
exposed (excel_macro e) = excel_macro (record e { args = [] })

record CommandParts (v : Value) (c r : CommandSpec) : Type 0 where
  program : r.program ≡ c.program
  args : collect (render_text v) c.args ≡ ok r.args
  names : map without_value r.env ≡ map without_value c.env
  directory : transpose (render_text v) c.working_directory ≡ ok r.working_directory

command_parts : (v : Value) (c r : CommandSpec) → render_command c v ≡ ok r → CommandParts v c r
unfolding render_command
command_parts v c r h =
    let (args, a, h1) = >>=-eq-ok (collect (render_text v) c.args) _ h in
    let (env, b, h2) = >>=-eq-ok (collect (render_entry v) c.env) _ h1 in
    let (directory, d, h3) = >>=-eq-ok (transpose (render_text v) c.working_directory) _ h2 in
    subst (CommandParts v c) (ok_value h3)
      (record { program = refl; args = a; names = environment_names v c.env env b; directory = d })

record ExcelParts (v : Value) (e r : ExcelMacroSpec) : Type 0 where
  workbook : render_string e.workbook_path v ≡ ok r.workbook_path
  module_part : transpose (render_text v) e.module_name ≡ ok r.module_name
  macro : render_string e.macro_name v ≡ ok r.macro_name
  flags : (r.read_only ≡ e.read_only) × (r.save_changes ≡ e.save_changes) × (r.visible ≡ e.visible)
  scalars : all is_scalar r.args ≡ true
  valid : validate_excel_spec r true ≡ ok tt

excel_parts : (v : Value) (e r : ExcelMacroSpec) → render_excel e v ≡ ok r → ExcelParts v e r
unfolding render_excel
excel_parts v e r h =
    let (args, a, h1) = >>=-eq-ok (collect (render_argument v) e.args) _ h in
    let (_, b, h2) = >>=-eq-ok (guard (all is_scalar args) _) _ h1 in
    let (workbook, c, h3) = >>=-eq-ok (render_string e.workbook_path v) _ h2 in
    let (module_name, d, h4) = >>=-eq-ok (transpose (render_text v) e.module_name) _ h3 in
    let (macro_name, f, h5) = >>=-eq-ok (render_string e.macro_name v) _ h4 in
    let (_, g, h6) = >>=-eq-ok (validate_excel_spec _ true) _ h5 in
    subst (ExcelParts v e) (ok_value h6) (record {
      workbook = c;
      module_part = d;
      macro = f;
      flags = (refl, refl, refl);
      scalars = ground (arith, b);
      valid = g;
    })

excel_confined :
    (parameter : Text) (v w : Value) (e x y : ExcelMacroSpec)
    → is_prohibited parameter (excel_macro e) ≡ false
    → AgreeExcept parameter v w
    → ExcelParts v e x
    → ExcelParts w e y
    → exposed (excel_macro x) ≡ exposed (excel_macro y)
unfolding is_prohibited
excel_confined parameter v w e x y free agree p q =
    let workbook = render_string_independent e.workbook_path parameter v w (ground arith) agree in
    let macro = render_string_independent e.macro_name parameter v w (ground arith) agree in
    let module_part = option_agree parameter v w e.module_name (ground arith) agree in
    let same_workbook : x.workbook_path ≡ y.workbook_path =
      ok_value (sym p.workbook ∙ workbook ∙ q.workbook) in
    let same_macro : x.macro_name ≡ y.macro_name = ok_value (sym p.macro ∙ macro ∙ q.macro) in
    let same_module : x.module_name ≡ y.module_name =
      ok_value (sym p.module_part ∙ module_part ∙ q.module_part) in
    cc (p.flags.0, p.flags.1, p.flags.2, q.flags.0, q.flags.1, q.flags.2)

command_confined :
    (parameter : Text) (v w : Value) (c x y : CommandSpec)
    → is_prohibited parameter (command c) ≡ false
    → AgreeExcept parameter v w
    → CommandParts v c x
    → CommandParts w c y
    → exposed (command x) ≡ exposed (command y)
unfolding is_prohibited
command_confined parameter v w c x y free agree p q =
    let args = collect_agree parameter v w c.args (ground arith) agree in
    let directory = option_agree parameter v w c.working_directory (ground arith) agree in
    let same_args : x.args ≡ y.args = ok_value (sym p.args ∙ args ∙ q.args) in
    let same_directory : x.working_directory ≡ y.working_directory =
      ok_value (sym p.directory ∙ directory ∙ q.directory) in
    let same_names : map without_value x.env ≡ map without_value y.env = p.names ∙ sym q.names in
    cc (p.program, q.program)

-- A sensitive binding that the checks accept stays where it may be: for any two values of the bound
-- parameter, the rendered executors differ at most in the values of environment variables, or in
-- the Excel arguments. Program, arguments of the command, working directory, names of environment
-- variables, workbook, module, macro and flags are the same.
pub sensitive_value_confined :
    (bindings : Bindings) (executor : ExecutorSpec) (parameter : Text) (binding : ParameterBinding)
    (v w : Value) (x y : ExecutorSpec)
    → validate_parameter_bindings bindings executor ≡ ok tt
    → get_binding parameter bindings ≡ some binding
    → binding.sensitive ≡ true
    → AgreeExcept parameter v w
    → render_executor executor v ≡ ok x
    → render_executor executor w ≡ ok y
    → exposed x ≡ exposed y
unfolding render_executor
sensitive_value_confined bindings (command c) parameter binding v w x y h found sensitive agree a
      b =
    let free =
      (validated-Checked bindings (command c) parameter binding h found).confined sensitive in
    let (r, p, e) = >>=-eq-ok (render_command c v) _ a in
    let (s, q, f) = >>=-eq-ok (render_command c w) _ b in
    cc (
      command_confined parameter v w c r s free agree (command_parts v c r p)
          (command_parts w c s q),
      ok_value e,
      ok_value f,
    )
sensitive_value_confined bindings (excel_macro m) parameter binding v w x y h found sensitive agree
      a b =
    let free =
      (validated-Checked bindings (excel_macro m) parameter binding h found).confined sensitive in
    let (r, p, e) = >>=-eq-ok (render_excel m v) _ a in
    let (s, q, f) = >>=-eq-ok (render_excel m w) _ b in
    cc (
      excel_confined parameter v w m r s free agree (excel_parts v m r p) (excel_parts w m s q),
      ok_value e,
      ok_value f,
    )

-- An Excel executor that is rendered can be run: its arguments are scalars and it passes the check
-- of rendered specifications.
pub rendered_excel_valid :
    (e : ExcelMacroSpec) (v : Value) (r : ExcelMacroSpec)
    → render_executor (excel_macro e) v ≡ ok (excel_macro r)
    → (all is_scalar r.args ≡ true) × (validate_excel_spec r true ≡ ok tt)
unfolding render_executor
rendered_excel_valid e v r h =
    let (s, p, k) = >>=-eq-ok (render_excel e v) _ h in
    let parts = excel_parts v e s p in
    let same : s ≡ r = ground (arith, ok_value k) in rw (← same) (parts.scalars, parts.valid)
