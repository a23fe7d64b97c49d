-- ===== src/Parameters/Executors.antt =====
-- `ExecutorSpec` of crates/scheduler-core/src/domain.rs, and how blueprint.rs checks and renders it:
-- `validate_excel_spec` and `render_executor`. A map from names to texts is the list of its entries.
use task_scheduler.Prelude.{
  Bool, true, false, not, ◌&&◌, ◌||◌, Option, none, some, List, [], ◌∷◌, leb, ◌==◌, length, any,
  all, Result, ok, ◌>>=◌, ◌>>◌, guard,
}
use task_scheduler.Parameters.Text.{Text, same_text, trim, cut}
use task_scheduler.Parameters.Json.{Value, is_scalar}
use task_scheduler.Parameters.Templates.{
  BlueprintError, excel_incomplete, excel_blank_module, excel_qualified_module,
  excel_qualified_macro, excel_too_many_arguments, excel_argument_kind, excel_resolved_argument,
  opening, render_string, render_value,
}

pub record CommandSpec : Type 0 where
  pub program : Text
  pub args : List Text
  pub env : List (Text × Text)
  pub working_directory : Option Text

pub record ExcelMacroSpec : Type 0 where
  pub workbook_path : Text
  pub module_name : Option Text
  pub macro_name : Text
  pub args : List Value
  pub read_only : Bool
  pub save_changes : Bool
  pub visible : Bool

pub data ExecutorSpec : Type 0 where
  command : CommandSpec → ExecutorSpec
  excel_macro : ExcelMacroSpec → ExecutorSpec

-- trim().is_empty()
abbrev pub is_blank : Text → Bool
is_blank s = same_text (trim s) []

abbrev contains_opening : Text → Bool
contains_opening s = elim (cut opening s) [ none ↦ false | some _ ↦ true ]

-- contains(['.', '!'])
abbrev is_qualified : Text → Bool
is_qualified s = any (λ c. c == b'.' || c == b'!') s

abbrev blank_option : Option Text → Bool
blank_option none = false
blank_option (some s) = is_blank s

-- The checks under `if let Some(module_name)`.
validate_module : Bool → Option Text → Text → Result BlueprintError (Unit {0})
validate_module rendered none macro_name = ok tt
validate_module rendered (some module_name) macro_name = do
  guard (not (is_blank module_name)) excel_blank_module
  guard (not ((rendered || not (contains_opening module_name)) && is_qualified module_name))
      excel_qualified_module
  guard (not ((rendered || not (contains_opening macro_name)) && is_qualified macro_name))
      excel_qualified_macro

unfoldable pub validate_excel_spec : ExcelMacroSpec → Bool → Result BlueprintError (Unit {0})
unfolding validate_module
validate_excel_spec excel rendered = do
  guard (not (is_blank excel.workbook_path || is_blank excel.macro_name)) excel_incomplete
  validate_module rendered excel.module_name excel.macro_name
  guard (leb (length excel.args) 30) excel_too_many_arguments
  guard (all is_scalar excel.args) excel_argument_kind

-- iter().map(f).collect::<Result<_>>()
unfoldable pub collect :
    {A B : Type 0} → (A → Result BlueprintError B) → List A → Result BlueprintError (List B)
collect f [] = ok []
collect f (x ∷ xs) = do y ← f x; ys ← collect f xs; ok (y ∷ ys)

-- map(f).transpose()
abbrev pub transpose :
    {A B : Type 0} → (A → Result BlueprintError B) → Option A → Result BlueprintError (Option B)
transpose f none = ok none
transpose f (some x) = do y ← f x; ok (some y)

abbrev pub render_entry : Value → Text × Text → Result BlueprintError (Text × Text)
render_entry parameters (key, value) = do text ← render_string value parameters; ok (key, text)

abbrev pub render_text : Value → Text → Result BlueprintError Text
render_text parameters template = render_string template parameters

abbrev pub render_argument : Value → Value → Result BlueprintError Value
render_argument parameters v = render_value v parameters

unfoldable pub render_command : CommandSpec → Value → Result BlueprintError CommandSpec
unfolding collect
render_command c parameters = do
  args ← collect (render_text parameters) c.args
  env ← collect (render_entry parameters) c.env
  working_directory ← transpose (render_text parameters) c.working_directory
  ok (record { program = c.program; args = args; env = env; working_directory = working_directory })

unfoldable pub render_excel : ExcelMacroSpec → Value → Result BlueprintError ExcelMacroSpec
unfolding collect
render_excel e parameters = do
  args ← collect (render_argument parameters) e.args
  guard (all is_scalar args) excel_resolved_argument
  workbook_path ← render_string e.workbook_path parameters
  module_name ← transpose (render_text parameters) e.module_name
  macro_name ← render_string e.macro_name parameters
  let rendered = record e {
    workbook_path = workbook_path;
    module_name = module_name;
    macro_name = macro_name;
    args = args;
  }
  validate_excel_spec rendered true >> ok rendered

unfoldable pub render_executor : ExecutorSpec → Value → Result BlueprintError ExecutorSpec
unfolding render_command render_excel
render_executor (command c) parameters = do
  rendered ← render_command c parameters
  ok (command rendered)
render_executor (excel_macro e) parameters = do
  rendered ← render_excel e parameters
  ok (excel_macro rendered)
