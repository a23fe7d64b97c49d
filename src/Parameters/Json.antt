-- ===== src/Parameters/Json.antt =====
-- `serde_json::Value`. A number is its decimal text. The order of an object's fields is not observed
-- by the modelled code.
use task_scheduler.Prelude.{Bool, true, false, Option, none, some, if◌then◌else◌}
use task_scheduler.Parameters.Text.{Text, same_text}

mutual
  pub data Value : Type 0 where
    null : Value
    bool : (b : Bool) → Value
    number : (decimal : Text) → Value
    string : (text : Text) → Value
    array : Values → Value
    object : Fields → Value

  pub data Values : Type 0 where
    nil : Values
    cons : Value → Values → Values

  pub data Fields : Type 0 where
    end : Fields
    field : Text → Value → Fields → Fields

-- Map::get
unfoldable pub get_field : Text → Fields → Option Value
get_field key end = none
get_field key (field k v fs) = if same_text k key then some v else get_field key fs

-- Value::get with a key
abbrev pub get : Text → Value → Option Value
get key (object fs) = get_field key fs
get key _ = none

-- Map::insert, and the replacement through `get_mut`
unfoldable pub insert_field : Text → Value → Fields → Fields
insert_field key v end = field key v end
insert_field key v (field k w fs) =
    if same_text k key then field k v fs else field k w (insert_field key v fs)

abbrev pub is_object : Value → Bool
is_object (object fs) = true
is_object _ = false

-- Null, Bool, Number or String
abbrev pub is_scalar : Value → Bool
is_scalar (array vs) = false
is_scalar (object fs) = false
is_scalar _ = true
