-- ===== src/Parameters/Redaction.antt =====
-- `sensitive_parameter_paths` of blueprint.rs: the JSON pointers that the management interface hides.
-- The list is sorted and without repetitions.
use task_scheduler.Prelude.{
  subst, ℕ, ◌+◌, ◌≡◌, refl, Bool, true, false, ◌&&◌, ◌||◌, Option, none, some, List, [], ◌∷◌, ◌++◌,
  arith, ◌==◌, ltb, leb, if◌then◌else◌, any, keep, map, any-append, Bool-cases, inl, inr,
}
use task_scheduler.Domain.AgentId.{codes, is_ascii_alphanumeric}
use task_scheduler.Parameters.Text.{
  same_text_iff, Text, same_text, same_text_refl, same_text→eq, cut,
}
use task_scheduler.Parameters.Json.{Value, Fields, bool, string, object, end, field, get}
use task_scheduler.Parameters.Bindings.{ParameterBinding, Bindings, get_binding}

-- replace('~', "~0").replace('/', "~1")
abbrev escape_with : ℕ → Text → Text → Text
escape_with c code [] = []
escape_with c code (b ∷ s) =
    if b == c then code ++ escape_with c code s else b ∷ escape_with c code s

abbrev pub escape_pointer_segment : Text → Text
escape_pointer_segment s = escape_with b'/' (codes "~1") (escape_with b'~' (codes "~0") s)

-- char::to_lowercase of an ASCII letter or digit
abbrev to_lowercase : ℕ → ℕ
to_lowercase c = if leb b'A' c && leb c b'Z' then c + 32 else c

abbrev contains : Text → Text → Bool
contains s pattern = elim (cut pattern s) [ none ↦ false | some _ ↦ true ]

abbrev markers : List Text
markers =
    codes "password"
    ∷ codes "passwd"
    ∷ codes "passphrase"
    ∷ codes "secret"
    ∷ codes "token"
    ∷ codes "credential"
    ∷ codes "apikey"
    ∷ codes "accesskey"
    ∷ codes "privatekey"
    ∷ []

abbrev sensitive_name : Text → Bool
sensitive_name name = any (contains (map to_lowercase (keep is_ascii_alphanumeric name))) markers

abbrev is_true : Option Value → Bool
is_true (some (bool true)) = true
is_true _ = false

abbrev is_secret_format : Option Value → Bool
is_secret_format (some (string s)) = same_text s (codes "password") || same_text s (codes "secret")
is_secret_format _ = false

abbrev is_annotated : Value → Bool
is_annotated schema =
    is_true (get (codes "writeOnly") schema)
    || (is_true (get (codes "x-sensitive") schema)
        || is_secret_format (get (codes "format") schema))

abbrev option_name : Option Text → Bool
option_name none = false
option_name (some name) = sensitive_name name

abbrev if_not_root : Text → List Text
if_not_root [] = []
if_not_root (c ∷ path) = (c ∷ path) ∷ []

unfoldable mutual
  pub collect : Value → Text → Option Text → List Text
  collect (object fs) path name =
      let below = collect_properties fs path in
      if is_annotated (object fs) || option_name name then if_not_root path else below
  collect schema path name =
      if is_annotated schema || option_name name then if_not_root path else []

  -- schema.get("properties").and_then(as_object)
  pub collect_properties : Fields → Text → List Text
  collect_properties end path = []
  collect_properties (field k v fs) path =
      let here = collect_object v path in
      let later = collect_properties fs path in
      if same_text k (codes "properties") then here else later

  pub collect_object : Value → Text → List Text
  collect_object (object fs) path = collect_fields fs path
  collect_object v path = []

  pub collect_fields : Fields → Text → List Text
  collect_fields end path = []
  collect_fields (field k v fs) path =
      collect v (path ++ (b'/' ∷ escape_pointer_segment k)) (some k) ++ collect_fields fs path

-- The pointers of the sensitive bindings.
abbrev binding_paths : Bindings → List Text
binding_paths [] = []
binding_paths ((name, b) ∷ bindings) =
    if b.sensitive
    then (b'/' ∷ escape_pointer_segment name) ∷ binding_paths bindings
    else binding_paths bindings

-- The order of texts.
unfoldable pub precedes : Text → Text → Bool
precedes [] [] = false
precedes [] (b ∷ t) = true
precedes (a ∷ s) [] = false
precedes (a ∷ s) (b ∷ t) = ltb a b || (a == b && precedes s t)

-- sort() and dedup(), one element at a time
unfoldable pub insert_path : Text → List Text → List Text
insert_path p [] = p ∷ []
insert_path p (q ∷ paths) =
    if same_text p q
    then q ∷ paths
    else if precedes p q
    then p ∷ q ∷ paths
    else q ∷ insert_path p paths

unfoldable pub sort_paths : List Text → List Text
sort_paths [] = []
sort_paths (p ∷ paths) = insert_path p (sort_paths paths)

unfoldable pub sensitive_parameter_paths : Value → Bindings → List Text
unfolding sort_paths collect
sensitive_parameter_paths schema bindings =
    sort_paths (collect schema [] none ++ binding_paths bindings)

-- Is the pointer in the list?
abbrev pub listed : Text → List Text → Bool
listed p paths = any (λ q. same_text q p) paths

listed-insert :
    (p q : Text) (paths : List Text)
    → (same_text q p || listed p paths) ≡ true
    → listed p (insert_path q paths) ≡ true
unfolding insert_path
listed-insert p q [] h = h
listed-insert p q (r ∷ paths) h =
    ground (arith, same_text_iff q r, same_text_iff q p, same_text_iff r p, listed-insert p q paths)

listed-sort :
    (p : Text) (paths : List Text) → listed p paths ≡ true → listed p (sort_paths paths) ≡ true
unfolding sort_paths
listed-sort p [] h = h
listed-sort p (q ∷ paths) h =
    listed-insert p q (sort_paths paths) (ground (arith, listed-sort p paths))

listed_head : (p : Text) (paths : List Text) → listed p (p ∷ paths) ≡ true
listed_head p paths = rw (same_text_refl p) refl

listed_more :
    (p q : Text) (b : Bool) (paths : List Text)
    → listed p paths ≡ true
    → listed p (if b then q ∷ paths else paths) ≡ true
listed_more p q b paths h = ground arith

listed-bindings :
    (bindings : Bindings) (name : Text) (b : ParameterBinding)
    → get_binding name bindings ≡ some b
    → b.sensitive ≡ true
    → listed (b'/' ∷ escape_pointer_segment name) (binding_paths bindings) ≡ true
unfolding get_binding
listed-bindings [] name b h s = cc
listed-bindings ((k, c) ∷ bindings) name b h s = elim (Bool-cases (same_text k name)) [
  | inl same ↦
      let here : c.sensitive ≡ true = ground (arith, h, same, s) in
      subst
        (λ x. listed (b'/' ∷ escape_pointer_segment x) (binding_paths ((k, c) ∷ bindings)) ≡ true)
        (same_text→eq k name same)
        (rw here (listed_head (b'/' ∷ escape_pointer_segment k) (binding_paths bindings)))
  | inr other ↦
      listed_more (b'/' ∷ escape_pointer_segment name) (b'/' ∷ escape_pointer_segment k) c.sensitive
        (binding_paths bindings) (listed-bindings bindings name b (rw other at h) s)
]

-- The pointer to each sensitive binding is among the paths to hide, whatever the schema says.
pub sensitive_binding_listed :
    (schema : Value) (bindings : Bindings) (name : Text) (b : ParameterBinding)
    → get_binding name bindings ≡ some b
    → b.sensitive ≡ true
    → listed (b'/' ∷ escape_pointer_segment name) (sensitive_parameter_paths schema bindings) ≡ true
unfolding sensitive_parameter_paths
sensitive_binding_listed schema bindings name b h s =
    let p = b'/' ∷ escape_pointer_segment name in
    listed-sort p (collect schema [] none ++ binding_paths bindings) (
      ground (
        arith,
        any-append (λ q. same_text q p) (collect schema [] none) (binding_paths bindings),
        listed-bindings bindings name b h s,
      ))
