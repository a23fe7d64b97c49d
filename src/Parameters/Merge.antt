-- ===== src/Parameters/Merge.antt =====
-- `merge_parameters` and `deep_merge` of blueprint.rs: overrides laid over base parameters.
use task_scheduler.Prelude.{
  subst, ◌≡◌, refl, Bool, true, false, ◌&&◌, Option, none, some, arith, if◌then◌else◌, Result, ok,
  ◌>>◌, guard, Option-cases, Bool-cases, inl, inr,
}
use task_scheduler.Parameters.Text.{same_text→eq, Text, same_text, same_text_iff}
use task_scheduler.Parameters.Json.{
  Value, Fields, object, end, field, get_field, insert_field, is_object,
}
use task_scheduler.Parameters.Templates.{BlueprintError, not_an_object}

unfoldable mutual
  pub deep_merge : Value → Value → Value
  deep_merge (object target) (object patch) = object (merge_fields target patch)
  deep_merge target patch = patch

  -- The loop over the fields of the patch.
  pub merge_fields : Fields → Fields → Fields
  merge_fields target end = target
  merge_fields target (field key value patch) =
      let merged : Value = elim (get_field key target) [
        | none ↦ value
        | some existing ↦ deep_merge existing value
      ] in
      merge_fields (insert_field key merged target) patch

unfoldable pub merge_parameters : Value → Value → Result BlueprintError Value
merge_parameters base overrides =
    guard (is_object base && is_object overrides) not_an_object >> ok (deep_merge base overrides)

-- The keys of an object are distinct, as in a `serde_json::Map`.
abbrev lacks : Text → Fields → Bool
lacks key fs = elim (get_field key fs) [ none ↦ true | some _ ↦ false ]

unfoldable mutual
  pub is_map : Value → Bool
  is_map (object fs) = are_maps fs
  is_map _ = true

  pub are_maps : Fields → Bool
  are_maps end = true
  are_maps (field key v fs) = is_map v && (lacks key fs && are_maps fs)

pub get-insert :
    (j k : Text) (v : Value) (fs : Fields)
    → get_field j (insert_field k v fs) ≡ (if same_text k j then some v else get_field j fs)
unfolding get_field insert_field
get-insert j k v end = refl
get-insert j k v (field i w fs) =
    ground (arith, same_text_iff i k, same_text_iff i j, same_text_iff k j, get-insert j k v fs)

-- One field of the merged object.
abbrev pub merge_value : Option Value → Value → Value
merge_value none value = value
merge_value (some existing) value = deep_merge existing value

abbrev pub merged : Option Value → Option Value → Option Value
merged existing none = existing
merged existing (some v) = some (merge_value existing v)

merge_round :
    (key : Text) (v : Value) (target patch : Fields)
    → merge_fields target (field key v patch)
      ≡ merge_fields (insert_field key (merge_value (get_field key target) v) target) patch
unfolding merge_fields
merge_round key v target patch = elim (Option-cases (get_field key target)) [
  | inl e ↦ rw (merge_fields, e) refl
  | inr (existing, e) ↦ rw (merge_fields, e) refl
]

lacks→none : (key : Text) (fs : Fields) → lacks key fs ≡ true → get_field key fs ≡ none
lacks→none key fs h = ground (arith, h)

and_both : (a b : Bool) → (a && b) ≡ true → (a ≡ true) × (b ≡ true)
and_both true b h = (refl, h)
and_both false b h = cc

are_maps_parts :
    (k : Text) (v : Value) (fs : Fields)
    → are_maps (field k v fs) ≡ true
    → (is_map v ≡ true) × (get_field k fs ≡ none) × (are_maps fs ≡ true)
unfolding are_maps
are_maps_parts k v fs h =
    let (a, b) = and_both (is_map v) (lacks k fs && are_maps fs) h in
    let (c, d) = and_both (lacks k fs) (are_maps fs) b in (a, lacks→none k fs c, d)

pub get-merge :
    (key : Text) (target patch : Fields)
    → are_maps patch ≡ true
    → get_field key (merge_fields target patch)
      ≡ merged (get_field key target) (get_field key patch)
unfolding merge_fields get_field
get-merge key target end h = refl
get-merge key target (field k v patch) h =
    let next = insert_field k (merge_value (get_field k target) v) target in
    let (_, absent, rest) = are_maps_parts k v patch h in
    let read = get-insert key k (merge_value (get_field k target) v) target in
    let later = get-merge key next patch rest in
    elim (Bool-cases (same_text k key)) [
      | inl same ↦
          let e = same_text→eq k key same in
          rw (merge_round k v target patch, later, read, same)
            (subst
              (λ x.
                merged (some (merge_value (get_field k target) v)) (get_field x patch)
                ≡ some (merge_value (get_field x target) v))
              e (rw absent refl))
      | inr other ↦ rw (merge_round k v target patch, later, read, other) refl
    ]

pub is_map-field :
    (key : Text) (fs : Fields) (v : Value)
    → are_maps fs ≡ true
    → get_field key fs ≡ some v
    → is_map v ≡ true
unfolding get_field
is_map-field key end v h found = cc
is_map-field key (field k w fs) v h found =
    let (here, _, rest) = are_maps_parts k w fs h in
    elim (Bool-cases (same_text k key)) [
      | inl same ↦ subst (λ x. is_map x ≡ true) (some_value (rw same at found)) here
      | inr other ↦ is_map-field key fs v rest (rw other at found)
    ]
  where
    some_value : {a b : Value} → some a ≡ some b → a ≡ b
    some_value e = cc
