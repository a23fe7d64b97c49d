-- ===== src/Parameters/Overrides.antt =====
-- What a path of the merged parameters leads to.
use task_scheduler.Prelude.{
  ◌≡◌, refl, sym, ◌∙◌, ap, Bool, true, false, ◌&&◌, Option, none, some, List, [], ◌∷◌, ok, ok_value,
  guard, >>=-eq-ok, Option-cases, inl, inr,
}
use task_scheduler.Parameters.Text.{Text}
use task_scheduler.Parameters.Json.{
  Value, null, bool, number, string, array, object, get, get_field, is_object,
}
use task_scheduler.Parameters.Templates.{not_an_object, walk}
use task_scheduler.Parameters.Merge.{
  deep_merge, merged, merge_parameters, is_map, get-merge, is_map-field,
}

-- Does an override reach the end of the path, or replace something on the way?
unfoldable pub touches : List Text → Value → Bool
touches [] v = true
touches (key ∷ path) (object fs) = elim (get_field key fs) [
  | none ↦ false
  | some v ↦ touches path v
]
touches (key ∷ path) v = true

some_value : {a b : Value} → some a ≡ some b → a ≡ b
some_value e = cc

some-none : {a : Value} → ¬ (◌≡◌ {A = Option Value} (some a) none)
some-none e = cc

-- A value that is not an object replaces what it is laid over.
replaced : (target v : Value) → is_object v ≡ false → deep_merge target v ≡ v
unfolding deep_merge
replaced (object t) (object p) h = cc
replaced null v h = refl
replaced (bool b) v h = refl
replaced (number d) v h = refl
replaced (string s) v h = refl
replaced (array a) v h = refl
replaced (object t) null h = refl
replaced (object t) (bool b) h = refl
replaced (object t) (number d) h = refl
replaced (object t) (string s) h = refl
replaced (object t) (array a) h = refl

merged-none : (o : Option Value) → merged none o ≡ o
merged-none none = refl
merged-none (some v) = refl

-- A field of the merged value, whatever the target is.
get-deep_merge :
    (key : Text) (target patch : Value)
    → is_object patch ≡ true
    → is_map patch ≡ true
    → get key (deep_merge target patch) ≡ merged (get key target) (get key patch)
unfolding deep_merge is_map
get-deep_merge key (object t) (object p) o h = get-merge key t p h
get-deep_merge key null (object p) o h = sym (merged-none (get_field key p))
get-deep_merge key (bool b) (object p) o h = sym (merged-none (get_field key p))
get-deep_merge key (number d) (object p) o h = sym (merged-none (get_field key p))
get-deep_merge key (string s) (object p) o h = sym (merged-none (get_field key p))
get-deep_merge key (array a) (object p) o h = sym (merged-none (get_field key p))
get-deep_merge key target null o h = cc
get-deep_merge key target (bool b) o h = cc
get-deep_merge key target (number d) o h = cc
get-deep_merge key target (string s) o h = cc
get-deep_merge key target (array a) o h = cc

field_of_object : (key : Text) (v w : Value) → get key v ≡ some w → is_object v ≡ true
field_of_object key (object fs) w e = refl
field_of_object key null w e = cc
field_of_object key (bool b) w e = cc
field_of_object key (number d) w e = cc
field_of_object key (string s) w e = cc
field_of_object key (array a) w e = cc

map_below : (key : Text) (v w : Value) → is_map v ≡ true → get key v ≡ some w → is_map w ≡ true
unfolding is_map
map_below key (object fs) w h e = is_map-field key fs w h e
map_below key null w h e = cc
map_below key (bool b) w h e = cc
map_below key (number d) w h e = cc
map_below key (string s) w h e = cc
map_below key (array a) w h e = cc

not_reached :
    (key : Text) (path : List Text) (v : Value) → get key v ≡ none → walk (key ∷ path) v ≡ none
unfolding walk
not_reached key path v e = rw (walk, e) refl

reached :
    (key : Text) (path : List Text) (v w : Value)
    → get key v ≡ some w
    → walk (key ∷ path) v ≡ walk path w
unfolding walk
reached key path v w e = rw (walk, e) refl

overriding :
    (path : List Text) (target patch v : Value)
    → is_map patch ≡ true
    → walk path patch ≡ some v
    → is_object v ≡ false
    → walk path (deep_merge target patch) ≡ some v
unfolding walk
overriding [] target patch v h e leaf =
    let same : patch ≡ v = some_value e in rw same (ap some (replaced target v leaf))
overriding (key ∷ path) target patch v h e leaf = elim (Option-cases (get key patch)) [
  | inl missing ↦ absurd (some-none (sym e ∙ not_reached key path patch missing))
  | inr (w, found) ↦
      let below = map_below key patch w h found in
      let here = sym (reached key path patch w found) ∙ e in
      let read = get-deep_merge key target patch (field_of_object key patch w found) h in
      elim (Option-cases (get key target)) [
        | inl none_there ↦
            reached key path (deep_merge target patch) w (read ∙ (rw (none_there, found) refl))
            ∙ here
        | inr (x, there) ↦
            reached key path (deep_merge target patch) (deep_merge x w)
              (read ∙ (rw (there, found) refl))
            ∙ overriding path x w v below here leaf
      ]
]

touches_object :
    (key : Text) (path : List Text) (v : Value)
    → touches (key ∷ path) v ≡ false
    → is_object v ≡ true
unfolding touches
touches_object key path (object fs) h = refl
touches_object key path null h = cc
touches_object key path (bool b) h = cc
touches_object key path (number d) h = cc
touches_object key path (string s) h = cc
touches_object key path (array a) h = cc

touches_below :
    (key : Text) (path : List Text) (v w : Value)
    → touches (key ∷ path) v ≡ false
    → get key v ≡ some w
    → touches path w ≡ false
unfolding touches
touches_below key path (object fs) w h e = rw (touches, e) at h
touches_below key path null w h e = cc
touches_below key path (bool b) w h e = cc
touches_below key path (number d) w h e = cc
touches_below key path (string s) w h e = cc
touches_below key path (array a) w h e = cc

untouched_none : (path : List Text) (v : Value) → touches path v ≡ false → walk path v ≡ none
untouched_none [] v h = absurd (unfold touches in cc)
untouched_none (key ∷ path) v h = elim (Option-cases (get key v)) [
  | inl missing ↦ not_reached key path v missing
  | inr (w, found) ↦
      reached key path v w found ∙ untouched_none path w (touches_below key path v w h found)
]

keeping :
    (path : List Text) (target patch : Value)
    → is_map patch ≡ true
    → touches path patch ≡ false
    → walk path (deep_merge target patch) ≡ walk path target
keeping [] target patch h free = absurd (unfold touches in cc)
keeping (key ∷ path) target patch h free =
    let read = get-deep_merge key target patch (touches_object key path patch free) h in
    let result = deep_merge target patch in
    elim (Option-cases (get key patch)) [
      | inl missing ↦ elim (Option-cases (get key target)) [
        | inl none_there ↦
            not_reached key path result (read ∙ (rw (none_there, missing) refl))
            ∙ sym (not_reached key path target none_there)
        | inr (x, there) ↦
            reached key path result x (read ∙ (rw (there, missing) refl))
            ∙ sym (reached key path target x there)
      ]
      | inr (w, found) ↦
          let below = touches_below key path patch w free found in
          elim (Option-cases (get key target)) [
            | inl none_there ↦
                reached key path result w (read ∙ (rw (none_there, found) refl))
                ∙ untouched_none path w below
                ∙ sym (not_reached key path target none_there)
            | inr (x, there) ↦
                reached key path result (deep_merge x w) (read ∙ (rw (there, found) refl))
                ∙ keeping path x w (map_below key patch w h found) below
                ∙ sym (reached key path target x there)
          ]
    ]

-- Merging overrides into base parameters gives, at each path, the override where there is one and
-- the base value elsewhere: a path that leads to a value other than an object in the overrides
-- leads to the same value in the result, and a path that the overrides neither reach nor cut off
-- leads to what it leads to in the base. The keys of each object of the overrides are distinct.
pub merge_parameters_lookup :
    (base overrides result : Value) (path : List Text)
    → is_map overrides ≡ true
    → merge_parameters base overrides ≡ ok result
    → ((v : Value) → walk path overrides ≡ some v → is_object v ≡ false → walk path result ≡ some v)
      × (touches path overrides ≡ false → walk path result ≡ walk path base)
unfolding merge_parameters
merge_parameters_lookup base overrides result path h e =
    let (_, _, k) = >>=-eq-ok (guard (is_object base && is_object overrides) not_an_object) _ e in
    let same : deep_merge base overrides ≡ result = ok_value k in
    rw (← same) (λ v. overriding path base overrides v h, keeping path base overrides h)
