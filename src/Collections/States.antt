-- ===== src/Collections/States.antt =====
-- The texts of `BatchState` and `BatchItemState`, and their parsers.
use task_scheduler.Prelude.{
  Bool-cases, inl, inr, ap, ◌∙◌, String, ◌≡◌, ◌↔◌, refl, sym, subst, Option, none, some, str_eq,
  eq_iff, if◌then◌else◌,
}
use task_scheduler.Runs.Tables.{BatchState, BatchItemState}

-- BatchState::as_str
unfoldable pub batch_state_as_str : BatchState → String
batch_state_as_str BatchState.scheduled = "scheduled"
batch_state_as_str BatchState.collecting = "collecting"
batch_state_as_str BatchState.running = "running"
batch_state_as_str BatchState.succeeded = "succeeded"
batch_state_as_str BatchState.completed_with_errors = "completed_with_errors"
batch_state_as_str BatchState.failed = "failed"
batch_state_as_str BatchState.cancelled = "cancelled"

-- BatchState::parse
unfoldable pub parse_batch_state : String → Option BatchState
parse_batch_state value =
    if str_eq value "scheduled"
    then some BatchState.scheduled
    else if str_eq value "collecting"
    then some BatchState.collecting
    else if str_eq value "running"
    then some BatchState.running
    else if str_eq value "succeeded"
    then some BatchState.succeeded
    else if str_eq value "completed_with_errors"
    then some BatchState.completed_with_errors
    else if str_eq value "failed"
    then some BatchState.failed
    else if str_eq value "cancelled"
    then some BatchState.cancelled
    else none

-- BatchItemState::as_str
unfoldable pub item_state_as_str : BatchItemState → String
item_state_as_str BatchItemState.ready = "ready"
item_state_as_str BatchItemState.queued = "queued"
item_state_as_str BatchItemState.running = "running"
item_state_as_str BatchItemState.succeeded = "succeeded"
item_state_as_str BatchItemState.failed = "failed"
item_state_as_str BatchItemState.cancelled = "cancelled"
item_state_as_str BatchItemState.invalid = "invalid"
item_state_as_str BatchItemState.suspected_poison = "suspected_poison"
item_state_as_str BatchItemState.poisoned = "poisoned"
item_state_as_str BatchItemState.held = "held"

-- BatchItemState::parse
unfoldable pub parse_item_state : String → Option BatchItemState
parse_item_state value =
    if str_eq value "ready"
    then some BatchItemState.ready
    else if str_eq value "queued"
    then some BatchItemState.queued
    else if str_eq value "running"
    then some BatchItemState.running
    else if str_eq value "succeeded"
    then some BatchItemState.succeeded
    else if str_eq value "failed"
    then some BatchItemState.failed
    else if str_eq value "cancelled"
    then some BatchItemState.cancelled
    else if str_eq value "invalid"
    then some BatchItemState.invalid
    else if str_eq value "suspected_poison"
    then some BatchItemState.suspected_poison
    else if str_eq value "poisoned"
    then some BatchItemState.poisoned
    else if str_eq value "held"
    then some BatchItemState.held
    else none

batch-parse-as_str : (s : BatchState) → parse_batch_state (batch_state_as_str s) ≡ some s
unfolding parse_batch_state batch_state_as_str
batch-parse-as_str BatchState.scheduled = refl
batch-parse-as_str BatchState.collecting = refl
batch-parse-as_str BatchState.running = refl
batch-parse-as_str BatchState.succeeded = refl
batch-parse-as_str BatchState.completed_with_errors = refl
batch-parse-as_str BatchState.failed = refl
batch-parse-as_str BatchState.cancelled = refl

item-parse-as_str : (s : BatchItemState) → parse_item_state (item_state_as_str s) ≡ some s
unfolding parse_item_state item_state_as_str
item-parse-as_str BatchItemState.ready = refl
item-parse-as_str BatchItemState.queued = refl
item-parse-as_str BatchItemState.running = refl
item-parse-as_str BatchItemState.succeeded = refl
item-parse-as_str BatchItemState.failed = refl
item-parse-as_str BatchItemState.cancelled = refl
item-parse-as_str BatchItemState.invalid = refl
item-parse-as_str BatchItemState.suspected_poison = refl
item-parse-as_str BatchItemState.poisoned = refl
item-parse-as_str BatchItemState.held = refl

-- One alternative of a parser: a state that it gives is written as the text that it tests.
reads_one :
    {S : Type 0} (as_str : S → String) (v t : String) (a s : S) (rest : Option S)
    → as_str a ≡ t
    → (rest ≡ some s → v ≡ as_str s)
    → (if str_eq v t then some a else rest) ≡ some s
    → v ≡ as_str s
reads_one {S} as_str v t a s rest e later h = elim (Bool-cases (str_eq v t)) [
  | inl same ↦ (eq_iff v t).0 same ∙ sym e ∙ ap as_str (some_value (rw same at h))
  | inr other ↦ later (rw other at h)
]
  where
    some_value : {x y : S} → some x ≡ some y → x ≡ y
    some_value k = cc

nothing : {S : Type 0} {s : S} → ¬ (none ≡ some s)
nothing h = cc

batch_text : (v : String) (s : BatchState) → parse_batch_state v ≡ some s → v ≡ batch_state_as_str s
unfolding parse_batch_state batch_state_as_str
batch_text v s h =
    reads_one batch_state_as_str v "scheduled" BatchState.scheduled s _ refl
      (λ h.
        reads_one batch_state_as_str v "collecting" BatchState.collecting s _ refl
          (λ h.
            reads_one batch_state_as_str v "running" BatchState.running s _ refl
              (λ h.
                reads_one batch_state_as_str v "succeeded" BatchState.succeeded s _ refl
                  (λ h.
                    reads_one batch_state_as_str v "completed_with_errors"
                      BatchState.completed_with_errors s _ refl
                      (λ h.
                        reads_one batch_state_as_str v "failed" BatchState.failed s _ refl
                          (λ h.
                            reads_one batch_state_as_str v "cancelled" BatchState.cancelled s _ refl
                              (λ h. absurd (nothing h)) h)
                          h)
                      h)
                  h)
              h)
          h)
      h

item_text :
    (v : String) (s : BatchItemState) → parse_item_state v ≡ some s → v ≡ item_state_as_str s
unfolding parse_item_state item_state_as_str
item_text v s h =
    reads_one item_state_as_str v "ready" BatchItemState.ready s _ refl
      (λ h.
        reads_one item_state_as_str v "queued" BatchItemState.queued s _ refl
          (λ h.
            reads_one item_state_as_str v "running" BatchItemState.running s _ refl
              (λ h.
                reads_one item_state_as_str v "succeeded" BatchItemState.succeeded s _ refl
                  (λ h.
                    reads_one item_state_as_str v "failed" BatchItemState.failed s _ refl
                      (λ h.
                        reads_one item_state_as_str v "cancelled" BatchItemState.cancelled s _ refl
                          (λ h.
                            reads_one item_state_as_str v "invalid" BatchItemState.invalid s _ refl
                              (λ h.
                                reads_one item_state_as_str v "suspected_poison"
                                  BatchItemState.suspected_poison s _ refl
                                  (λ h.
                                    reads_one item_state_as_str v "poisoned" BatchItemState.poisoned
                                      s _ refl
                                      (λ h.
                                        reads_one item_state_as_str v "held" BatchItemState.held s _
                                          refl (λ h. absurd (nothing h)) h)
                                      h)
                                  h)
                              h)
                          h)
                      h)
                  h)
              h)
          h)
      h

-- The texts of batches and of items are read as a state exactly if they are what that state is
-- written as: what the store writes it reads back, and every other text is refused.
pub state_texts_iff :
    (v : String) (s : BatchState) (i : BatchItemState)
    → ((parse_batch_state v ≡ some s) ↔ (v ≡ batch_state_as_str s))
      × ((parse_item_state v ≡ some i) ↔ (v ≡ item_state_as_str i))
state_texts_iff v s i = (
  (batch_text v s, λ e. subst (λ x. parse_batch_state x ≡ some s) (sym e) (batch-parse-as_str s)),
  (item_text v i, λ e. subst (λ x. parse_item_state x ≡ some i) (sym e) (item-parse-as_str i)),
)
