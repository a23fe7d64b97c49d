-- ===== src/Examples/Collections.antt =====
-- A collection read from a connector, and the texts of states.
use task_scheduler.Prelude.{◌≡◌, ◌↔◌, some}
use task_scheduler.Runs.Tables.{BatchState, BatchItemState}
use task_scheduler.Collections.States.{
  batch_state_as_str, parse_batch_state, item_state_as_str, parse_item_state, state_texts_iff,
}

state_texts_iff_example :
    ((parse_batch_state "completed_with_errors" ≡ some BatchState.completed_with_errors)
      ↔ ("completed_with_errors" ≡ batch_state_as_str BatchState.completed_with_errors))
    × ((parse_item_state "completed_with_errors" ≡ some BatchItemState.held)
        ↔ ("completed_with_errors" ≡ item_state_as_str BatchItemState.held))
state_texts_iff_example =
    state_texts_iff "completed_with_errors" BatchState.completed_with_errors BatchItemState.held
