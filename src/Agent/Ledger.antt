-- ===== src/Agent/Ledger.antt =====
-- The table `assignments` of bins/agent/src/ledger.rs and its operations. A runner is one lifetime of the
-- agent process. An assignment's text is opaque: whether it can be read is a parameter.
use task_scheduler.Prelude.{
  ℕ, String, Bool, true, false, ◌&&◌, ◌||◌, not, Option, none, some, List, [], ◌∷◌, ◌++◌, ◌==◌, ltb,
  leb, str_eq, if◌then◌else◌, find, update, update_where, matched, keep, Result, ok, err,
}

pub data AssignmentState : Type 0 where
  accepted claimed running cancel_requested cancelled finished acknowledged quarantined :
      AssignmentState

pub record Assignment : Type 0 where
  pub attempt_id : ℕ
  pub lease_token : ℕ
  pub assignment_json : String
  pub state : AssignmentState
  pub runner_id : Option ℕ
  pub result_json : Option String
  pub updated_at : ℕ

pub data LedgerError : Type 0 where
  conflicting_duplicate not_eligible not_finished : LedgerError

abbrev pub assignment_key : Assignment → ℕ
assignment_key a = a.attempt_id

abbrev pub is_owner : ℕ → Option ℕ → Bool
is_owner runner none = false
is_owner runner (some r) = r == runner

abbrev pub is_accepted : AssignmentState → Bool
is_accepted AssignmentState.accepted = true
is_accepted _ = false

abbrev pub is_claimed : AssignmentState → Bool
is_claimed AssignmentState.claimed = true
is_claimed _ = false

abbrev pub is_running : AssignmentState → Bool
is_running AssignmentState.running = true
is_running _ = false

abbrev pub is_cancel_requested : AssignmentState → Bool
is_cancel_requested AssignmentState.cancel_requested = true
is_cancel_requested _ = false

abbrev pub is_finished : AssignmentState → Bool
is_finished AssignmentState.finished = true
is_finished _ = false

abbrev pub is_acknowledged : AssignmentState → Bool
is_acknowledged AssignmentState.acknowledged = true
is_acknowledged _ = false

-- state='accepted' OR (state IN ('claimed','running') AND (runner_id IS NULL OR runner_id<>?))
abbrev pub is_recoverable : ℕ → Assignment → Bool
is_recoverable runner a =
    is_accepted a.state
    || ((is_claimed a.state || is_running a.state) && not (is_owner runner a.runner_id))

abbrev pub new_assignment : ℕ → ℕ → String → ℕ → Assignment
new_assignment attempt_id lease_token json now = record {
  attempt_id = attempt_id;
  lease_token = lease_token;
  assignment_json = json;
  state = AssignmentState.accepted;
  runner_id = none;
  result_json = none;
  updated_at = now;
}

unfoldable pub record_assignment :
    ℕ → ℕ → String → ℕ → List Assignment → Result LedgerError (Bool × List Assignment)
record_assignment attempt_id lease_token json now rows =
    elim (find assignment_key attempt_id rows) [
      | none ↦ ok (true, rows ++ new_assignment attempt_id lease_token json now ∷ [])
      | some a ↦
          if not (a.lease_token == lease_token) || not (str_eq a.assignment_json json)
          then err conflicting_duplicate
          else ok (false, rows)
    ]

abbrev pub may_claim : ℕ → ℕ → String → Assignment → Bool
may_claim runner lease_token json a =
    a.lease_token == lease_token && (str_eq a.assignment_json json && is_recoverable runner a)

abbrev pub take : ℕ → ℕ → Assignment → Assignment
take runner now a = record a {
  state = AssignmentState.claimed;
  runner_id = some runner;
  updated_at = now;
}

unfoldable pub claim : ℕ → ℕ → ℕ → String → ℕ → List Assignment → Bool × List Assignment
claim runner attempt_id lease_token json now rows = (
  matched assignment_key attempt_id (may_claim runner lease_token json) rows,
  update_where assignment_key attempt_id (may_claim runner lease_token json) (take runner now) rows,
)

abbrev pub may_start : ℕ → Assignment → Bool
may_start runner a = is_claimed a.state && is_owner runner a.runner_id

abbrev pub begin : ℕ → Assignment → Assignment
begin now a = record a { state = AssignmentState.running; updated_at = now }

unfoldable pub start : ℕ → ℕ → ℕ → List Assignment → Bool × List Assignment
start runner attempt_id now rows = (
  matched assignment_key attempt_id (may_start runner) rows,
  update_where assignment_key attempt_id (may_start runner) (begin now) rows,
)

abbrev pub may_cancel : Assignment → Bool
may_cancel a = is_accepted a.state || (is_claimed a.state || is_running a.state)

abbrev pub stop : ℕ → Assignment → Assignment
stop now a = record a {
  state =
      if is_running a.state then AssignmentState.cancel_requested else AssignmentState.cancelled;
  updated_at = now;
}

unfoldable pub cancel : ℕ → ℕ → List Assignment → Bool × List Assignment
cancel attempt_id now rows = (
  matched assignment_key attempt_id may_cancel rows,
  update_where assignment_key attempt_id may_cancel (stop now) rows,
)

abbrev pub may_finish : ℕ → Assignment → Bool
may_finish runner a =
    is_owner runner a.runner_id && (is_running a.state || is_cancel_requested a.state)

abbrev pub finish : String → ℕ → Assignment → Assignment
finish json now a = record a {
  state = AssignmentState.finished;
  result_json = some json;
  updated_at = now;
}

abbrev pub has_result : String → Option String → Bool
has_result json none = false
has_result json (some r) = str_eq r json

-- The row that makes a repeated `save_result` succeed.
abbrev pub is_saved : ℕ → String → Assignment → Bool
is_saved runner json a =
    is_owner runner a.runner_id && (is_finished a.state && has_result json a.result_json)

unfoldable pub save_result :
    ℕ → ℕ → String → ℕ → List Assignment → Result LedgerError (List Assignment)
save_result runner attempt_id json now rows =
    if matched assignment_key attempt_id (may_finish runner) rows
    then ok (update_where assignment_key attempt_id (may_finish runner) (finish json now) rows)
    else if matched assignment_key attempt_id (is_saved runner json) rows
    then ok rows
    else err not_eligible

abbrev pub has_some : Option String → Bool
has_some none = false
has_some (some r) = true

abbrev pub may_acknowledge : Assignment → Bool
may_acknowledge a = is_finished a.state && has_some a.result_json

unfoldable pub acknowledge : ℕ → ℕ → List Assignment → Result LedgerError (List Assignment)
acknowledge attempt_id now rows =
    if matched assignment_key attempt_id may_acknowledge rows
    then ok (
        update_where assignment_key attempt_id may_acknowledge
          (λ a. record a { state = AssignmentState.acknowledged; updated_at = now }) rows)
    else if matched assignment_key attempt_id (λ a. is_acknowledged a.state) rows
    then ok rows
    else err not_finished

unfoldable pub pending_results : List Assignment → List Assignment
pending_results rows = keep may_acknowledge rows

-- ORDER BY updated_at,attempt_id
abbrev pub comes_before : Assignment → Assignment → Bool
comes_before a b =
    ltb a.updated_at b.updated_at || (a.updated_at == b.updated_at && leb a.attempt_id b.attempt_id)

unfoldable pub insert_by_age : Assignment → List Assignment → List Assignment
insert_by_age a [] = a ∷ []
insert_by_age a (b ∷ rows) = if comes_before a b then a ∷ b ∷ rows else b ∷ insert_by_age a rows

unfoldable pub sort_by_age : List Assignment → List Assignment
unfolding insert_by_age
sort_by_age [] = []
sort_by_age (a ∷ rows) = insert_by_age a (sort_by_age rows)

module _ (readable : String → Bool) where
  -- The loop over the selected rows: an unreadable one is set aside.
  unfoldable pub recover_loop :
      List Assignment → ℕ → List Assignment → List String × List Assignment
  recover_loop [] now rows = ([], rows)
  recover_loop (a ∷ selected) now rows =
      if readable a.assignment_json
      then (let (found, left) = recover_loop selected now rows in (a.assignment_json ∷ found, left))
      else recover_loop selected now (
          update assignment_key a.attempt_id
            (λ x. record x { state = AssignmentState.quarantined; updated_at = now }) rows)

  unfoldable pub recoverable_assignments : ℕ → ℕ → List Assignment → List String × List Assignment
  unfolding recover_loop sort_by_age
  recoverable_assignments runner now rows =
      recover_loop (sort_by_age (keep (is_recoverable runner) rows)) now rows
