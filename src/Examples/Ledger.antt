-- ===== src/Examples/Ledger.antt =====
-- An assignment on an agent: recorded, claimed, started, finished.
use task_scheduler.Prelude.{
  ◌≡◌, refl, true, false, List, [], ◌∷◌, find, matched, update, update_where, ok, err,
}
use task_scheduler.Agent.Ledger.{
  Assignment, new_assignment, take, begin, stop, finish, claim, start, cancel, save_result,
  may_acknowledge, assignment_key, not_eligible,
}
use task_scheduler.Agent.Ownership.{result_kept}
use task_scheduler.Agent.Runner.{Calls, none_yet, and_then, cancelling, run_once}

abbrev recorded : Assignment
recorded = new_assignment 20 77 "task" 10

abbrev running_row : Assignment
running_row = begin 12 (take 1 11 recorded)

claim_test : (claim 1 20 77 "task" 11 (recorded ∷ [])).0 ≡ true
unfolding claim matched find
claim_test = refl

-- After the start the assignment is cancelled.
abbrev cancelled_rows : List Assignment
cancelled_rows = stop 13 running_row ∷ []

cancel_call : Calls 1 (start 1 20 12 (claim 1 20 77 "task" 11 (recorded ∷ [])).1).1 cancelled_rows
unfolding claim start cancel update_where update
cancel_call = and_then none_yet (cancelling 20 13 refl)

run_once_example :
    let claimed = (claim 1 20 77 "task" 11 (recorded ∷ [])).1 in
    ((claim 1 20 77 "task" 14 claimed).0 ≡ false)
    × ((start 1 20 12 claimed).0 ≡ true)
    × (claim 1 20 77 "task" 14 cancelled_rows ≡ (false, cancelled_rows))
    × (start 1 20 14 cancelled_rows ≡ (false, cancelled_rows))
run_once_example =
    run_once 1 20 77 77 "task" "task" 11 12 14 (recorded ∷ []) cancelled_rows claim_test cancel_call

abbrev finished_rows : List Assignment
finished_rows = finish "done" 14 running_row ∷ []

save_test : save_result 1 20 "done" 14 (running_row ∷ []) ≡ ok finished_rows
unfolding save_result matched update_where update find
save_test = refl

result_kept_example :
    (claim 2 20 77 "task" 15 finished_rows ≡ (false, finished_rows))
    × (start 2 20 15 finished_rows ≡ (false, finished_rows))
    × (cancel 20 15 finished_rows ≡ (false, finished_rows))
    × (matched assignment_key 20 may_acknowledge finished_rows ≡ true)
    × (save_result 1 20 "done" 15 finished_rows ≡ ok finished_rows)
    × (save_result 1 20 "other" 15 finished_rows ≡ err not_eligible)
result_kept_example =
    result_kept 1 2 20 77 "done" "other" "task" 14 15 (running_row ∷ []) finished_rows save_test
      refl
