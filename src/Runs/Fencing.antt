-- ===== src/Runs/Fencing.antt =====
-- `reconcile_confirmed_collection_items_tx` of crates/scheduler-store/src/health.rs, which fences the
-- runs of an input that is confirmed as poison.
use task_scheduler.Prelude.{
  ℕ, ◌+◌, Bool, true, false, ◌&&◌, none, some, List, [], ◌∷◌, ◌==◌, if◌then◌else◌, update,
  update_where, update_all, keep, any,
}
use task_scheduler.Domain.{RunState}
use task_scheduler.Runs.Tables.{
  Run, Batch, BatchState, BatchItem, BatchItemState, Store, item_poison_confirmed,
  batch_poison_confirmed, batch_key, append_audit, is_queued,
}
use task_scheduler.Runs.Batches.{batch_is_running}
use task_scheduler.Runs.Collecting.{active_in}

abbrev pub is_poisonable : BatchItemState → Bool
is_poisonable BatchItemState.queued = true
is_poisonable BatchItemState.failed = true
is_poisonable BatchItemState.suspected_poison = true
is_poisonable _ = false

-- run_id IN (SELECT run_id FROM health_evidence WHERE blueprint_digest=? AND input_fingerprint=?)
abbrev pub is_linked : List ℕ → ℕ → Bool
is_linked run_ids id = any (λ k. k == id) run_ids

abbrev pub item_linked : List ℕ → BatchItem → Bool
item_linked run_ids i = elim i.run_id [ none ↦ false | some id ↦ is_linked run_ids id ]

abbrev pub fence : ℕ → Run → Run
fence now r = record r { state = RunState.failed; updated_at = now }

-- The `HashMap` of counts by batch, as its entries in the order of insertion.
unfoldable pub count_item : ℕ → List (ℕ × ℕ) → List (ℕ × ℕ)
count_item b [] = (b, 1) ∷ []
count_item b ((c, n) ∷ counts) =
    if c == b then (c, n + 1) ∷ counts else (c, n) ∷ count_item b counts

-- The loop over the rows that were changed, with the counts.
unfoldable pub audit_items : List BatchItem → List (ℕ × ℕ) → Store → List (ℕ × ℕ) × Store
unfolding count_item
audit_items [] counts s = (counts, s)
audit_items (i ∷ items) counts s =
    audit_items items (count_item i.batch_id counts)
      (append_audit (item_poison_confirmed i.batch_id i.id) s)

abbrev pub add_poisoned : ℕ → ℕ → Batch → Batch
add_poisoned n now b = record b {
  poisoned_item_count = b.poisoned_item_count + n;
  updated_at = now;
}

-- The loop over the batches.
unfoldable pub settle_batches : List (ℕ × ℕ) → ℕ → Store → Store
settle_batches [] now s = s
settle_batches ((b, n) ∷ counts) now s =
    let counted = update batch_key b (add_poisoned n now) s.batches in
    let batches =
      if any (active_in b) s.runs
      then counted
      else update_where batch_key b (λ x. batch_is_running x.state)
          (λ x. record x { state = BatchState.completed_with_errors; updated_at = now }) counted in
    settle_batches counts now
      (append_audit (batch_poison_confirmed b n) (record s { batches = batches }))

-- An item that the second UPDATE changes.
abbrev pub becomes_poisoned : List ℕ → BatchItem → Bool
becomes_poisoned run_ids i = item_linked run_ids i && is_poisonable i.state

-- The UPDATEs of runs and of items.
abbrev pub fence_rows : List ℕ → ℕ → Store → Store
fence_rows run_ids now s = record s {
  runs = update_all (λ r. is_queued r.state && is_linked run_ids r.id) (fence now) s.runs;
  items =
      update_all (becomes_poisoned run_ids)
        (λ i. record i { state = BatchItemState.poisoned; updated_at = now }) s.items;
}

-- `run_ids` is the result of the subquery, `arrange` the order in which the `HashMap` is read.
unfoldable pub reconcile_confirmed : (List (ℕ × ℕ) → List (ℕ × ℕ)) → List ℕ → ℕ → Store → Store
unfolding audit_items settle_batches
reconcile_confirmed arrange run_ids now s =
    let (counts, t) =
      audit_items (keep (becomes_poisoned run_ids) s.items) [] (fence_rows run_ids now s) in
    settle_batches (arrange counts) now t
