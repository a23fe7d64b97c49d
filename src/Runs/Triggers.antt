-- ===== src/Runs/Triggers.antt =====
-- What makes a run: `create_run` and `create_cron_occurrence` of crates/scheduler-store/src/lib.rs,
-- with the unique indexes of `trigger_identities` and `runs`.
use task_scheduler.Prelude.{
  ℕ, String, Bool, true, false, ◌&&◌, ◌||◌, not, Option, none, some, List, [], ◌∷◌, ◌++◌, ◌==◌, ltb,
  str_eq, if◌then◌else◌, find, update_where, matched, any, Result, ok, err, ◌>>=◌, ◌>>◌, or_fail,
  guard,
}
use task_scheduler.Domain.{RunState}
use task_scheduler.Runs.Tables.{
  Run, TriggerKind, TargetKind, TriggerIdentity, Schedule, Store, StoreError, unique_violation,
  wrong_trigger_kind, missing_target, already_a_batch, missing_run, run_queued, run_key,
  append_audit, is_some,
}

-- The first row that passes a test.
unfoldable pub first {ℓ} : {A : Type ℓ} → (A → Bool) → List A → Option A
first p [] = none
first p (x ∷ xs) = if p x then some x else first p xs

pub record NewRun : Type 0 where
  pub id : ℕ
  pub schedule_id : ℕ
  pub trigger_kind : TriggerKind
  pub scheduled_at : ℕ
  pub max_attempts : ℕ
  pub initial_backoff_seconds : ℕ
  pub backoff_cap_seconds : ℕ
  pub idempotency_key : Option String

abbrev pub same_kind : TriggerKind → TriggerKind → Bool
same_kind TriggerKind.manual TriggerKind.manual = true
same_kind TriggerKind.cron TriggerKind.cron = true
same_kind TriggerKind.webhook TriggerKind.webhook = true
same_kind TriggerKind.batch_item TriggerKind.batch_item = true
same_kind _ _ = false

abbrev pub is_run : TargetKind → Bool
is_run TargetKind.run = true
is_run TargetKind.batch = false

abbrev pub is_cron : TriggerKind → Bool
is_cron k = same_kind k TriggerKind.cron

-- idempotency_key=?: NULL equals nothing
abbrev pub has_key : String → Option String → Bool
has_key key none = false
has_key key (some k) = str_eq k key

abbrev pub same_key : Option String → Option String → Bool
same_key none k = false
same_key (some key) k = has_key key k

-- idx_trigger_identity_idempotency, idx_trigger_identity_cron, UNIQUE(target_kind, target_id)
abbrev pub of_key : ℕ → String → TriggerIdentity → Bool
of_key schedule_id key t = t.schedule_id == schedule_id && has_key key t.idempotency_key

abbrev pub of_occurrence : ℕ → ℕ → TriggerIdentity → Bool
of_occurrence schedule_id scheduled_at t =
    t.schedule_id == schedule_id && (is_cron t.trigger_kind && t.scheduled_at == scheduled_at)

abbrev same_target : TriggerIdentity → TriggerIdentity → Bool
same_target new t =
    (if is_run new.target_kind then is_run t.target_kind else not (is_run t.target_kind))
    && t.target_id == new.target_id

abbrev key_taken : ℕ → Option String → List TriggerIdentity → Bool
key_taken schedule_id none ts = false
key_taken schedule_id (some key) ts = any (of_key schedule_id key) ts

abbrev trigger_key : TriggerIdentity → ℕ
trigger_key t = t.id

-- `none` is a unique violation.
unfoldable pub insert_trigger :
    TriggerIdentity → List TriggerIdentity → Option (List TriggerIdentity)
insert_trigger new ts =
    if is_some (find trigger_key new.id ts)
      || (key_taken new.schedule_id new.idempotency_key ts
          || ((is_cron new.trigger_kind && any (of_occurrence new.schedule_id new.scheduled_at) ts)
              || any (same_target new) ts))
    then none
    else some (ts ++ new ∷ [])

-- idx_runs_webhook_idempotency, idx_runs_cron_occurrence
abbrev pub run_of_key : ℕ → String → Run → Bool
run_of_key schedule_id key r = r.schedule_id == schedule_id && has_key key r.idempotency_key

abbrev pub run_of_time : ℕ → ℕ → TriggerKind → Run → Bool
run_of_time schedule_id scheduled_at kind r =
    r.schedule_id == schedule_id
    && (r.scheduled_at == scheduled_at && same_kind r.trigger_kind kind)

abbrev run_key_taken : ℕ → Option String → List Run → Bool
run_key_taken schedule_id none rs = false
run_key_taken schedule_id (some key) rs = any (run_of_key schedule_id key) rs

unfoldable pub insert_run : Run → List Run → Option (List Run)
insert_run new rs =
    if is_some (find run_key new.id rs)
      || (run_key_taken new.schedule_id new.idempotency_key rs
          || (is_cron new.trigger_kind
              && any (run_of_time new.schedule_id new.scheduled_at TriggerKind.cron) rs))
    then none
    else some (rs ++ new ∷ [])

-- The row of a new run; its columns without a value take their defaults.
abbrev pub queued_run : NewRun → ℕ → Run
queued_run new now = record {
  id = new.id;
  schedule_id = new.schedule_id;
  state = RunState.queued;
  trigger_kind = new.trigger_kind;
  scheduled_at = new.scheduled_at;
  not_before = new.scheduled_at;
  max_attempts = new.max_attempts;
  initial_backoff_seconds = new.initial_backoff_seconds;
  backoff_cap_seconds = new.backoff_cap_seconds;
  attempt_count = 0;
  attempt_offset = 0;
  idempotency_key = new.idempotency_key;
  batch_id = none;
  batch_item_id = none;
  created_at = now;
  updated_at = now;
}

abbrev pub run_trigger : ℕ → NewRun → ℕ → TriggerIdentity
run_trigger trigger_id new now = record {
  id = trigger_id;
  schedule_id = new.schedule_id;
  trigger_kind = new.trigger_kind;
  scheduled_at = new.scheduled_at;
  idempotency_key = new.idempotency_key;
  target_kind = TargetKind.run;
  target_id = new.id;
  created_at = now;
}

-- The row that a repeated trigger collides with: by its key if it has one, else by its occurrence.
unfoldable pub trigger_target : NewRun → List TriggerIdentity → Option TriggerIdentity
trigger_target new ts = elim new.idempotency_key [
  | some key ↦ first (of_key new.schedule_id key) ts
  | none ↦
      if is_cron new.trigger_kind
      then first (of_occurrence new.schedule_id new.scheduled_at) ts
      else none
]

unfoldable pub existing_target : NewRun → Store → Result StoreError Run
existing_target new s = do
  t ← or_fail (trigger_target new s.triggers) missing_target
  guard (is_run t.target_kind) already_a_batch
  or_fail (find run_key t.target_id s.runs) missing_run

abbrev run_by_key : NewRun → List Run → Option Run
run_by_key new rs = elim new.idempotency_key [
  | none ↦ none
  | some key ↦ first (run_of_key new.schedule_id key) rs
]

-- The lookups after the run's row collided.
unfoldable pub existing_run : NewRun → Store → Result StoreError Run
existing_run new s = elim (run_by_key new s.runs) [
  | some r ↦ ok r
  | none ↦
      or_fail (first (run_of_time new.schedule_id new.scheduled_at new.trigger_kind) s.runs)
        unique_violation
]

-- `trigger_id` is the fresh UUID of the trigger's row.
unfoldable pub create_run : ℕ → NewRun → ℕ → Store → Result StoreError (Run × Store)
create_run trigger_id new now s =
    elim (insert_trigger (run_trigger trigger_id new now) s.triggers) [
      | none ↦ existing_target new s >>= λ r. ok (r, s)
      | some ts ↦ elim (insert_run (queued_run new now) s.runs) [
        | none ↦ existing_run new s >>= λ r. ok (r, s)
        | some rs ↦ or_fail (find run_key new.id rs) missing_run >>= λ r.
            ok (r, append_audit (run_queued new.id) (record s { triggers = ts; runs = rs }))
      ]
    ]

pub data CronOccurrence : Type 0 where
  applied : Run → CronOccurrence
  stale_schedule : CronOccurrence

abbrev pub schedule_key : Schedule → ℕ
schedule_key x = x.id

-- … WHERE id=? AND revision=? AND enabled=1 AND cron_expression=? AND cron_timezone=?
abbrev pub is_current : ℕ → String → String → Schedule → Bool
is_current revision expression timezone x =
    x.revision == revision
    && (x.enabled && (has_key expression x.cron_expression && has_key timezone x.cron_timezone))

abbrev later : Option ℕ → ℕ → Option ℕ
later none t = some t
later (some u) t = if ltb u t then some t else some u

abbrev pub mark_occurrence : ℕ → Schedule → Schedule
mark_occurrence t x = record x { last_cron_at = later x.last_cron_at t }

abbrev cron_trigger : ℕ → NewRun → ℕ → TriggerIdentity
cron_trigger trigger_id new now = record (run_trigger trigger_id new now) {
  trigger_kind = TriggerKind.cron;
  idempotency_key = none;
}

-- After a collision with the occurrence's trigger, on the store rolled back.
unfoldable pub existing_occurrence : NewRun → Store → Result StoreError (CronOccurrence × Store)
existing_occurrence new s = do
  t ← or_fail (first (of_occurrence new.schedule_id new.scheduled_at) s.triggers) missing_target
  guard (is_run t.target_kind) already_a_batch
  r ← or_fail (find run_key t.target_id s.runs) missing_run
  ok (applied r, s)

-- The row of the run, or the run of that occurrence that is there already.
unfoldable pub cron_run : NewRun → ℕ → Store → Result StoreError (CronOccurrence × Store)
cron_run new now s = elim (insert_run (queued_run new now) s.runs) [
  | some rs ↦ or_fail (find run_key new.id rs) missing_run >>= λ r.
      ok (applied r, append_audit (run_queued new.id) (record s { runs = rs }))
  | none ↦
      or_fail (first (run_of_time new.schedule_id new.scheduled_at TriggerKind.cron) s.runs)
        missing_run
      >>= λ r. ok (applied r, s)
]

unfoldable pub create_cron_occurrence :
    ℕ → NewRun → ℕ → String → String → ℕ → Store → Result StoreError (CronOccurrence × Store)
create_cron_occurrence trigger_id new revision expression timezone now s =
    if not (is_cron new.trigger_kind)
    then err wrong_trigger_kind
    else if not
        (matched schedule_key new.schedule_id (is_current revision expression timezone) s.schedules)
    then ok (stale_schedule, s)
    else elim (insert_trigger (cron_trigger trigger_id new now) s.triggers) [
      | none ↦ existing_occurrence new s
      | some ts ↦ cron_run new now (record s {
        triggers = ts;
        schedules =
            update_where schedule_key new.schedule_id (is_current revision expression timezone)
              (mark_occurrence new.scheduled_at) s.schedules;
      })
    ]
