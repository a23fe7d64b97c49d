-- ===== src/Runs/Leases.antt =====
-- Leases: `renew_attempts`, `reauthorize_attempt` and `claim_expired_attempts` of
-- crates/scheduler-store/src/lib.rs.
use task_scheduler.Prelude.{
  ℕ, ◌+◌, min, String, Bool, true, false, ◌&&◌, Option, none, some, List, [], ◌∷◌, ◌==◌, leb,
  str_eq, if◌then◌else◌, find, update, update_where, matched, take, keep, ◌^◌, ◌-◌,
}
use task_scheduler.Runs.Tables.{
  Attempt, AttemptState, Run, Agent, Store, run_key, attempt_key, seconds, after_seconds,
  is_accepted, is_leased, is_running,
}
use task_scheduler.Runs.Offers.{select_attempt}

abbrev pub extend : ℕ → ℕ → Attempt → Attempt
extend expires now a = record a { lease_expires_at = expires; updated_at = now }

-- … WHERE id=? AND agent_id=? AND state='accepted'
abbrev pub held_by : String → Attempt → Bool
held_by agent_id a = str_eq a.agent_id agent_id && is_accepted a.state

-- The loop of `renew_attempts`: the rows, and the identifiers that were renewed.
unfoldable pub renew_loop : String → ℕ → ℕ → List ℕ → List Attempt → List ℕ × List Attempt
renew_loop agent_id expires now [] xs = ([], xs)
renew_loop agent_id expires now (id ∷ ids) xs =
    let (renewed, ys) =
      renew_loop agent_id expires now ids
        (update_where attempt_key id (held_by agent_id) (extend expires now) xs) in
    ((if matched attempt_key id (held_by agent_id) xs then id ∷ renewed else renewed), ys)

-- UPDATE agents SET running=?,last_seen_at=?,updated_at=?,connected=1 WHERE id=?
unfoldable pub touch_agent : String → ℕ → ℕ → List Agent → List Agent
touch_agent agent_id running now [] = []
touch_agent agent_id running now (g ∷ gs) =
    if str_eq g.id agent_id
    then record g { running = running; last_seen_at = now; updated_at = now; connected = true } ∷ gs
    else g ∷ touch_agent agent_id running now gs

unfoldable pub renew_attempts : String → List ℕ → ℕ → ℕ → ℕ → Store → List ℕ × Store
unfolding renew_loop touch_agent
renew_attempts agent_id attempt_ids lease_seconds running now s =
    let (renewed, attempts) =
      renew_loop agent_id (after_seconds now lease_seconds) now attempt_ids s.attempts in
    (renewed, record s { attempts = attempts; agents = touch_agent agent_id running now s.agents })

abbrev run_is_running : Option Run → Bool
run_is_running none = false
run_is_running (some r) = is_running r.state

-- The join of `reauthorize_attempt`: an accepted attempt of that agent and token, of a running run.
abbrev pub may_resume : String → ℕ → List Run → Attempt → Bool
may_resume agent_id lease_token runs a =
    str_eq a.agent_id agent_id
    && (a.lease_token == lease_token
        && (is_accepted a.state && run_is_running (find run_key a.run_id runs)))

-- The update of the row that was selected in the same transaction, while its deadline is ahead.
unfoldable pub resume_row : Option Attempt → ℕ → ℕ → Store → Bool × Store
resume_row none lease_seconds now s = (false, s)
resume_row (some a) lease_seconds now s = if leb a.lease_expires_at now then (false, s) else (
  true,
  record s {
    attempts = update attempt_key a.id (extend (after_seconds now lease_seconds) now) s.attempts;
  },
)

unfoldable pub reauthorize_attempt : ℕ → String → ℕ → ℕ → ℕ → Store → Bool × Store
unfolding resume_row
reauthorize_attempt attempt_id agent_id lease_token lease_seconds now s =
    resume_row (select_attempt attempt_id (may_resume agent_id lease_token s.runs) s.attempts)
      lease_seconds now s

-- ORDER BY lease_expires_at
unfoldable pub insert_by_deadline : Attempt → List Attempt → List Attempt
insert_by_deadline a [] = a ∷ []
insert_by_deadline a (b ∷ xs) =
    if leb a.lease_expires_at b.lease_expires_at then a ∷ b ∷ xs else b ∷ insert_by_deadline a xs

unfoldable pub sort_by_deadline : List Attempt → List Attempt
unfolding insert_by_deadline
sort_by_deadline [] = []
sort_by_deadline (a ∷ xs) = insert_by_deadline a (sort_by_deadline xs)

-- The scan: every lease that may run out, the earliest deadline first.
unfoldable pub scan_leases : ℕ → List Attempt → List Attempt
unfolding sort_by_deadline
scan_leases limit xs = take (min limit 500) (sort_by_deadline (keep (λ a. is_leased a.state) xs))

-- … WHERE id=? AND lease_token=? AND state IN ('offered','accepted') AND lease_expires_at=?
abbrev pub unchanged_since : Attempt → Attempt → Bool
unchanged_since scanned a =
    a.lease_token == scanned.lease_token
    && (is_leased a.state && a.lease_expires_at == scanned.lease_expires_at)

abbrev pub expire : ℕ → Attempt → Attempt
expire now a = record a { state = AttemptState.expiring; updated_at = now }

-- One round of the loop on a scanned row: compare and swap on the rows as they are now.
unfoldable pub claim_expired : Attempt → ℕ → ℕ → List Attempt → Bool × List Attempt
claim_expired scanned grace now xs =
    if leb now (scanned.lease_expires_at + grace) then (false, xs) else (
      matched attempt_key scanned.id (unchanged_since scanned) xs,
      update_where attempt_key scanned.id (unchanged_since scanned) (expire now) xs,
    )

unfoldable pub claim_loop : List Attempt → ℕ → ℕ → List Attempt → List Attempt × List Attempt
unfolding claim_expired
claim_loop [] grace now xs = ([], xs)
claim_loop (a ∷ scanned) grace now xs =
    let (won, ys) = claim_expired a grace now xs in
    let (claimed, zs) = claim_loop scanned grace now ys in
    ((if won then a ∷ claimed else claimed), zs)

-- heartbeat_grace_seconds.min(i64::MAX as u64)
abbrev pub grace_of : ℕ → ℕ
grace_of heartbeat_grace_seconds = seconds (min heartbeat_grace_seconds (2 ^ 63 - 1))

-- The scan and the updates are statements of their own. Here no other transaction runs between them;
-- `claim_expired` is the step that may be interleaved with others.
unfoldable pub claim_expired_attempts : ℕ → ℕ → ℕ → Store → List Attempt × Store
unfolding scan_leases claim_loop
claim_expired_attempts limit heartbeat_grace_seconds now s =
    let (claimed, attempts) =
      claim_loop (scan_leases limit s.attempts) (grace_of heartbeat_grace_seconds) now s.attempts in
    (claimed, record s { attempts = attempts })
