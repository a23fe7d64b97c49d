-- ===== src/Placement/Choice.antt =====
-- The agent that is chosen for a run.
use mathlib.Core.Path.{subst₂}
use task_scheduler.Prelude.{
  ltb→lt, ◌≢◌, ℕ, ◌+◌, ◌-◌, ◌*◌, ◌≤◌, ◌<◌, ◌^◌, min, max, ◌≡◌, refl, sym, subst, ap, Bool, true,
  false, not, ◌||◌, ◌==◌, Option, none, some, List, [], ◌∷◌, arith, ltb, find, update, keep, any,
  all, find-updated, find-update, Option-cases, inl, inr, ◌↔◌,
}
use native.Mathlib.Decide.{dec_lt}
use task_scheduler.Parameters.Snapshots.{ExecutionSnapshot}
use task_scheduler.Health.Node.Apply.{NodeHealthState, capacity_limit}
use task_scheduler.Placement.{
  limited, AgentSession, session_key, effective_capacity, has_label, supports_parameter_bindings,
  is_eligible, precedes, least, take_slot, reserve_agent_avoiding,
}
use task_scheduler.Runs.Tables.{is_some}
use task_scheduler.Placement.Division.{IsDivision}
use task_scheduler.Placement.Least.{Distinct, find_least, least-Behind, least-none}

-- What an agent has to be for a run: enabled, not excluded, in no quarantine, with a slot left (one
-- in all on probation), with the labels that the run needs and the bindings that it reads.
pub record Eligible (snapshot : ExecutionSnapshot) (excluded : List ℕ) (s : AgentSession)
    : Type 0 where
  pub is_enabled : s.enabled ≡ true
  pub admitted : any (λ id. id == s.agent_id) excluded ≡ false
  pub not_manual : s.health ≢ NodeHealthState.manual_quarantined
  pub not_auto : s.health ≢ NodeHealthState.auto_quarantined
  pub slot_left : s.running < s.capacity
  pub one_on_probation : s.health ≡ NodeHealthState.probation → s.running ≡ 0
  pub labelled : all (has_label s.labels) snapshot.required_labels ≡ true
  pub bound : supports_parameter_bindings s snapshot.late_bindings ≡ true

-- `m` is not more utilised than `s`: its rounded quotient is not greater, and for capacities below
-- `2 ^ 26` neither is the exact fraction.
pub record NotMoreUtilised (divide : ℕ → ℕ → ℕ) (m s : AgentSession) : Type 0 where
  pub rounded : divide m.running m.capacity ≤ divide s.running s.capacity
  pub exact :
      m.capacity < 2 ^ 26 → s.capacity < 2 ^ 26 → m.running * s.capacity ≤ s.running * m.capacity

-- What a reservation found, and what it changes.
pub record Reserved (divide : ℕ → ℕ → ℕ) (snapshot : ExecutionSnapshot) (excluded : List ℕ)
    (now id : ℕ) (sessions after : List AgentSession) : Type 0 where
  pub session : AgentSession
  pub row : AgentSession
  pub found : find session_key id sessions ≡ some session
  pub eligible : Eligible snapshot excluded session
  pub least_loaded :
      (other : ℕ) (s : AgentSession)
      → find session_key other sessions ≡ some s
      → Eligible snapshot excluded s
      → NotMoreUtilised divide session s
  pub changed : find session_key id after ≡ some row
  pub assigned : row ≡ record session { running = session.running + 1; last_assigned = now }
  pub within : row.running ≤ row.capacity
  pub others :
      (other : ℕ) → other ≢ id → find session_key other after ≡ find session_key other sessions

module _ (snapshot : ExecutionSnapshot) (excluded : List ℕ) (s : AgentSession) where
  passes-Eligible : is_eligible snapshot excluded s ≡ true → Eligible snapshot excluded s
  unfolding is_eligible
  passes-Eligible h = record {
    is_enabled = ground (arith, h);
    admitted = ground (arith, h);
    not_manual = λ e. ground (arith, h);
    not_auto = λ e. ground (arith, h);
    slot_left = ground (arith, h);
    one_on_probation = λ e. ground (arith, h);
    labelled = ground (arith, h);
    bound = ground (arith, h);
  }

  Eligible-passes : Eligible snapshot excluded s → is_eligible snapshot excluded s ≡ true
  unfolding is_eligible
  Eligible-passes e =
      let manual = e.not_manual in
      let auto = e.not_auto in let probation = e.one_on_probation in ground arith

module _ (divide : ℕ → ℕ → ℕ) (division : IsDivision divide) (m s : AgentSession)
    (some_m : m.running < m.capacity) (some_s : s.running < s.capacity) where
  not_less :
      divide m.running m.capacity ≤ divide s.running s.capacity
      → ¬ (divide s.running s.capacity < divide m.running m.capacity)
  not_less a b = omega arith

  exact_order :
      divide m.running m.capacity ≤ divide s.running s.capacity
      → m.capacity < 2 ^ 26
      → s.capacity < 2 ^ 26
      → m.running * s.capacity ≤ s.running * m.capacity
  exact_order le p q = elim (dec_lt (s.running * m.capacity) (m.running * s.capacity)) [
    | no k ↦ omega (arith, k)
    | yes k ↦ absurd (
        not_less le (
          division.separates s.running m.running s.capacity m.capacity (omega arith) (omega arith) q
            p k))
  ]

  precedes-NotMoreUtilised : precedes divide m s ≡ true → NotMoreUtilised divide m s
  unfolding precedes
  precedes-NotMoreUtilised h =
      let capacity_m : max m.capacity 1 ≡ m.capacity = omega arith in
      let capacity_s : max s.capacity 1 ≡ s.capacity = omega arith in
      let le : divide m.running m.capacity ≤ divide s.running s.capacity = ground arith in
      record { rounded = le; exact = exact_order le }

limited-le : (capacity : ℕ) (limit : Option ℕ) → limited capacity limit ≤ capacity
limited-le capacity none = omega arith
limited-le capacity (some limit) = omega arith

capacity-le : (s : AgentSession) → effective_capacity s ≤ s.capacity
capacity-le s = limited-le s.capacity (capacity_limit s.health)

slot_taken :
    (now : ℕ) (s : AgentSession)
    → s.running < s.capacity
    → s.capacity < 2 ^ 32
    → take_slot now s ≡ record s { running = s.running + 1; last_assigned = now }
slot_taken now s room bounded =
    let one_more : min (s.running + 1) (2 ^ 32 - 1) ≡ s.running + 1 = omega arith in rw one_more

all_found :
    (q : AgentSession → Bool) (k : ℕ) (ss : List AgentSession) (m : AgentSession)
    → all q ss ≡ true
    → find session_key k ss ≡ some m
    → q m ≡ true
unfolding find
all_found q k [] m h f = cc
all_found q k (s ∷ ss) m h f = ground (arith, all_found q k ss m)

any_found :
    (q : AgentSession → Bool) (k : ℕ) (ss : List AgentSession) (m : AgentSession)
    → q m ≡ true
    → find session_key k ss ≡ some m
    → any q ss ≡ true
unfolding find
any_found q k [] m h f = cc
any_found q k (s ∷ ss) m h f = ground (arith, any_found q k ss m)

module _ (divide : ℕ → ℕ → ℕ) (snapshot : ExecutionSnapshot) (excluded : List ℕ) (now : ℕ)
    (sessions : List AgentSession) where
  chosen-Reserved :
      (m : AgentSession)
      → IsDivision divide
      → Distinct sessions
      → m.capacity < 2 ^ 32
      → least divide (keep (is_eligible snapshot excluded) sessions) ≡ some m
      → Reserved divide snapshot excluded now m.agent_id sessions
          (update session_key m.agent_id (take_slot now) sessions)
  chosen-Reserved m division distinct bounded h =
      let p = is_eligible snapshot excluded in
      let (found, passes) = find_least divide p sessions m distinct h in
      let eligible = passes-Eligible snapshot excluded m passes in
      let room = eligible.slot_left in
      let counted = slot_taken now m room bounded in
      record {
        session = m;
        row = take_slot now m;
        found = found;
        eligible = eligible;
        least_loaded = λ other s here e.
            let first =
              all_found (λ x. not (p x) || precedes divide m x) other sessions s
                (least-Behind divide p sessions m h) here in
            let counts = Eligible-passes snapshot excluded s e in
            precedes-NotMoreUtilised divide division m s room e.slot_left (ground (arith, first));
        changed = find-updated session_key m.agent_id (take_slot now) sessions m (λ x. refl) found;
        assigned = counted;
        within = subst (λ r. r.running ≤ r.capacity) (sym counted) (omega arith);
        others = λ other ne. ground (
          arith,
          find-update session_key m.agent_id other (take_slot now) sessions (λ x. refl),
          ne,
        );
      }

  -- The agent that a reservation selects is connected and eligible: enabled, not excluded, not
  -- quarantined, with room left, no more than one run on probation, and the labels and bindings that the
  -- run needs. No eligible agent is less utilised, by the quotients as the code rounds them, and among
  -- agents with capacities below 2 ^ 26 by the exact fractions. Its count grows by one and stays within
  -- its capacity, the time of its assignment is set, and nothing else of it and no other agent changes.
  -- The ids of the sessions are distinct and their capacities `u32`; the division tells different
  -- fractions of numbers below 2 ^ 26 apart.
  pub reserve_agent_best :
      (id : ℕ) (after : List AgentSession)
      → IsDivision divide
      → Distinct sessions
      → all (λ s. ltb s.capacity (2 ^ 32)) sessions ≡ true
      → reserve_agent_avoiding divide snapshot excluded now sessions ≡ (some id, after)
      → Reserved divide snapshot excluded now id sessions after
  unfolding reserve_agent_avoiding
  reserve_agent_best id after division distinct bounded h =
      elim (Option-cases (least divide (keep (is_eligible snapshot excluded) sessions))) [
        | inl e ↦ absurd (clash (ap (λ r. r.0) (rw e at h)))
        | inr (m, e) ↦
            let found =
              (find_least divide (is_eligible snapshot excluded) sessions m distinct e).0 in
            let small =
              all_found (λ s. ltb s.capacity (2 ^ 32)) m.agent_id sessions m bounded found in
            let h' = rw e at h in
            subst₂ (λ i t. Reserved divide snapshot excluded now i sessions t)
              (some_id (ap (λ r. r.0) h')) (ap (λ r. r.1) h')
              (chosen-Reserved m division distinct (ltb→lt m.capacity (2 ^ 32) small) e)
      ]
    where
      clash : ¬ (◌≡◌ {A = Option ℕ} none (some id))
      clash e = cc

      some_id : {a b : ℕ} → some a ≡ some b → a ≡ b
      some_id e = cc

  -- Some connected agent is eligible.
  abbrev pub SomeEligible : Type 0
  SomeEligible =
      (id : ℕ) × (s : AgentSession) × (find session_key id sessions ≡ some s)
      × Eligible snapshot excluded s

  -- A run is offered to an agent exactly when there is an eligible one: enabled, not excluded, not
  -- quarantined, with room left, no other run on probation, and the labels and bindings that the run
  -- needs; without one, nothing changes. The ids of the sessions are distinct.
  pub reserve_agent_iff :
      Distinct sessions
      → ((is_some (reserve_agent_avoiding divide snapshot excluded now sessions).0 ≡ true)
          ↔ SomeEligible)
        × (¬ SomeEligible
            → reserve_agent_avoiding divide snapshot excluded now sessions ≡ (none, sessions))
  unfolding reserve_agent_avoiding
  reserve_agent_iff distinct =
      let p = is_eligible snapshot excluded in
      elim (Option-cases (least divide (keep p sessions))) [
        | inl e ↦
            let nobody = least-none divide p sessions e in
            rw e (
              (
                λ h. absurd (cc),
                λ (id, s, here, fits). absurd (
                    none_passes nobody
                      (any_found p id sessions s (Eligible-passes snapshot excluded s fits) here)),
              ),
              λ h. refl,
            )
        | inr (m, e) ↦
            let (found, passes) = find_least divide p sessions m distinct e in
            let someone : SomeEligible =
              (m.agent_id, m, found, passes-Eligible snapshot excluded m passes) in
            rw e ((λ h. someone, λ h. refl), λ h. absurd (h someone))
      ]
    where
      none_passes : {b : Bool} → b ≡ false → ¬ (b ≡ true)
      none_passes e f = cc
