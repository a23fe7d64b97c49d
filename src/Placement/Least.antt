-- ===== src/Placement/Least.antt =====
-- The first of the eligible sessions in that order.
use task_scheduler.Prelude.{
  ℕ, subst, ==_iff, ◌≡◌, refl, sym, ap, Bool, true, false, not, ◌||◌, Option, none, some, List, [],
  ◌∷◌, arith, ◌==◌, if◌then◌else◌, find, keep, any, all, Option-cases, Bool-cases, inl, inr,
}
use task_scheduler.Placement.{AgentSession, session_key, precedes, better, least}
use task_scheduler.Placement.Order.{precedes_refl, precedes_total, precedes_trans}

-- The sessions have distinct keys, as those of a `HashMap`.
abbrev pub Distinct : List AgentSession → Type 0
Distinct [] = Unit
Distinct (s ∷ ss) = (find session_key s.agent_id ss ≡ none) × Distinct ss

module _ (divide : ℕ → ℕ → ℕ) (p : AgentSession → Bool) where
  -- Every session that passes the test comes behind `m`.
  abbrev pub Behind : AgentSession → List AgentSession → Type 0
  Behind m sessions = all (λ s. not (p s) || precedes divide m s) sessions ≡ true

  Behind-weaken :
      (m t : AgentSession) (ss : List AgentSession)
      → precedes divide m t ≡ true
      → Behind t ss
      → Behind m ss
  Behind-weaken m t [] h b = refl
  Behind-weaken m t (s ∷ ss) h b =
      ground (arith, precedes_trans divide m t s h, Behind-weaken m t ss h)

  pub least-none : (ss : List AgentSession) → least divide (keep p ss) ≡ none → any p ss ≡ false
  unfolding least
  least-none [] h = refl
  least-none (s ∷ ss) h = ground (arith, least-none ss)

  pub least-some :
      (ss : List AgentSession) (m : AgentSession)
      → least divide (keep p ss) ≡ some m
      → any p ss ≡ true
  unfolding least
  least-some [] m h = cc
  least-some (s ∷ ss) m h = ground (arith, least-some ss m)

  Behind-none : (m : AgentSession) (ss : List AgentSession) → any p ss ≡ false → Behind m ss
  Behind-none m [] h = refl
  Behind-none m (s ∷ ss) h = ground (arith, Behind-none m ss)

  -- The first session passes the test: the choice is between it and the best of the others.
  least_first :
      (s : AgentSession) (ss : List AgentSession) (m : AgentSession)
      → p s ≡ true
      → least divide (keep p (s ∷ ss)) ≡ some m
      → better divide s (least divide (keep p ss)) ≡ m
  unfolding least
  least_first s ss m h e = some_session (rw h at e)
    where
      some_session : {a b : AgentSession} → some a ≡ some b → a ≡ b
      some_session k = cc

  least_other :
      (s : AgentSession) (ss : List AgentSession) (m : AgentSession)
      → p s ≡ false
      → least divide (keep p (s ∷ ss)) ≡ some m
      → least divide (keep p ss) ≡ some m
  least_other s ss m h e = rw h at e

  Behind-first : (s : AgentSession) (ss : List AgentSession) → Behind s ss → Behind s (s ∷ ss)
  Behind-first s ss b = ground (arith, precedes_refl divide s)

  Behind-better :
      (s t : AgentSession) (ss : List AgentSession)
      → Behind t ss
      → Behind (better divide s (some t)) (s ∷ ss)
  Behind-better s t ss b = elim (Bool-cases (precedes divide s t)) [
    | inl first ↦
        subst (λ x. Behind x (s ∷ ss)) (sym (ap (λ b. if b then s else t) first))
          (Behind-first s ss (Behind-weaken s t ss first b))
    | inr second ↦
        subst (λ x. Behind x (s ∷ ss)) (sym (ap (λ b. if b then s else t) second))
          (ground (arith, precedes_total divide s t second, b))
  ]

  pub least-Behind :
      (ss : List AgentSession) (m : AgentSession) → least divide (keep p ss) ≡ some m → Behind m ss
  least-Behind [] m h = refl
  least-Behind (s ∷ ss) m h = elim (Bool-cases (p s)) [
    | inr fails ↦ ground (arith, least-Behind ss m (least_other s ss m fails h))
    | inl passes ↦
        let e = least_first s ss m passes h in
        elim (Option-cases (least divide (keep p ss))) [
          | inl none_left ↦
              subst (λ x. Behind x (s ∷ ss)) (rw none_left at e)
                (Behind-first s ss (Behind-none s ss (least-none ss none_left)))
          | inr (t, best) ↦
              subst (λ x. Behind x (s ∷ ss)) (rw best at e)
                (Behind-better s t ss (least-Behind ss t best))
        ]
  ]

  abbrev pub Found : AgentSession → List AgentSession → Type 0
  Found m ss = (find session_key m.agent_id ss ≡ some m) × (p m ≡ true)

  Found-first : (s : AgentSession) (ss : List AgentSession) → p s ≡ true → Found s (s ∷ ss)
  unfolding find
  Found-first s ss h = ground arith

  Found-later :
      (s m : AgentSession) (ss : List AgentSession)
      → find session_key s.agent_id ss ≡ none
      → Found m ss
      → Found m (s ∷ ss)
  unfolding find
  Found-later s m ss fresh f = elim (Bool-cases (s.agent_id == m.agent_id)) [
    | inl same ↦ absurd (
        clash
          (subst (λ k. find session_key k ss ≡ none) ((==_iff s.agent_id m.agent_id).0 same) fresh)
          f.0)
    | inr other ↦ (rw other f.0, f.1)
  ]
    where
      clash : {o : Option AgentSession} {x : AgentSession} → o ≡ none → ¬ (o ≡ some x)
      clash a b = cc

  pub find_least :
      (ss : List AgentSession) (m : AgentSession)
      → Distinct ss
      → least divide (keep p ss) ≡ some m
      → Found m ss
  find_least [] m d h = absurd (unfold least in cc)
  find_least (s ∷ ss) m (fresh, d) h = elim (Bool-cases (p s)) [
    | inr fails ↦ Found-later s m ss fresh (find_least ss m d (least_other s ss m fails h))
    | inl passes ↦
        let e = least_first s ss m passes h in
        elim (Option-cases (least divide (keep p ss))) [
          | inl none_left ↦
              subst (λ x. Found x (s ∷ ss)) (rw none_left at e) (Found-first s ss passes)
          | inr (t, best) ↦ elim (Bool-cases (precedes divide s t)) [
            | inl first ↦
                subst (λ x. Found x (s ∷ ss)) (rw (best, first) at e) (Found-first s ss passes)
            | inr second ↦
                subst (λ x. Found x (s ∷ ss)) (rw (best, second) at e)
                  (Found-later s t ss fresh (find_least ss t d best))
          ]
        ]
  ]
