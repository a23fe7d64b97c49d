-- ===== src/Placement/Order.antt =====
-- The order in which sessions are preferred: it is total and transitive.
use task_scheduler.Prelude.{ℕ, ◌≡◌, true, false, arith}
use task_scheduler.Placement.{AgentSession, precedes}

module _ (divide : ℕ → ℕ → ℕ) where
  pub precedes_refl : (a : AgentSession) → precedes divide a a ≡ true
  unfolding precedes
  precedes_refl a = ground arith

  pub precedes_total :
      (a b : AgentSession) → precedes divide a b ≡ false → precedes divide b a ≡ true
  unfolding precedes
  precedes_total a b h = ground arith

  pub precedes_trans :
      (a b c : AgentSession)
      → precedes divide a b ≡ true
      → precedes divide b c ≡ true
      → precedes divide a c ≡ true
  unfolding precedes
  precedes_trans a b c h k = ground arith
