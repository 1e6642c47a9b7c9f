-- ===== src/Graph/Blast/Risk.antt =====
-- The risk score of blast.rs.
use ovecc.Prelude.{ℕ, ◌≤◌, Bool, arith, ◌↔◌}
use ovecc.Core.Legacy.{rank}
use ovecc.Graph.Blast.{risk_score}

-- More impacted entities never lower the value or the level.
pub risk_score_mono :
    (m a t s m' a' t' s' : ℕ) (in_cycle : Bool)
    → m ≤ m'
    → a ≤ a'
    → t ≤ t'
    → s ≤ s'
    → ((risk_score m a t s in_cycle).0 ≤ (risk_score m' a' t' s' in_cycle).0)
      × (rank (risk_score m a t s in_cycle).1 ≤ rank (risk_score m' a' t' s' in_cycle).1)
unfolding risk_score
risk_score_mono m a t s m' a' t' s' in_cycle h₁ h₂ h₃ h₄ = ground arith

-- The displayed value lies in 0..100, and below the cap it decides the level: the level is at
-- least medium, high or critical exactly if the value is at least 25, 50 or 75.
pub risk_score_bands :
    (m a t s : ℕ) (in_cycle : Bool)
    → ((risk_score m a t s in_cycle).0 ≤ 100)
      × ((1 ≤ rank (risk_score m a t s in_cycle).1) ↔ (25 ≤ (risk_score m a t s in_cycle).0))
      × ((2 ≤ rank (risk_score m a t s in_cycle).1) ↔ (50 ≤ (risk_score m a t s in_cycle).0))
      × ((3 ≤ rank (risk_score m a t s in_cycle).1) ↔ (75 ≤ (risk_score m a t s in_cycle).0))
unfolding risk_score
risk_score_bands m a t s in_cycle = ground arith
