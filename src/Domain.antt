-- ===== src/Domain.antt =====
-- Values that several tables share: internal/domain/models.go.
pub mod Credit
pub mod Access
pub mod Cloud
pub mod Registration
use walnut_billing.Prelude.{ℕ, String}

-- An instant (`time.Time` in UTC), in nanoseconds after Go's zero time.
abbrev pub Time : Type 0
Time = ℕ

pub data UserStatus : Type 0 where
  active disabled : UserStatus

pub record User : Type 0 where
  pub id : String
  pub email : String
  pub display_name : String
  pub status : UserStatus
  pub created_at : Time
  pub updated_at : Time
