-- ===== src/Mcu/State.antt =====
-- The Pipeline of signaling/mcu/pipeline.go as a record; nil handlers are `registered = false`.
use kwmserver.Base.{ℕ, String, Bool, Ptr}

-- A *time.Timer field: nil, a timer that will fire, or one that was stopped and is still set.
pub data Timer : Type 0 where
  unset armed stopped : Timer

pub record Pipeline : Type 0 where
  pub plugin : String
  pub handle : ℕ
  pub id : String
  pub registered : Bool
  pub connecting : Bool
  pub closed : Bool
  pub reconnector : Timer
  pub watcher : Timer
  pub connection : Ptr
