-- ===== src/Client/Balancer/Picker/Rotation.antt =====
-- The round-robin counter of Pick, over RPCs for one task while its candidates stay the same.
use lumen_sdk.Base.{ℕ, zero, suc, ◌+◌, ◌-◌, leb, if◌then◌else◌}
use lumen_sdk.Base.Text.{Text}
use lumen_sdk.Client.Balancer.State.{SubConnState, Picker}
use lumen_sdk.Client.Balancer.Picker.{pick}

-- The number of steps from `m` to `i` on a circle of `n`.
turns_to : ℕ → ℕ → ℕ → ℕ
turns_to m i n = if leb m i then i - m else i + n - m

-- `clock k` is the time of the RPC number `k`.
module _ (store : ℕ → SubConnState) (task : Text) (clock : ℕ → ℕ) where
  -- The picker after `k` RPCs, all for the task.
  pub after_picks : ℕ → Picker → Picker
  after_picks zero p = p
  after_picks (suc k) p = (pick store (after_picks k p) task (clock k)).0
