-- ===== src/Models/Enums.antt =====
-- The enumerations of japan_agent/models.py.
use japan_agent.Base.{Bool, true, false, String}

pub data Action : Type 0 where
  buy sell hold : Action

pub data Sleeve : Type 0 where
  core satellite frontier : Sleeve

pub data ProposalStatus : Type 0 where
  pending approved rejected expired submitted filled failed reconciliation_required : ProposalStatus

-- `action is Action.BUY`, and so on
abbrev pub is_buy : Action → Bool
is_buy buy = true
is_buy _ = false

abbrev pub is_sell : Action → Bool
is_sell sell = true
is_sell _ = false

abbrev pub is_hold : Action → Bool
is_hold hold = true
is_hold _ = false

-- `sleeve in {Sleeve.SATELLITE, Sleeve.FRONTIER}`
abbrev pub is_capped_sleeve : Sleeve → Bool
is_capped_sleeve core = false
is_capped_sleeve _ = true

-- The text of a StrEnum member.
abbrev pub action_value : Action → String
action_value buy = "BUY"
action_value sell = "SELL"
action_value hold = "HOLD"

abbrev pub is_pending : ProposalStatus → Bool
is_pending pending = true
is_pending _ = false
