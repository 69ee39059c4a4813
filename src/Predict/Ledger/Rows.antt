-- ===== src/Predict/Ledger/Rows.antt =====
-- The rows of the tables of predict_agent/ledger_schema.py, and of those of predict_agent/db.py that
-- the ledger reads. An amount is stored as text and read back as the same decimal; the texts of
-- prompts, policies and transcripts are in the table of artifacts. Columns that the modelled code
-- neither reads nor hashes are left out, and JSON in a column is taken as parsed.
use japan_agent.Base.{ℕ, Bool, true, false, Option, List, String}
use japan_agent.Base.Decimal.{Decimal}
use japan_agent.Time.{Instant}
use japan_agent.Predict.Outcome.{Outcome}
use japan_agent.Predict.Fills.{Fill, AskLevel}
use japan_agent.Predict.Params.Parse.{PolicyJson}
use japan_agent.Predict.Gamma.{FeeSchedule, JsonDecimal}

pub data EntryType : Type 0 where
  funding debit credit : EntryType

abbrev pub same_type : EntryType → EntryType → Bool
same_type funding funding = true
same_type debit debit = true
same_type credit credit = true
same_type _ _ = false

-- What `cash_entry_hash` hashes.
pub record CashCore : Type 0 where
  pub portfolio_id : String
  pub entry_type : EntryType
  pub amount : Decimal
  pub ticket_id : Option ℕ
  pub at : Instant
  pub prev_hash : String

pub record CashEntry : Type 0 where
  pub core : CashCore
  pub entry_hash : String

pub record Portfolio : Type 0 where
  pub cohort_id : String
  pub variant : String
  pub policy_hash : String
  pub starting_bankroll : Decimal

pub data CohortStatus : Type 0 where
  active closed : CohortStatus

-- The frozen cap is what `_frozen_cap` reads of the identity: a decimal text under
-- `research_settings.per_forecast_usd`.
pub record Cohort : Type 0 where
  pub status : CohortStatus
  pub starting_bankroll : Decimal
  pub baseline_window_seconds : ℕ
  pub frozen_cap : JsonDecimal
  pub code_version : String
  pub started_at : Instant
  pub closed_at : Option Instant

pub data ForecastKind : Type 0 where
  entry update : ForecastKind

abbrev pub is_entry : ForecastKind → Bool
is_entry entry = true
is_entry update = false

pub data AttemptStatus : Type 0 where
  started succeeded failed : AttemptStatus

abbrev pub is_started : AttemptStatus → Bool
is_started started = true
is_started succeeded = false
is_started failed = false

pub record Attempt : Type 0 where
  pub attempt_id : ℕ
  pub cohort_id : String
  pub condition_id : String
  pub kind : ForecastKind
  pub started_at : Instant
  pub status : AttemptStatus
  pub finished_at : Option Instant
  pub cost_usd : Option Decimal
  pub error : Option String

-- The body of a forecast: whether its fields have the types of BODY_FIELDS, and its JSON text.
pub record ForecastBody : Type 0 where
  pub evidence_is_list : Bool
  pub interpretation_is_text : Bool
  pub flags_are_list : Bool
  pub json : String

-- The arguments of `record_forecast`.
pub record ForecastRecord : Type 0 where
  pub attempt_id : ℕ
  pub cohort_id : String
  pub condition_id : String
  pub rules_hash : String
  pub kind : ForecastKind
  pub abstained : Bool
  pub abstain_reason : Option String
  pub p_low : Option Decimal
  pub p_mid : Option Decimal
  pub p_high : Option Decimal
  pub confidence : Option String
  pub base_rate : Option Decimal
  pub body : ForecastBody
  pub research_input_hash : String
  pub transcript_hash : String
  pub cost_usd : Decimal

pub record Forecast : Type 0 where
  pub forecast_id : ℕ
  pub values : ForecastRecord
  pub created_at : Instant
  pub forecast_hash : String

-- Both snapshots, or the reason that there are none.
pub data BaselineSides : Type 0 where
  snapshots : ℕ → ℕ → BaselineSides
  no_baseline : String → BaselineSides

pub record Baseline : Type 0 where
  pub forecast_id : ℕ
  pub sides : BaselineSides
  pub attached_at : Instant

pub data TicketStatus : Type 0 where
  opened settled : TicketStatus

-- The columns that `ticket_hash` hashes; the direction is always BUY.
pub record TicketCore : Type 0 where
  pub portfolio_id : String
  pub forecast_id : ℕ
  pub snapshot_id : ℕ
  pub condition_id : String
  pub outcome : Outcome
  pub shares : Decimal
  pub fills : List Fill
  pub fee : Decimal
  pub cost_total : Decimal
  pub policy_hash : String
  pub rules_hash : String
  pub created_at : Instant

pub record PaperTicket : Type 0 where
  pub ticket_id : ℕ
  pub core : TicketCore
  pub ticket_hash : String
  pub status : TicketStatus

-- A decision that traded has a ticket, and no other has.
pub data DecisionKind : Type 0 where
  traded : ℕ → DecisionKind
  refused : String → DecisionKind
  no_timely_baseline : String → DecisionKind

pub record Decision : Type 0 where
  pub portfolio_id : String
  pub forecast_id : ℕ
  pub condition_id : String
  pub kind : DecisionKind
  pub decided_at : Instant

pub record Settlement : Type 0 where
  pub ticket_id : ℕ
  pub observation_id : ℕ
  pub outcome : Outcome
  pub payout_per_share : Decimal
  pub payout : Decimal
  pub net_pnl : Decimal
  pub rules_hash_at_settlement : String
  pub settled_at : Instant

pub record Market : Type 0 where
  pub event_id : String
  pub category : String
  pub current_rules_hash : String

-- A row of rules_versions, with the end date that its JSON states.
pub record RulesVersion : Type 0 where
  pub condition_id : String
  pub rules_hash : String
  pub end_date : Option Instant

-- A row of book_snapshots, with the book that its JSON records.
pub record Snapshot : Type 0 where
  pub id : ℕ
  pub condition_id : String
  pub outcome : Outcome
  pub fetched_at : Instant
  pub asks : List AskLevel
  pub tick_size : Decimal
  pub min_order_size : Decimal
  pub fees_enabled : Bool
  pub fee_schedule : Option FeeSchedule

pub data RunStatus : Type 0 where
  running completed failed_run : RunStatus

pub record Run : Type 0 where
  pub run_id : String
  pub command : String
  pub started_at : Instant
  pub status : RunStatus

pub record Discovery : Type 0 where
  pub run_id : String
  pub condition_id : String

pub data ArtifactKind : Type 0 where
  prompt policy research_input tool_transcript : ArtifactKind

-- The content of an artifact, and what reading it as the JSON of a policy gives.
pub record Artifact : Type 0 where
  pub kind : ArtifactKind
  pub content : String
  pub policy : PolicyJson
