-- ===== src/Storage/Rows.antt =====
-- The rows of the tables `proposals` and `executions` of japan_agent/storage.py, and the state of
-- the database. A ticket is stored as its JSON and read back as the same ticket.
use japan_agent.Base.{ℕ, Bool, Option, List, [], String}
use japan_agent.Base.Decimal.{Decimal}
use japan_agent.Base.Table.{Table}
use japan_agent.Time.{Instant}
use japan_agent.Models.Enums.{ProposalStatus}
use japan_agent.Models.Ticket.{TradeTicket}
use japan_agent.Storage.Ledger.{Event}

-- What `get_proposal` reads, with the expiry column.
pub record ProposalRow : Type 0 where
  pub ticket : TradeTicket
  pub status : ProposalStatus
  pub ticket_hash : String
  pub expires_at : Instant
  pub approved_by : Option String
  pub approved_at : Option Instant
  pub rejection_reason : Option String

-- The states that the program writes to `executions`.
pub data ExecutionState : Type 0 where
  claimed submitted unknown filled failed : ExecutionState

-- A quantity that the broker reports, read by `Decimal(str(reported))` or unreadable.
pub data Reported : Type 0 where
  number : Decimal → Reported
  unreadable : Reported

-- The keys that the program reads of an order of the broker; texts are after `str`, and
-- `extended_hours` says whether the value is neither absent nor false.
pub record BrokerOrder : Type 0 where
  pub id : Option String
  pub ticker : Option String
  pub side : Option String
  pub quantity : Option Reported
  pub extended_hours : Bool
  pub status : String

pub record OrderRequest : Type 0 where
  pub ticker : String
  pub quantity : Decimal
  pub extended_hours : Bool
  pub approved_ticket_hash : String

-- The texts that the execution service stores as errors.
pub data ErrorText : Type 0 where
  rejected_with : ℕ → ErrorText
  transport_uncertain response_mismatch : ErrorText

pub record ExecutionRow : Type 0 where
  pub state : ExecutionState
  pub request : OrderRequest
  pub response : Option BrokerOrder
  pub broker_order_id : Option String
  pub submitted_at : Option Instant
  pub updated_at : Instant
  pub error : Option ErrorText

-- The payloads of the events that the approval and the execution service append.
pub data Payload : Type 0 where
  proposal_created : TradeTicket → String → Payload
  proposal_approved : String → String → Instant → Payload
  proposal_rejected : String → String → String → Payload
  order_rejected : ℕ → String → Payload
  reconciliation : ErrorText → String → Payload
  order_submitted : String → String → Decimal → String → Payload
  order_status : String → String → Payload

pub record Database : Type 0 where
  pub proposals : Table ProposalRow
  pub executions : Table ExecutionRow
  pub events : List (Event Payload)

abbrev pub empty_database : Database
empty_database = record { proposals = []; executions = []; events = [] }

pub data DbError : Type 0 where
  integrity_error proposal_not_found already_decided hash_mismatch proposal_expired : DbError
  execution_not_found : DbError
