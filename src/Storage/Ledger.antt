-- ===== src/Storage/Ledger.antt =====
-- The hash-chained event ledger of japan_agent/storage.py: append_event and verify_event_chain.
-- SHA-256 of the canonical JSON of an event's fields is the parameter `hash`.
pub mod Chain
pub mod Tamper
use japan_agent.Base.{
  ℕ, zero, suc, ◌+◌, ◌≡◌, Bool, true, false, ◌||◌, not, Option, List, [], ◌∷◌, ◌++◌, String, str_eq,
  Result, ok, err, any, if◌then◌else◌,
}
use japan_agent.Base.Exec.{Exec}
use japan_agent.Time.{Instant}

-- The fields that are hashed, with the payload as it is stored.
pub record Core (P : Type 0) : Type 0 where
  pub event_id : String
  pub occurred_at : Instant
  pub kind : String
  pub aggregate_id : Option String
  pub payload : P
  pub previous_hash : String

pub record Event (P : Type 0) : Type 0 where
  pub sequence : ℕ
  pub core : Core P
  pub event_hash : String

-- "0" * 64
abbrev pub genesis : String
genesis = "0000000000000000000000000000000000000000000000000000000000000000"

pub data ChainError : Type 0 where
  broken_linkage hash_mismatch : ℕ → ChainError

pub data LedgerError : Type 0 where
  integrity_error : LedgerError

module _ {P : Type 0} where
  -- The hash of the last event, or what stands before the first.
  unfoldable pub last_hash : String → List (Event P) → String
  last_hash previous [] = previous
  last_hash previous (e ∷ es) = last_hash e.event_hash es

  -- AUTOINCREMENT, on a table from which nothing is deleted.
  unfoldable pub next_sequence : ℕ → List (Event P) → ℕ
  next_sequence n [] = n + 1
  next_sequence n (e ∷ es) = next_sequence e.sequence es

  -- The UNIQUE constraints on event_id and event_hash.
  unfoldable pub taken : String → String → List (Event P) → Bool
  taken id hash es = any (λ e. str_eq e.core.event_id id || str_eq e.event_hash hash) es

module _ {P : Type 0} (hash : Core P → String) where
  -- The event that is inserted; `event_id` is the fresh uuid.
  unfoldable pub new_event :
      String → String → Option String → P → Instant → List (Event P) → Event P
  unfolding last_hash next_sequence
  new_event event_id kind aggregate_id payload now events =
      let core : Core P = record {
        event_id = event_id;
        occurred_at = now;
        kind = kind;
        aggregate_id = aggregate_id;
        payload = payload;
        previous_hash = last_hash genesis events;
      } in
      record { sequence = next_sequence 0 events; core = core; event_hash = hash core }

  unfoldable pub append_event :
      String → String → Option String → P → Instant → Exec (List (Event P)) LedgerError (Event P)
  unfolding new_event taken
  append_event event_id kind aggregate_id payload now events =
      let e = new_event event_id kind aggregate_id payload now events in
      if taken event_id e.event_hash events
      then (err integrity_error, events)
      else (ok e, events ++ e ∷ [])

  -- The loop of verify_event_chain, from the previous hash and the count.
  unfoldable pub verify_from : String → ℕ → List (Event P) → Result ChainError ℕ
  verify_from previous count [] = ok count
  verify_from previous count (e ∷ es) =
      let rest = verify_from e.event_hash (count + 1) es in
      if not (str_eq e.core.previous_hash previous)
      then err (broken_linkage e.sequence)
      else if not (str_eq (hash e.core) e.event_hash)
      then err (hash_mismatch e.sequence)
      else rest

  unfoldable pub verify_event_chain : List (Event P) → Result ChainError ℕ
  unfolding verify_from
  verify_event_chain events = verify_from genesis 0 events
