-- ===== src/Lib.antt =====
-- Japan_Agent: the path of a trade from a research decision to one order at the broker, and
-- the paper ledger of the prediction agent.
--
-- A research decision (untrusted output of a language model) becomes a trade ticket through
-- the risk engine; the approval service stores the ticket as a proposal, on which a human
-- decides by its hash; the execution service checks environment, approval, quote, portfolio
-- and risk again, claims the execution of the proposal in the database and sends one order,
-- whose outcome it writes to the tables and to a hash-chained ledger of events.
--
-- Files, and the code under src/japan_agent that they model:
--   Base           helpers: results, state with exceptions, tables by key, integers, text, and
--                  decimals. Decimal is Python's decimal.Decimal without special values: an
--                  integer coefficient and a number of places, rounded to 28 digits half-even.
--                  The limits of the exponent and the sign of a zero are not modelled,
--                  nor is the exponent that Python gives an exact quotient: it has the same value
--                  here, with the zeros that Python takes off. Base.Text
--                  has upper() on ASCII letters, and strip().
--   Time           time.py. An instant is a number of microseconds since 0001-01-01T00:00:00Z.
--   Models         models.py: the enumerations and records, Portfolio.nav_gbp and
--                  Portfolio.position, the checks of ResearchDecision.from_dict and
--                  TradeTicket.__post_init__.
--   Risk           risk/engine.py. Risk.Policy has RiskPolicy and what both methods share,
--                  Risk.Build is ProposalBuilder.build, Risk.Validate is
--                  ProposalBuilder.validate_execution. The violations are collected in the order
--                  of the code, as a list of tests with their codes.
--   Storage        storage.py. Storage.Rows has the tables and their rows, Storage.Ledger has
--                  append_event and verify_event_chain, Storage.Proposals and Storage.Executions
--                  have the operations on the two tables. Each operation runs in one transaction
--                  of SQLite, so it is one function on the state. Storage.Iso is isoformat
--                  (time.py), whose texts the database compares.
--   Approval       approve/service.py: submit, approve, reject. Approval.Telegram is handle_update
--                  of approve/telegram.py.
--   Execution      execute/service.py. Execution.Gate is assert_environment_allowed, LiveGate
--                  and Settings.load_whitelist (config.py); Execution.Preflight has the checks of
--                  execute; Execution.Submit has the claim, the order and the settling of the
--                  reply; Execution.Reconcile is reconcile. Execution.Broker is what
--                  Trading212Client (execute/t212.py) makes of an answer, with the
--                  exceptions of json.loads that it does not catch.
--   Predict        the paper ledger of src/predict_agent. Predict.Outcome is the outcome of a
--                  resolution row and its check against Gamma (resolution.py);
--                  Predict.Observation is governing_observation and final_outcome
--                  (settlement.py); Predict.Ledger has the tables and the journal
--                  (ledger_schema.py, db.py), one row record for each table in
--                  Predict.Ledger.Rows; Predict.Money and Predict.Cash are cash.py;
--                  Predict.Settlement is settle_open_tickets (settlement.py);
--                  Predict.Forecasts is forecasts.py: the checks of a forecast, its children
--                  Attempts, Record, Write, Baseline, Attach and Resume the operations;
--                  Predict.Budget is budget.py; Predict.Fills is fills.py; Predict.Gamma and
--                  Predict.Params are fee_rate (gamma.py) and PolicyParams (policy_params.py);
--                  Predict.Policy and Predict.Policy.Decide are policy.py, and
--                  Predict.Params.Parse reads a policy; Predict.Cohorts is cohorts.py, with
--                  ensure_cohort in its child Ensure; Predict.Paper and its children
--                  Decide and Trade are paper.py; Predict.Tickets
--                  has the checks of tickets.py, its children Open and Refuse the operations.
--                  The policy turns a forecast and the books of its baseline into a trade,
--                  whose walk gives the fills of a ticket; the ticket debits the cash that
--                  its settlement credits.
--
-- The world of the execution service is the database and the list of the orders that were sent;
-- each order carries the proposal it was sent for, which the program does not record. What comes
-- from outside is an argument: answers of the broker, uuids, the time, what the files of the
-- gate and the whitelist parse to. Parameters are the fingerprint of a ticket (SHA-256 of its
-- JSON) and the hashes of events, cash entries, journal entries, paper tickets and forecasts
-- (SHA-256 of the JSON of their fields), and the ids of cohorts and portfolios; nothing is
-- assumed of them. Texts in JSON are taken as parsed. JSON that is written and read back is taken to be the same value.
--
-- All loops of the code are over lists that are given, so there is no fuel but in the count and
-- the text of the digits of a decimal, where the number itself is enough. The start of the last
-- seven days is the first instant where Python would overflow.
--
-- In the ledger of predict_agent a row id is one more than the number of rows, as AUTOINCREMENT
-- gives it where no row is deleted. Foreign keys and triggers of the schema, which would abort
-- statements that the code does not make, are left out; the unique keys are checked, but for that of
-- the hashes in the journal, which only two entries of one hash would violate.
--
-- Not modelled: the files and HTTP clients, the transports of Telegram, ingest, research and the
-- command line of japan_agent; of predict_agent, the collection of data, the checks of
-- invariants.py, the research runs, the scores and the reports.
pub mod Base
pub mod Time
pub mod Models
pub mod Risk
pub mod Storage
pub mod Approval
pub mod Execution
pub mod Predict
