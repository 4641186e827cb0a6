-- ===== src/Lib.antt =====
-- A verification library for the backend of Techo Quant Options Pro (backend/src/teco_quant), an
-- options-trading service: market data in, signals out, and trades behind explicit safety gates.
--
-- Parts and files.
-- - Prelude: the shared names, tests, lists, rows of tables, integers. Text, Decimal, Float, Time:
--   what the code uses of Python's str, decimal.Decimal, float and datetime. Exec: methods that
--   change an object and may raise; Exec/Triple are contracts of them, Exec/Results is for those
--   that only raise.
-- - Domain (domain/): Enums and Models are enums.py and models.py, Overrides the manual overrides,
--   Clock the differences of datetimes. Strategy (strategy/spec.py): Config and Default the policy,
--   Scores, Decision and Sizing its rules; Decision/Gates says when a decision is a BUY.
-- - Validation (ingestion/validation.py): one module for each group of checks (Envelope, Contract,
--   State, Quote, Reference, Chain), Snapshot for the whole. Its Sound modules say what an accepted
--   report guarantees.
-- - Signals (signals/): Evidence, Greeks, Factors, Candidates score the quotes, Plans drafts the plan,
--   Pipeline decides, Adapters makes an execution plan; Decimals holds decimal operations that raise.
--   Bounds and Sound hold the proofs.
-- - Automation (automation/): History is the table of evaluations, Service runs the pipeline, the
--   history and the execution controller one after the other; Sound and Once relate them.
-- - Execution (execution/): Errors and Models are errors.py and models.py, Models/Stored the dict of a
--   stored plan; Ledger is ledger.py, the
--   SQLite store, with a list of rows for each table; Paper is paper.py; Controller is controller.py,
--   the gates and the state machine of a signal. Ledger/Consistency, Ledger/Retention and the modules
--   of Controller from Sound on hold the proofs.
-- - Backtest (backtesting/): Models and Models/Checks are models.py; Fills, Engine, Entries and Run
--   are engine.py, the replay as a fold over frames; Metrics is metrics.py. Sound and its children
--   prove what a replay keeps.
--
-- How the model reads the code.
-- - A method is an action on the object's state that returns or raises; a raise keeps what was
--   written, and `transaction` rolls back, as `_transaction` does.
-- - Decimals are exact coefficients and places, and arithmetic rounds half-even to 28 digits. Values
--   alone are kept, so the texts that SQLite stores are the values that they parse to.
-- - A float is a binary64 value, exact as a decimal, and its arithmetic rounds half-even to 53 bits;
--   its exponent is not bounded. `sum` adds from the left (from Python 3.12 on, it compensates).
-- - In the scoring of a candidate (Signals/Evidence, Greeks, Factors, Candidates) a comparison with a
--   decimal NaN, an invalid operation on infinities and a division by zero raise, as in Python, and
--   `float` of a decimal too small for binary64 is 0.0 where it divides. Everywhere else a comparison
--   with a decimal NaN is false, where Python raises, and arithmetic on an infinite decimal or float
--   answers NaN; no parser of the code lets such a value in.
-- - An issue of the validator is its code, severity and path; a check answers with what it appends.
-- - Times are microseconds; an aware time is its instant. Durations that the policy holds as float
--   seconds are whole microseconds.
-- - A count of contracts is a natural number: the gates refuse a negative one where they refuse 0.
-- - The live gateway is a parameter with a state of its own; SHA-256, `math.log`, `math.sqrt`,
--   `str.upper`, the texts of decimals and times, and the loader of earlier snapshots are
--   parameters. So are the hashes of canonical JSON and the contract key, of which the model needs
--   only that they are functions.
-- - Loops are structural recursion; the digit count takes the number itself as fuel, which is more
--   than its digits.
--
-- Not modelled: network and HTTP (api/, brokers/, server.py, runtime.py), the acquisition and the
-- normalization of market data and its persistence, the analytics (option prices and indicators), and
-- with them the signal service that asks for modelled Greeks; to_backtest_signal, the square-root
-- formulas of strategy/spec.py and the floating-point metrics of a backtest; canonical JSON; locks
-- (each method runs alone), and SQLite's own file handling.
pub mod Prelude
pub mod Text
pub mod Decimal
pub mod Float
pub mod Time
pub mod Exec
pub mod Domain
pub mod Strategy
pub mod Validation
pub mod Signals
pub mod Automation
pub mod Execution
pub mod Backtest
