-- ===== src/Lib.antt =====
-- Unrender: a verification of the core of `unrender/product`, and of `unrender/schema`.
--
-- Unrender turns chart images into tables. Its product is one process over one SQLite database:
-- customers submit charts as jobs and pay one credit for each attempt, workers claim the jobs under
-- leases and call an extraction provider, a webhook adds the credits that were bought, and background
-- tasks recover the jobs of workers that died and delete files that nothing refers to. All of them
-- meet in the database, whose writers are serialised (`BEGIN IMMEDIATE`), so the model is a state
-- `Db` of tables, one function for each transaction, and sequences of transactions in any order and
-- with any arguments.
--
-- Where the code is:
--   Base                 numbers, lists, and tables as association lists on their keys
--   Product/Settings     the limits of `Settings` (unrender/product/config.py)
--   Product/Schema       the tables and their keys (unrender/product/database.py)
--   Product/Tx           `Database.transaction`: a computation that commits or rolls back, the codes
--                        of `ProductError`, and the rules for what a transaction ensures
--   Product/Admission    `_database_row_count`, `_future_terminal_rows`, `_admit_database_rows`,
--                        `_insert_row`
--   Product/Audit        `_audit` and the roll-up of old events
--   Product/Credits      `_change_credits`, the ledger and the balances
--   Product/Budget       unrender/product/dispatch_budget.py
--   Product/Storage      retained bytes, result capacity, result versions, storage reservations and
--                        the deletion queue
--   Product/RateLimit    `rate_limit`
--   Product/Jobs         Updates has the SET and WHERE clauses of the statements on a job, Statements
--                        the statements; Finish, Worker, Dispatch, Requests and Recovery the
--                        transactions; Fencing and Queue what they promise a worker
--   Product/Submission   Requests has the request keys, Capacity the quotas, Submission the transaction
--                        of `create_job`, Create the call as a whole
--   Product/Uploads      `_prepare_staged_upload`, and `prepare_upload_stream` in Streamed
--   Product/Accounts     `_create_user` and `grant_credits`
--   Product/Reachable    the databases that are reached from an empty one
--   Product/Review       Snapshot has `_review_snapshot`, `_assert_review_revision` and `get_job`,
--                        Corrections `save_correction`, `restore_version`, `_store_correction` and
--                        `approve`, Validated `_validate_product_chart`, Exported
--                        `_export_rows`
--   Product/Soundness    the invariant, the proofs that each transaction keeps it, the sequences of
--                        transactions (Reach), and the conservation of credits (Conserved)
--   Chart                unrender/schema: Data is chart_schema.py, Repair, Json and Parse are
--                        validate.py, Csv is json_to_csv.py
--   Examples             a small shop with one customer and one job
-- The functions are those of unrender/product/service.py unless another file is named; a definition
-- has the name of its function, without the leading underscore.
--
-- How the state corresponds: ids, tokens, owners and file paths are numbers, since the code only
-- compares them; times are seconds; hashes and JSON texts are strings. The fresh ids that a
-- transaction draws and its clock readings are arguments; `checked` is the reading of `_claim_row`
-- and `now` stands for the later ones. Amounts are natural numbers, and subtraction stops at 0 only
-- where the source subtracts what it has compared before or clamps with `max`. A table keeps its
-- PRIMARY KEY or its UNIQUE columns as its key. Columns that only feed the display are left out.
-- Python's integers are unbounded, so there is no overflow to model. No definition runs on fuel: the
-- loops run over lists that the transaction has read.
--
-- Code of other libraries is an argument: SHA-256, the JSON encoder and decoder, the validation of
-- pydantic models, the printing of floats, and what Python knows of Unicode. A hypothesis on such an
-- argument states what it is documented to do: SHA-256 gives hexadecimal digits, and no collision is
-- met. That a new id is fresh is a hypothesis where a theorem needs it.
--
-- What is not modelled: sessions, API keys, account challenges and projects, whose rows only count
-- in `others`; submissions through the API; the files that an export writes; the control flow of
-- `process_one` between its transactions, and its heartbeat thread; migrations and file locks; the
-- file system, which is an argument where a result depends on it (the free space, the size of the
-- database, the inspection of staged bytes, and what a copy, a commit or a deletion of a file
-- raises); the web interface, providers, mail and backups; and the research code for training and
-- evaluation.
pub mod Base
pub mod Chart
pub mod Product
pub mod Examples
