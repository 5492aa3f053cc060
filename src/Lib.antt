-- ===== src/Lib.antt =====
-- Stackhouse is a database backend whose tables grow with the JSON payloads sent to it. Paths are from
-- the repository's root.
--
-- The parts that are modelled, and how they meet:
--
-- * Inference (src/inference.rs): a payload becomes a list of columns with PostgreSQL types, a batch
--   one unified list (`infer_schema`, `infer_batch_schema`). Child modules: Lattice on `common_type` and
--   `can_promote_to`, Casts on SQL names, Schema on one payload, Batch on many.
-- * Guard (src/security/guard.rs): `SchemaGuard` compares the columns asked for with those of the table
--   (Guard/Plan), checks names (Guard/Identifier), the cap on columns and the churn limit (Guard/Churn), and
--   carries the change out in one transaction (Guard/Evolve: `ensure_schema`, `ensure_columns`,
--   `ensure_batch_columns`). Guard/Tables has the cache, `ensure_table`, the older single changes, statistics
--   and previews. Guard/Expression is the check of row-level-security expressions.
-- * Waf (src/security/waf.rs): the web application firewall in front of the routes: Waf/Config, the token
--   buckets in Waf/Tokens, Waf/Reputation, the checks in Waf/Service (`check_request`), the middleware in
--   Waf/Http.
-- * Errors (src/platform/error.rs): the error type of all operations; an error carries the format
--   string of its message in place of the text. Errors/Response has the HTTP response of an error.
-- * Billing/Entitlements (src/billing/entitlements.rs) and Billing/Experiments (src/billing/experiments.rs,
--   and `validate_traffic_weights` of src/billing/validators.rs): who is granted an entitlement, and which
--   variant of an experiment a customer sees.
-- * Realtime/Presence (src/realtime/presence.rs) and Realtime/Broadcast (src/realtime/broadcast.rs): users in
--   channels, and the history of a channel's messages.
-- * Workflows (src/compute/workflows.rs): Workflows/Types has the data and the changes of a run's state, Workflows/Steps
--   `execute_step`, Workflows/Dag `start_run` and `execute_dag`. Status, Status/Totality and Ending prove that steps
--   move out of `Pending`; Runs and Cancelled have what becomes of a run, Gone that a run which is not
--   active stays so, Nested a workflow that starts itself.
-- * Storage/Tus (src/storage/tus.rs): resumable uploads, with the protocol's handlers in Storage/Tus/Http. Consistency
--   has the states that are reached, Retry a patch that is sent again, Replies what clients read.
-- * Abac (src/security/abac.rs): access rules by attributes. Abac/Types has the data, Conditions and Cidr the conditions,
--   Matching `matches_policy`, Decision `evaluate`, Rows the policies as the table gives them. Verdicts and Stored
--   are about decisions.
-- * Cron (src/platform/scheduler.rs): cron expressions. Steps has the loop of a step, Bounds the values of a field, Every the
--   expression that always matches.
-- * Jobs (src/compute/jobs.rs): the queue of background jobs. Attempts has how often a job is run, Choice which one is taken.
-- * Network (src/security/network.rs): the allow list of addresses and its middleware; Admission has who is let through.
-- * Rbac (src/auth/rbac.rs): roles and their inheritance. Inheritance has what a role collects from the roles above it,
--   Access what becomes of the stored assignments.
-- * Replicas (src/platform/replicas.rs): the nodes in memory. Routing has where a read goes, Failover a promotion that
--   fails.
--
-- Shared modules: Prelude (tests, lists and texts over native numbers, maps with text keys as
-- association lists), Json (serde_json values), Floats (f64).
--
-- State is passed explicitly: an operation takes the service's record and returns its answer with the
-- next record. A text is its list of code points. Upper and lower case are those of ASCII; where a text
-- with other letters reaches such a test, the comment of the module says why the answer is the same.
-- Instants and clock readings are arguments.
--
-- Parameters: PostgreSQL, its driver and the migration history (record `Catalog`), the regex crate's
-- `is_match`, f64 (record `Float`, with `FloatLaws` where a proof needs laws of its arithmetic), the parsers of addresses
-- and of JSON that access rules use, and the answers of the outside where a component calls it.
--
-- The workflows run on three kinds of fuel: how deep workflows start one another, of which a workflow
-- that starts no other needs one level; the depth of parallel groups, for which `nests_within` tells whether it is enough; and the rounds
-- over the steps, of which one more than there are steps is enough. The
-- loop of a step in a cron expression runs on fuel as well, since not every field ends it; where the step is positive and
-- does not leave `u8`, more fuel than there are numbers from the start to the end is enough. What a role collects from
-- the roles above it counts down the limit on the depth that the code itself has. All other recursion is structural.
--
-- Not modelled: locks and the interleaving of calls within one process, log lines, HTTP routing, and
-- the components that the repository's other directories hold, which mostly call external services.
mod Prelude
pub mod Json
pub mod Errors
pub mod Inference
pub mod Guard
pub mod Floats
pub mod Waf
pub mod Billing
pub mod Realtime
pub mod Replicas
pub mod Workflows
pub mod Storage
pub mod Abac
pub mod Cron
pub mod Jobs
pub mod Network
pub mod Rbac
