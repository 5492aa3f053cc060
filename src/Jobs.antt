-- ===== src/Jobs.antt =====
-- src/compute/jobs.rs: the queue of background jobs. The table is a map by the key `id`; each statement on it is
-- a function, and one call of the worker runs alone. Priorities are `p + 2 ^ 31` for `p : i32`; instants are
-- numbers, and times that nothing reads are left out.
pub mod Attempts
pub mod Choice
mod Tests
use stackhouse.Prelude.{
  ℕ, ◌+◌, ◌*◌, Bool, true, false, not, ◌&&◌, ◌||◌, Option, none, some, List, [], ◌∷◌, if◌then◌else◌,
  ltb, leb, ◌==◌,
}
use stackhouse.Prelude.Text.{Text, codes, text_eq}
use stackhouse.Prelude.Assoc.{Assoc, get, insert}
use stackhouse.Json.{Value, string, object, field, end}
use stackhouse.Errors.{Result, ok, err, database}

pub data JobStatus : Type 0 where
  pending running completed failed cancelled retrying : JobStatus

-- A row of `stackhouse_background_jobs`, without its key.
pub record Job : Type 0 where
  pub tenant_id : ℕ
  pub queue : Text
  pub job_type : Text
  pub payload : Value
  pub priority : ℕ
  pub status : JobStatus
  pub result : Option Value
  pub error : Option Text
  pub attempts : ℕ
  pub max_attempts : ℕ
  pub scheduled_for : Option ℕ
  pub created_at : ℕ

abbrev pub Jobs : Type 0
Jobs = Assoc Job

-- `Result<Value, String>` of a handler.
pub data Outcome : Type 0 where
  done : Value → Outcome
  broken : Text → Outcome

-- `struct JobHandler`
pub record JobHandler : Type 0 where
  pub job_type : Text
  pub callback : Value → Outcome

abbrev pub is_pending : JobStatus → Bool
is_pending JobStatus.pending = true
is_pending _ = false

abbrev pub is_retrying : JobStatus → Bool
is_retrying JobStatus.retrying = true
is_retrying _ = false

-- `scheduled_for IS NULL OR scheduled_for <= NOW()`
abbrev pub is_due : ℕ → Job → Bool
is_due now job =
    is_pending job.status && elim job.scheduled_for [ none ↦ true | some t ↦ leb t now ]

-- `ORDER BY priority DESC, created_at`: whether a job stands before another.
abbrev pub is_before : Job → Job → Bool
is_before a b =
    ltb b.priority a.priority || (a.priority == b.priority && leb a.created_at b.created_at)

abbrev pub first_of : Text × Job → Option (Text × Job) → Option (Text × Job)
first_of e none = some e
first_of e (some best) = if is_before e.1 best.1 then some e else some best

-- The row that the worker takes next.
unfoldable pub next_due : ℕ → Jobs → Option (Text × Job)
next_due now [] = none
next_due now (e ∷ jobs) =
    let best = next_due now jobs in if is_due now e.1 then first_of e best else best

abbrev pub started : Job → Job
started job = record job { status = JobStatus.running; attempts = job.attempts + 1 }

-- `UPDATE … WHERE id = ?`
abbrev pub update : Text → (Job → Job) → Jobs → Jobs
update id change jobs = elim (get id jobs) [ none ↦ jobs | some job ↦ insert id (change job) jobs ]

-- What the handler is given: the column as a text, parsed.
abbrev pub handler_payload : (Text → Option Value) → Value → Value
handler_payload parse (string t) = elim (parse t) [ none ↦ object end | some v ↦ v ]
handler_payload parse _ = elim (parse (codes "{}")) [ none ↦ object end | some v ↦ v ]

-- The first handler for the type.
unfoldable pub run_handlers : List JobHandler → Text → Value → Outcome
run_handlers [] job_type payload = done (
    object (
      field (codes "status") (string (codes "completed")) (
        field (codes "note") (string (codes "no handler registered"))
          (field (codes "job_type") (string job_type) end))))
run_handlers (h ∷ handlers) job_type payload =
    if text_eq h.job_type job_type || text_eq h.job_type (codes "*")
    then h.callback payload
    else run_handlers handlers job_type payload

abbrev pub completed_with : Value → Job → Job
completed_with output job = record job { status = JobStatus.completed; result = some output }

abbrev pub failed_with : Text → Job → Job
failed_with e job = record job { status = JobStatus.failed; error = some e }

abbrev pub retried_with : Text → Job → Job
retried_with e job = record job { status = JobStatus.retrying; error = some e }

-- The end of a run, with the attempts that the worker read.
unfoldable pub finish : Text → Job → Outcome → Jobs → Jobs
finish id job (done output) jobs = update id (completed_with output) jobs
finish id job (broken e) jobs =
    if leb job.max_attempts job.attempts
    then update id (failed_with e) jobs
    else update id (retried_with e) jobs

-- One call of the worker, up to the pause before a retry.
unfoldable pub process_next_job : (Text → Option Value) → List JobHandler → ℕ → Jobs → Jobs
unfolding next_due run_handlers finish
process_next_job parse handlers now jobs = elim (next_due now jobs) [
  | none ↦ jobs
  | some (id, job) ↦
      finish id (started job)
        (run_handlers handlers job.job_type (handler_payload parse job.payload))
        (insert id (started job) jobs)
]

-- After the pause.
unfoldable pub requeue : Text → Jobs → Jobs
requeue id jobs =
    update id
      (λ job. if is_retrying job.status then record job { status = JobStatus.pending } else job)
      jobs

unfoldable pub cancel : Text → Jobs → Jobs
cancel id jobs =
    update id
      (λ job.
        if is_pending job.status || is_retrying job.status
        then record job { status = JobStatus.cancelled }
        else job)
      jobs

abbrev pub new_job : ℕ → Text → Text → Value → ℕ → Option ℕ → ℕ → Job
new_job tenant_id queue job_type payload priority scheduled_for now = record {
  tenant_id = tenant_id;
  queue = queue;
  job_type = job_type;
  payload = payload;
  priority = priority;
  status = JobStatus.pending;
  result = none;
  error = none;
  attempts = 0;
  max_attempts = 3;
  scheduled_for = scheduled_for;
  created_at = now;
}

-- `refused` tells whether the store refuses the row.
unfoldable pub enqueue :
    Bool → Text → ℕ → Text → Text → Value → ℕ → Option ℕ → ℕ → Jobs → Result Job × Jobs
enqueue refused id tenant_id queue job_type payload priority scheduled_for now jobs =
    if refused
    then (err (database "Execute failed: {}"), jobs)
    else let job = new_job tenant_id queue job_type payload priority scheduled_for now in
      (ok job, insert id job jobs)
