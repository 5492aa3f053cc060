-- ===== src/Jobs/Attempts.antt =====
-- How often a job is run.
use stackhouse.Prelude.{
  ℕ, ◌≤◌, ◌<◌, ◌≡◌, subst, Bool, true, false, ◌||◌, Option, some, List, [], ◌∷◌, arith,
  if◌then◌else◌, leb, All, Bool-cases, Option-cases, inl, inr,
}
use stackhouse.Prelude.Text.{Text, text_eq}
use stackhouse.Prelude.Assoc.{get, insert, get-insert_self}
use stackhouse.Json.{Value}
use stackhouse.Jobs.Choice.{next_due-IsChosen}
use stackhouse.Jobs.{
  JobStatus, Job, Jobs, Outcome, done, broken, JobHandler, is_pending, is_retrying, next_due,
  started, update, handler_payload, run_handlers, completed_with, failed_with, retried_with, finish,
  process_next_job, requeue, cancel, new_job, enqueue,
}

-- A job that waits has an attempt left, and no job has more attempts than it may.
abbrev pub IsSound : Job → Type 0
IsSound job =
    (job.attempts ≤ job.max_attempts)
    × ((is_pending job.status || is_retrying job.status) ≡ true → job.attempts < job.max_attempts)

abbrev pub AllSound : Jobs → Type 0
AllSound jobs = All (λ e. IsSound e.1) jobs

-- What the clients and the worker do.
pub data Reachable : Jobs → Type 0 where
  empty : Reachable []
  enqueued :
      (refused : Bool) (id : Text) (tenant_id : ℕ) (queue job_type : Text) (payload : Value)
      (priority : ℕ) (scheduled_for : Option ℕ) (now : ℕ) (jobs : Jobs)
      → Reachable jobs
      → Reachable
          (enqueue refused id tenant_id queue job_type payload priority scheduled_for now jobs).1
  processed :
      (parse : Text → Option Value) (handlers : List JobHandler) (now : ℕ) (jobs : Jobs)
      → Reachable jobs
      → Reachable (process_next_job parse handlers now jobs)
  requeued : (id : Text) (jobs : Jobs) → Reachable jobs → Reachable (requeue id jobs)
  stopped : (id : Text) (jobs : Jobs) → Reachable jobs → Reachable (cancel id jobs)

insert-AllSound :
    (id : Text) (job : Job) (jobs : Jobs)
    → IsSound job
    → AllSound jobs
    → AllSound (insert id job jobs)
unfolding insert
insert-AllSound id job [] p h = (p, tt)
insert-AllSound id job ((j, old) ∷ jobs) p (q, h) = elim (Bool-cases (text_eq j id)) [
  | inl e ↦ rw e (p, h)
  | inr e ↦ rw e (q, insert-AllSound id job jobs p h)
]

get-IsSound :
    (id : Text) (job : Job) (jobs : Jobs) → AllSound jobs → get id jobs ≡ some job → IsSound job
unfolding get
get-IsSound id job [] h e = cc
get-IsSound id job ((j, other) ∷ jobs) (p, h) e = elim (Bool-cases (text_eq j id)) [
  | inl same ↦ subst IsSound {x = other} {y = job} (cc (same, e)) p
  | inr differs ↦ get-IsSound id job jobs h (cc (differs, e))
]

update-AllSound :
    (id : Text) (change : Job → Job) (jobs : Jobs)
    → ((job : Job) → IsSound job → IsSound (change job))
    → AllSound jobs
    → AllSound (update id change jobs)
update-AllSound id change jobs keeps h = elim (Option-cases (get id jobs)) [
  | inl gone ↦ rw (gone, update) h
  | inr (job, found) ↦
      rw (found, update)
        (insert-AllSound id (change job) jobs (keeps job (get-IsSound id job jobs h found)) h)
]

-- The row that is taken waits and is sound.
next_due-IsSound :
    (now : ℕ) (jobs : Jobs) (id : Text) (job : Job)
    → AllSound jobs
    → next_due now jobs ≡ some (id, job)
    → job.attempts < job.max_attempts
next_due-IsSound now jobs id job h e =
    let (sound, (due, first)) = next_due-IsChosen (λ x. IsSound x.1) now jobs (id, job) h e in
    sound.1 (ground arith)

finish-AllSound :
    (id : Text) (job : Job) (outcome : Outcome) (jobs : Jobs)
    → AllSound jobs
    → get id jobs ≡ some job
    → AllSound (finish id job outcome jobs)
unfolding finish
finish-AllSound id job (done output) jobs h found =
    update-AllSound id (completed_with output) jobs (λ j p. (p.0, λ k. cc)) h
finish-AllSound id job (broken e) jobs h found =
    elim (Bool-cases (leb job.max_attempts job.attempts)) [
      | inl over ↦
          rw (over, finish) (update-AllSound id (failed_with e) jobs (λ j p. (p.0, λ k. cc)) h)
      | inr left ↦
          rw (left, finish, found, update)
            (insert-AllSound id (retried_with e job) jobs (ground arith, λ k. ground arith) h)
    ]

enqueue-AllSound :
    (refused : Bool) (id : Text) (t : ℕ) (q ty : Text) (payload : Value) (p : ℕ) (due : Option ℕ)
    (now : ℕ) (jobs : Jobs)
    → AllSound jobs
    → AllSound (enqueue refused id t q ty payload p due now jobs).1
unfolding enqueue
enqueue-AllSound true id t q ty payload p due now jobs h = h
enqueue-AllSound false id t q ty payload p due now jobs h =
    insert-AllSound id (new_job t q ty payload p due now) jobs (omega arith, λ k. omega arith) h

process_next_job-AllSound :
    (parse : Text → Option Value) (handlers : List JobHandler) (now : ℕ) (jobs : Jobs)
    → AllSound jobs
    → AllSound (process_next_job parse handlers now jobs)
unfolding process_next_job
process_next_job-AllSound parse handlers now jobs h = elim (Option-cases (next_due now jobs)) [
  | inl idle ↦ rw (idle, process_next_job) h
  | inr ((id, job), found) ↦
      let left = next_due-IsSound now jobs id job h found in
      rw (found, process_next_job)
        (finish-AllSound id (started job)
          (run_handlers handlers job.job_type (handler_payload parse job.payload))
          (insert id (started job) jobs)
          (insert-AllSound id (started job) jobs (omega (arith, left), λ k. cc) h)
          (get-insert_self id (started job) jobs))
]

requeue-AllSound : (id : Text) (jobs : Jobs) → AllSound jobs → AllSound (requeue id jobs)
unfolding requeue
requeue-AllSound id jobs h =
    update-AllSound id
      (λ job. if is_retrying job.status then record job { status = JobStatus.pending } else job)
      jobs
      (λ job p. elim (Bool-cases (is_retrying job.status)) [
        | inl e ↦ rw e (p.0, λ k. p.1 (ground arith))
        | inr e ↦ rw e p
      ])
      h

cancel-AllSound : (id : Text) (jobs : Jobs) → AllSound jobs → AllSound (cancel id jobs)
unfolding cancel
cancel-AllSound id jobs h =
    update-AllSound id
      (λ job.
        if is_pending job.status || is_retrying job.status
        then record job { status = JobStatus.cancelled }
        else job)
      jobs
      (λ job p. elim (Bool-cases (is_pending job.status || is_retrying job.status)) [
        | inl e ↦ rw e (p.0, λ k. cc)
        | inr e ↦ rw e p
      ])
      h

-- In every table that is reached from the empty one, no job has been run more often than its
-- `max_attempts`, and a job that waits or is to be retried has been run less often, whatever the
-- handlers answer.
pub Reachable-AllSound : (jobs : Jobs) → Reachable jobs → AllSound jobs
Reachable-AllSound _ empty = tt
Reachable-AllSound _ (enqueued refused id t q ty payload p due now jobs r) =
    enqueue-AllSound refused id t q ty payload p due now jobs (Reachable-AllSound jobs r)
Reachable-AllSound _ (processed parse handlers now jobs r) =
    process_next_job-AllSound parse handlers now jobs (Reachable-AllSound jobs r)
Reachable-AllSound _ (requeued id jobs r) = requeue-AllSound id jobs (Reachable-AllSound jobs r)
Reachable-AllSound _ (stopped id jobs r) = cancel-AllSound id jobs (Reachable-AllSound jobs r)
