-- ===== src/Jobs/Tests.antt =====
-- Tests and instances of the queue.
use stackhouse.Prelude.{
  ℕ, ◌≡◌, ◌≤◌, refl, Bool, true, false, Option, none, some, List, [], ◌∷◌, arith, All,
}
use stackhouse.Prelude.Text.{Text, codes}
use stackhouse.Prelude.Assoc.{get}
use stackhouse.Json.{Value, null, object, field, end, string}
use stackhouse.Jobs.{
  JobStatus, Job, Jobs, broken, JobHandler, new_job, next_due, process_next_job, requeue, enqueue,
  handler_payload,
}
use stackhouse.Jobs.Attempts.{AllSound, empty, enqueued, processed, requeued, Reachable-AllSound}
use stackhouse.Jobs.Choice.{IsChosen, next_due-IsChosen}

abbrev no_parser : Text → Option Value
no_parser t = none

-- A handler that always fails.
abbrev failing : List JobHandler
failing = record { job_type = codes "*"; callback = λ v. broken (codes "boom") } ∷ []

abbrev id : Text
id = codes "j"

abbrev one : Jobs
one = (enqueue false id 1 (codes "default") (codes "mail") null 5 none 0 []).1

-- A run that fails, and the wait before the next.
abbrev round : Jobs → Jobs
round jobs = requeue id (process_next_job no_parser failing 10 jobs)

abbrev status_in : Jobs → Option JobStatus
status_in jobs = elim (get id jobs) [ none ↦ none | some job ↦ some job.status ]

tried_once : status_in (round one) ≡ some JobStatus.pending
unfolding get requeue process_next_job enqueue stackhouse.Prelude.Assoc.insert
tried_once = refl

given_up : status_in (round (round (round one))) ≡ some JobStatus.failed
unfolding get requeue process_next_job enqueue stackhouse.Prelude.Assoc.insert
given_up = refl

-- A payload that is an object comes back from the store as an object, and the handler gets an empty one.
payload_lost :
    handler_payload no_parser (object (field (codes "to") (string (codes "a")) end)) ≡ object end
payload_lost = refl

Reachable-AllSound_example : AllSound (round one)
Reachable-AllSound_example = Reachable-AllSound (round one) (
    requeued id (process_next_job no_parser failing 10 one) (
      processed no_parser failing 10 one
        (enqueued false id 1 (codes "default") (codes "mail") null 5 none 0 [] empty)))

abbrev urgent : Text × Job
urgent = (codes "u", new_job 1 (codes "default") (codes "mail") null 9 none 3)

abbrev later : Text × Job
later = (codes "l", new_job 1 (codes "default") (codes "mail") null 99 (some 50) 0)

abbrev two : Jobs
two = later ∷ (id, new_job 1 (codes "default") (codes "mail") null 5 none 0) ∷ urgent ∷ []

next_due-IsChosen_example : (1 ≤ urgent.1.max_attempts) × IsChosen 10 urgent two
unfolding next_due
next_due-IsChosen_example =
    next_due-IsChosen (λ e. 1 ≤ e.1.max_attempts) 10 two urgent
      (omega arith, (omega arith, (omega arith, tt))) refl
