-- ===== src/Scheduler.antt =====
-- apps/agent/src/scheduler.ts: the queue and the lanes of the scheduler, as a state that the calls and
-- the ends of the jobs change. The attempts of a job are no part of it.
pub mod Lanes
use ictt_sentinel.Base.{
  ℕ, zero, suc, ◌+◌, ◌≡◌, Bool, true, false, not, ◌||◌, List, [], ◌∷◌, ◌++◌, Option, none, some,
  map, filter, length, ltb, if◌then◌else◌,
}
use ictt_sentinel.Base.Text.{Text, text_eq}
use ictt_sentinel.Base.Sets.{contains, text_Eq}

pub record Job : Type 0 where
  pub deployment_id : Text
  pub kind : Text

pub data SubmitResult : Type 0 where
  queued duplicate rejected_backpressure rejected_draining : SubmitResult

-- The options that the queue reads.
pub record SchedulerOptions : Type 0 where
  pub max_concurrency : ℕ
  pub queue_limit : ℕ

pub record SchedulerStats : Type 0 where
  pub queued : ℕ
  pub active : ℕ
  pub draining : Bool
  pub rejected_for_backpressure : ℕ
  pub deduplicated : ℕ

-- The fields of `Scheduler`. A promise in flight is the job that it runs.
pub record Scheduler : Type 0 where
  pub queue : List Job
  pub lanes : List Text
  pub queued_keys : List Text
  pub in_flight : List Job
  pub draining : Bool
  pub rejected : ℕ
  pub deduplicated : ℕ

abbrev pub job_key : Job → Text
job_key job = job.deployment_id ++ 32 ∷ job.kind

-- `set.add(value)` and `set.delete(value)`
abbrev pub set_add : List Text → Text → List Text
set_add xs x = if contains xs x then xs else xs ++ x ∷ []

abbrev pub set_delete : List Text → Text → List Text
set_delete xs x = filter (λ y. not (text_eq y x)) xs

abbrev pub new_scheduler : Scheduler
new_scheduler = record {
  queue = [];
  lanes = [];
  queued_keys = [];
  in_flight = [];
  draining = false;
  rejected = 0;
  deduplicated = 0;
}

unfoldable pub stats : Scheduler → SchedulerStats
stats s = record {
  queued = length s.queue;
  active = length s.lanes;
  draining = s.draining;
  rejected_for_backpressure = s.rejected;
  deduplicated = s.deduplicated;
}

-- `submit`
unfoldable pub submit : SchedulerOptions → Job → Scheduler → SubmitResult × Scheduler
submit options job s =
    if s.draining
    then (rejected_draining, s)
    else if contains s.queued_keys (job_key job) || contains s.lanes job.deployment_id
    then (duplicate, record s { deduplicated = s.deduplicated + 1 })
    else if not (ltb (length s.queue) options.queue_limit)
    then (rejected_backpressure, record s { rejected = s.rejected + 1 })
    else (
      queued,
      record s { queue = s.queue ++ job ∷ []; queued_keys = set_add s.queued_keys (job_key job) },
    )

abbrev pub behind : Job → Option (Job × List Job) → Option (Job × List Job)
behind job none = none
behind job (some found) = some (found.0, job ∷ found.1)

-- The first job whose lane is free, and the queue without it.
unfoldable pub take_free : List Text → List Job → Option (Job × List Job)
take_free lanes [] = none
take_free lanes (job ∷ jobs) =
    let rest = take_free lanes jobs in
    if not (contains lanes job.deployment_id) then some (job, jobs) else behind job rest

-- A job leaves the queue for its lane.
abbrev pub started : Scheduler → Job → List Job → Scheduler
started s job rest = record s {
  queue = rest;
  queued_keys = set_delete s.queued_keys (job_key job);
  lanes = set_add s.lanes job.deployment_id;
  in_flight = s.in_flight ++ job ∷ [];
}

-- One round of the loop of `pump`: none where it ends.
abbrev pub pump_found : Scheduler → Option (Job × List Job) → Option Scheduler
pump_found s none = none
pump_found s (some found) = some (started s found.0 found.1)

unfoldable pub pump_once : SchedulerOptions → Scheduler → Option Scheduler
unfolding take_free
pump_once options s =
    if ltb (length s.lanes) options.max_concurrency
    then pump_found s (take_free s.lanes s.queue)
    else none

-- The loop, on fuel.
unfoldable pub pump_rounds : SchedulerOptions → ℕ → Scheduler → Scheduler
pump_rounds options zero s = s
pump_rounds options (suc n) s = elim (pump_once options s) [
  | none ↦ s
  | some t ↦ pump_rounds options n t
]

-- `pump`; each round takes a job off the queue.
unfoldable pub pump : SchedulerOptions → Scheduler → Scheduler
unfolding pump_rounds
pump options s = pump_rounds options (suc (length s.queue)) s

abbrev pub end_job : Scheduler → Text → Scheduler
end_job s id = record s {
  lanes = set_delete s.lanes id;
  in_flight = filter (λ j. not (text_eq j.deployment_id id)) s.in_flight;
}

-- What happens when the job of a deployment ends, and with it its promise.
unfoldable pub finish : SchedulerOptions → Text → Scheduler → Scheduler
unfolding pump
finish options id s =
    let freed = end_job s id in if not s.draining then pump options freed else freed

-- The first statements of `shutdown`.
unfoldable pub begin_shutdown : Scheduler → Scheduler
begin_shutdown s = record s { draining = true; queue = []; queued_keys = [] }

pub data SchedulerEvent : Type 0 where
  submitted : Job → SchedulerEvent
  pumped : SchedulerEvent
  finished : Text → SchedulerEvent
  shut_down : SchedulerEvent

unfoldable pub step : SchedulerOptions → SchedulerEvent → Scheduler → Scheduler
unfolding submit pump finish begin_shutdown
step options (submitted job) s = (submit options job s).1
step options pumped s = pump options s
step options (finished id) s = finish options id s
step options shut_down s = begin_shutdown s

-- A sequence of them.
unfoldable pub run_events : SchedulerOptions → List SchedulerEvent → Scheduler → Scheduler
unfolding step
run_events options [] s = s
run_events options (e ∷ es) s = run_events options es (step options e s)
