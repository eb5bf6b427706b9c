-- ===== src/Examples/Jobs.antt =====
-- The theorems on the scheduler, at two jobs of one deployment and one of another.
use ictt_sentinel.Base.{◌≤◌, ◌⊎◌, ◌≡◌, true, All, List, [], ◌∷◌, ◌++◌, length}
use ictt_sentinel.Base.Text.{units}
use ictt_sentinel.Base.Sets.{contains, text_Eq}
use ictt_sentinel.Scheduler.{SchedulerOptions, SchedulerEvent, new_scheduler, pump, run_events}
use ictt_sentinel.Scheduler.Lanes.{IsValid, pump-started, run_events-IsValid}

abbrev one_lane : SchedulerOptions
one_lane = record { max_concurrency = 1; queue_limit = 2 }

abbrev morning : List SchedulerEvent
morning =
    SchedulerEvent.submitted (record { deployment_id = units "a"; kind = units "tick" })
    ∷ SchedulerEvent.submitted (record { deployment_id = units "a"; kind = units "census" })
    ∷ []

abbrev day : List SchedulerEvent
day =
    morning
    ++ SchedulerEvent.pumped
      ∷ SchedulerEvent.finished (units "a")
      ∷ SchedulerEvent.submitted (record { deployment_id = units "b"; kind = units "tick" })
      ∷ SchedulerEvent.shut_down
      ∷ []

run_events-IsValid_example : IsValid one_lane (run_events one_lane day new_scheduler)
run_events-IsValid_example = run_events-IsValid one_lane day

pump-started_example :
    (one_lane.max_concurrency
      ≤ length (pump one_lane (run_events one_lane morning new_scheduler)).lanes)
    ⊎ All
        (λ j.
          contains (pump one_lane (run_events one_lane morning new_scheduler)).lanes j.deployment_id
          ≡ true)
        (pump one_lane (run_events one_lane morning new_scheduler)).queue
pump-started_example = pump-started one_lane (run_events one_lane morning new_scheduler)
