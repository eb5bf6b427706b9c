-- ===== src/Scheduler/Lanes.antt =====
-- One job for each deployment, and no more jobs than the limits allow, whatever happens.
use ictt_sentinel.Base.{
  ℕ, zero, suc, ◌≤◌, ◌<◌, ◌≡◌, ◌⊎◌, refl, ap, ◌∙◌, inl, inr, Bool, true, false, not, ◌||◌, List, [],
  ◌∷◌, ◌++◌, Option, none, some, arith, Bool-cases, All, All-append, All-filter, All-mem, filter,
  length, map, length-append, ltb, if◌then◌else◌,
}
use ictt_sentinel.Base.Text.{Text, text_eq}
use ictt_sentinel.Base.Sets.{contains, text_Eq}
use ictt_sentinel.Base.Members.{map-append}
use ictt_sentinel.Scheduler.{
  Job, job_key, SchedulerOptions, Scheduler, set_delete, end_job, new_scheduler, submit, take_free,
  behind, pump_found, pump_once, pump_rounds, pump, finish, begin_shutdown, SchedulerEvent, step,
  run_events,
}

abbrev AllDistinct : List Text → Type 0
AllDistinct [] = Unit
AllDistinct (x ∷ xs) = All (λ y. text_eq x y ≡ false) xs × AllDistinct xs

-- One job in flight for each deployment, the one that holds its lane, and the two limits.
abbrev pub IsValid : SchedulerOptions → Scheduler → Type 0
IsValid options s =
    AllDistinct s.lanes
    × (length s.lanes ≤ options.max_concurrency)
    × (length s.queue ≤ options.queue_limit)
    × (map (λ j. j.deployment_id) s.in_flight ≡ s.lanes)

map-filter :
    (id : Text) (js : List Job)
    → map (λ j. j.deployment_id) (filter (λ j. not (text_eq j.deployment_id id)) js)
      ≡ set_delete (map (λ j. j.deployment_id) js) id
map-filter id [] = refl
map-filter id (j ∷ js) = elim (Bool-cases (text_eq j.deployment_id id)) [
  | inl e ↦ rw e (map-filter id js)
  | inr e ↦ rw e (ap (λ t. j.deployment_id ∷ t) (map-filter id js))
]

filter-AllDistinct : (p : Text → Bool) (xs : List Text) → AllDistinct xs → AllDistinct (filter p xs)
filter-AllDistinct p [] h = h
filter-AllDistinct p (x ∷ xs) h = elim (Bool-cases (p x)) [
  | inl e ↦ rw e (All-filter _ p xs (λ a m _. All-mem _ h.0 m), filter-AllDistinct p xs h.1)
  | inr e ↦ rw e (filter-AllDistinct p xs h.1)
]

length-filter : (p : Text → Bool) (xs : List Text) → length (filter p xs) ≤ length xs
length-filter p [] = omega arith
length-filter p (x ∷ xs) = elim (Bool-cases (p x)) [
  | inl e ↦ rw e (omega (arith, length-filter p xs))
  | inr e ↦ rw e (omega (arith, length-filter p xs))
]

snoc-AllDistinct :
    (xs : List Text) (x : Text)
    → AllDistinct xs
    → contains xs x ≡ false
    → AllDistinct (xs ++ x ∷ [])
snoc-AllDistinct [] x h e = (tt, tt)
snoc-AllDistinct (y ∷ xs) x h e = (
  All-append _ xs (x ∷ []) h.0 (ground (arith, e), tt),
  snoc-AllDistinct xs x h.1 (ground (arith, e)),
)

-- The job that is taken has a free lane, and the queue is one shorter; where none is taken, every lane
-- is busy.
abbrev IsTaken : List Text → List Job → Option (Job × List Job) → Type 0
IsTaken lanes queue none = All (λ j. contains lanes j.deployment_id ≡ true) queue
IsTaken lanes queue (some f) =
    (contains lanes f.0.deployment_id ≡ false) × (suc (length f.1) ≡ length queue)

take_free-IsTaken :
    (lanes : List Text) (queue : List Job) → IsTaken lanes queue (take_free lanes queue)
unfolding take_free
take_free-IsTaken lanes [] = tt
take_free-IsTaken lanes (j ∷ js) = elim (Bool-cases (contains lanes j.deployment_id)) [
  | inl e ↦ rw e (later (take_free lanes js) (take_free-IsTaken lanes js) e)
  | inr e ↦ rw e (e, refl)
]
  where
    later :
        (found : Option (Job × List Job))
        → IsTaken lanes js found
        → contains lanes j.deployment_id ≡ true
        → IsTaken lanes (j ∷ js) (behind j found)
    later none q e = (e, q)
    later (some f) q e = (q.0, ap suc q.1)

-- What a round leaves.
abbrev IsRound : SchedulerOptions → Scheduler → Option Scheduler → Type 0
IsRound options s none = Unit
IsRound options s (some t) =
    (IsValid options s → IsValid options t) × (suc (length t.queue) ≡ length s.queue)

pump_once-IsRound :
    (options : SchedulerOptions) (s : Scheduler) → IsRound options s (pump_once options s)
unfolding pump_once
pump_once-IsRound options s = elim (Bool-cases (ltb (length s.lanes) options.max_concurrency)) [
  | inl e ↦ rw e (found (take_free s.lanes s.queue) (take_free-IsTaken s.lanes s.queue) e)
  | inr e ↦ rw e tt
]
  where
    found :
        (f : Option (Job × List Job))
        → IsTaken s.lanes s.queue f
        → ltb (length s.lanes) options.max_concurrency ≡ true
        → IsRound options s (pump_found s f)
    found none q e = tt
    found (some f) q e = (
      λ v. rw q.0 (
        snoc-AllDistinct s.lanes _ v.0 q.0,
        ground (arith, e, length-append s.lanes (f.0.deployment_id ∷ [])),
        omega (arith, v.2, q.1),
        map-append (λ j. j.deployment_id) s.in_flight (f.0 ∷ [])
            ∙ ap (λ t. t ++ f.0.deployment_id ∷ []) v.3,
      ),
      q.1,
    )

pump_rounds-IsValid :
    (options : SchedulerOptions) (n : ℕ) (s : Scheduler)
    → IsValid options s
    → IsValid options (pump_rounds options n s)
unfolding pump_rounds
pump_rounds-IsValid options zero s v = v
pump_rounds-IsValid options (suc n) s v =
    next (pump_once options s) (pump_once-IsRound options s) (λ t. pump_rounds-IsValid options n t)
  where
    next :
        (o : Option Scheduler)
        → IsRound options s o
        → ((t : Scheduler) → IsValid options t → IsValid options (pump_rounds options n t))
        → IsValid options (elim o [ none ↦ s | some t ↦ pump_rounds options n t ])
    next none r k = v
    next (some t) r k = k t (r.0 v)

-- With fuel for the queue, the loop runs to its end.
pump_rounds-ended :
    (options : SchedulerOptions) (n : ℕ) (s : Scheduler)
    → length s.queue < n
    → pump_once options (pump_rounds options n s) ≡ none
unfolding pump_rounds
pump_rounds-ended options zero s h = ground (arith, h)
pump_rounds-ended options (suc n) s h =
    next (pump_once options s) refl (pump_once-IsRound options s)
      (λ t. pump_rounds-ended options n t)
  where
    next :
        (o : Option Scheduler)
        → pump_once options s ≡ o
        → IsRound options s o
        → ((t : Scheduler)
            → length t.queue < n
            → pump_once options (pump_rounds options n t) ≡ none)
        → pump_once options (elim o [ none ↦ s | some t ↦ pump_rounds options n t ]) ≡ none
    next none q r k = q
    next (some t) q r k = k t (omega (arith, h, r.1))

-- Once pump returns, no job is left that it could start: every slot is taken, or each job that waits is
-- of a deployment whose lane is busy.
pub pump-started :
    (options : SchedulerOptions) (s : Scheduler)
    → (options.max_concurrency ≤ length (pump options s).lanes)
      ⊎ All (λ j. contains (pump options s).lanes j.deployment_id ≡ true) (pump options s).queue
unfolding pump pump_once
pump-started options s =
    ended (pump_rounds options (suc (length s.queue)) s)
      (pump_rounds-ended options (suc (length s.queue)) s (omega arith))
  where
    none_left :
        (t : Scheduler) (f : Option (Job × List Job))
        → IsTaken t.lanes t.queue f
        → pump_found t f ≡ none
        → All (λ j. contains t.lanes j.deployment_id ≡ true) t.queue
    none_left t none q e = q
    none_left t (some f) q e = cc e

    ended :
        (t : Scheduler)
        → pump_once options t ≡ none
        → (options.max_concurrency ≤ length t.lanes)
          ⊎ All (λ j. contains t.lanes j.deployment_id ≡ true) t.queue
    ended t e = elim (Bool-cases (ltb (length t.lanes) options.max_concurrency)) [
      | inl l ↦ inr (
          none_left t (take_free t.lanes t.queue) (take_free-IsTaken t.lanes t.queue)
            (ground (arith, l, e)))
      | inr l ↦ inl (ground (arith, l))
    ]

submit-IsValid :
    (options : SchedulerOptions) (job : Job) (s : Scheduler)
    → IsValid options s
    → IsValid options (submit options job s).1
unfolding submit
submit-IsValid options job s v = elim (Bool-cases s.draining) [
  | inl d ↦ rw d v
  | inr d ↦
      elim (Bool-cases
        (contains s.queued_keys (job_key job) || contains s.lanes job.deployment_id)) [
          | inl k ↦ rw (d, k) v
          | inr k ↦ elim (Bool-cases (ltb (length s.queue) options.queue_limit)) [
            | inl l ↦
                rw (d, k, l) (v.0, v.1, ground (arith, l, length-append s.queue (job ∷ [])), v.3)
            | inr l ↦ rw (d, k, l) v
          ]
        ]
]

finish-IsValid :
    (options : SchedulerOptions) (id : Text) (s : Scheduler)
    → IsValid options s
    → IsValid options (finish options id s)
unfolding finish pump
finish-IsValid options id s v = either s.draining (end_job s id) (
  filter-AllDistinct _ s.lanes v.0,
  omega (arith, v.1, length-filter (λ y. not (text_eq y id)) s.lanes),
  v.2,
  map-filter id s.in_flight ∙ ap (λ t. set_delete t id) v.3,
)
  where
    either :
        (b : Bool) (t : Scheduler)
        → IsValid options t
        → IsValid options (if not b then pump options t else t)
    either true t w = w
    either false t w = pump_rounds-IsValid options (suc (length t.queue)) t w

step-IsValid :
    (options : SchedulerOptions) (event : SchedulerEvent) (s : Scheduler)
    → IsValid options s
    → IsValid options (step options event s)
unfolding step pump begin_shutdown
step-IsValid options (SchedulerEvent.submitted job) s v = submit-IsValid options job s v
step-IsValid options SchedulerEvent.pumped s v =
    pump_rounds-IsValid options (suc (length s.queue)) s v
step-IsValid options (SchedulerEvent.finished id) s v = finish-IsValid options id s v
step-IsValid options SchedulerEvent.shut_down s v = (v.0, v.1, omega arith, v.3)

run_events-kept :
    (options : SchedulerOptions) (events : List SchedulerEvent) (s : Scheduler)
    → IsValid options s
    → IsValid options (run_events options events s)
unfolding run_events
run_events-kept options [] s v = v
run_events-kept options (e ∷ es) s v =
    run_events-kept options es (step options e s) (step-IsValid options e s v)

-- Whatever is submitted, started, ended and shut down, in whatever order: the jobs in flight are of
-- different deployments, one for each lane, they are no more than the limit on concurrency, and no more
-- jobs wait than the limit of the queue.
pub run_events-IsValid :
    (options : SchedulerOptions) (events : List SchedulerEvent)
    → IsValid options (run_events options events new_scheduler)
run_events-IsValid options events =
    run_events-kept options events new_scheduler (tt, omega arith, omega arith, refl)
