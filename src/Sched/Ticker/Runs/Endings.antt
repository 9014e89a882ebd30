-- ===== src/Sched/Ticker/Runs/Endings.antt =====
-- internal/daemon/intervalsched/scheduler.go: what a run leaves behind, and pauses by blackouts.
use surfbot_agent.Base.{
  ◌≡◌, ◌≢◌, refl, ap, not, ◌&&◌, Option, none, some, [], ◌∷◌, ◌++◌, String, arith, str_eq,
  str_eq_refl, string_eq, if◌then◌else◌, Option-cases, inl, inr,
}
use surfbot_agent.Base.Assoc.{Assoc, lookup, lookup-insert, lookup-remove}
use surfbot_agent.Model.{Time, Schedule, Template, failed, paused_blackout}
use surfbot_agent.Sched.Locks.Exclusion.{held, Capped, release-held}
use surfbot_agent.Sched.Pool.{Job}
use surfbot_agent.Sched.Ticker.{Services, record_run, job_of}
use surfbot_agent.Sched.Ticker.Runs.{
  InflightJob, Runs, ScanResult, canceled_error, key_of_job, cause_in, evaluate_job,
  evaluate_in_flight, begin_run, finish_run, run_status, note_result, scan_id_ptr, next_effects,
  entry_of,
}

module _ (V : Services) where
  -- The end of a run, whatever its payload and the scanner's answer, frees the lock of its target and no
  -- other, and takes its entry out of the table of jobs in flight and no other.
  pub finish_run-frees :
      (job : Job) (tmpl : Option Template) (result : ScanResult) (now : Time) (r : Runs)
      → Capped r.state.locks
      → ((u : String)
          → held (finish_run V job tmpl result now r).state.locks u
            ≡ (not (str_eq job.target_id u) && held r.state.locks u))
        × ((key k : String)
            → key_of_job job.payload ≡ some key
            → lookup k (finish_run V job tmpl result now r).in_flight
              ≡ (if str_eq key k then none else lookup k r.in_flight))
  unfolding finish_run
  finish_run-frees job tmpl result now r c = (
    λ u. elim (Option-cases (key_of_job job.payload)) [
      | inl e ↦ rw (e, finish_run) (release-held r.state.locks job.target_id u c)
      | inr (key, e) ↦ rw (e, finish_run) (release-held r.state.locks job.target_id u c)
    ],
    λ key k e. rw (e, finish_run) (lookup-remove key k r.in_flight),
  )

  -- The first half of a run either hands a configuration to the scanner, with the target still locked and
  -- the job entered in the table under its key, or frees the target's lock and enters nothing.
  pub begin_run_lem :
      (job : Job) (now : Time) (r : Runs)
      → Capped r.state.locks
      → ((begin_run V job now r).1 ≢ none
          → ((begin_run V job now r).0.state ≡ r.state)
            × ((key : String)
                → key_of_job job.payload ≡ some key
                → lookup key (begin_run V job now r).0.in_flight
                  ≡ some (entry_of V job.payload now)))
        × ((begin_run V job now r).1 ≡ none
            → ((begin_run V job now r).0.in_flight ≡ r.in_flight)
              × ((u : String)
                  → held (begin_run V job now r).0.state.locks u
                    ≡ (not (str_eq job.target_id u) && held r.state.locks u)))
  unfolding begin_run
  begin_run_lem job now r c = (
    λ some_config. (
      ground arith,
      λ key e.
          ground (
            arith,
            str_eq_refl key,
            lookup-insert key key (entry_of V job.payload now) r.in_flight,
          ),
    ),
    λ no_config. (ground arith, λ u. ground (arith, release-held r.state.locks job.target_id u c)),
  )

  lookup-evaluate :
      (key : String) (now : Time) (jobs : Assoc String InflightJob)
      → lookup key (evaluate_in_flight V now jobs)
        ≡ elim (lookup key jobs) [ some job ↦ some (evaluate_job V now job) | none ↦ none ]
  unfolding lookup evaluate_in_flight
  lookup-evaluate key now [] = refl
  lookup-evaluate key now ((k, job) ∷ jobs) = ground (arith, lookup-evaluate key now jobs)

  paused_status :
      (key : String) (now : Time) (jobs : Assoc String InflightJob) (job : InflightJob)
      → lookup key jobs ≡ some job
      → job.cause ≡ none
      → run_status (some canceled_error) (cause_in key (evaluate_in_flight V now jobs)) ≡ (
          if V.active job.target_id now && not (V.active job.target_id job.acquired_at)
          then paused_blackout
          else failed)
  unfolding run_status evaluate_job
  paused_status key now jobs job entry alive = ground (arith, lookup-evaluate key now jobs)

  -- A scheduled scan that is in flight and not cancelled, and that the scanner ends as cancelled after one
  -- look at the jobs in flight, is recorded as paused if that look found its target inside a blackout that
  -- it was not in when the run began, and as failed otherwise.
  pub finish_run-paused :
      (sched : Schedule) (tmpl : Option Template) (scan_id : String) (now later : Time) (r : Runs)
      (job : InflightJob)
      → lookup sched.id r.in_flight ≡ some job
      → job.cause ≡ none
      → (finish_run V
          (job_of sched)
          tmpl
          (record { scan_id = scan_id; failure = some canceled_error })
          later
          (record r { in_flight = evaluate_in_flight V now r.in_flight })).state.effects
        ≡ r.state.effects
          ++ record_run sched.id
              (if V.active job.target_id now && not (V.active job.target_id job.acquired_at)
                then paused_blackout
                else failed)
              (scan_id_ptr scan_id)
              later
            ∷ next_effects V sched tmpl
  unfolding finish_run note_result
  finish_run-paused sched tmpl scan_id now later r job entry alive =
      ap
        (λ status.
          r.state.effects
          ++ record_run sched.id status (scan_id_ptr scan_id) later ∷ next_effects V sched tmpl)
        (paused_status sched.id now r.in_flight job entry alive)
