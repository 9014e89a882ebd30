-- ===== src/Sched/Ticker/Exclusive.antt =====
-- internal/daemon/intervalsched: at most one scan of a target is under way, across goroutines that run `tick` and
-- `DispatchAdHoc` (scheduler.go), workers (workerpool.go) and ends of runs, step by step.
use surfbot_agent.Base.{
  ℕ, ◌+◌, ◌≤◌, ◌≡◌, refl, sym, ap, ◌∙◌, Bool, false, some, List, [], ◌∷◌, ◌++◌, String, arith,
  str_eq, leb, ◌==◌, Option, none, count_if, count_if-append, if◌then◌else◌, Bool-cases, inl, inr,
}
use surfbot_agent.Base.Assoc.{lookup}
use surfbot_agent.Base.Int.{ℤ}
use surfbot_agent.Model.{Time, Schedule, AdHocScanRun}
use surfbot_agent.Sched.Locks.{new_lock_index, release, try_acquire}
use surfbot_agent.Sched.Locks.Exclusion.{
  Capped, tokens, try_acquire-tokens, release-tokens, try_acquire-Capped, release-Capped,
  new_lock_index-Capped,
}
use surfbot_agent.Sched.Pool.{
  Pool, Job, Event, new_worker_pool, step, free, dispatch_allowed, dispatch_send, Sent, sent, full,
  panicked,
}
use surfbot_agent.Sched.Pool.Queue.{accepted_by, received_by, step-jobs}
use surfbot_agent.Sched.Ticker.{
  Services, State, in_blackout, list_due_overhead, handle_blackout_skip, job_of, ad_hoc_job,
}
use surfbot_agent.Sched.Ticker.Threads.{
  Round, Caller, by_tick, by_request, caller_job, Thread, ticks, loops, asks, looks, leaves, marks,
  checks, sends, gives_up, skips, notes, rests, answered, crashed, thread_step, after_try,
  after_send, released, with_new_id, loop_step, asked_at, after_list,
}

-- The scheduler's state, the goroutines that are in `tick` or `DispatchAdHoc`, and the jobs whose `Run` has begun and
-- not returned.
pub record System : Type 0 where
  pub state : State
  pub threads : List Thread
  pub in_flight : List Job

-- The steps of the whole, with any answers of the services: a tick or a request begins; some goroutine makes its next
-- step; a worker receives the first job of the queue; the pool's other steps that leave the queue alone; and the
-- end of a run, whose deferred call releases the target.
pub data Moves : System → System → Type 0 where
  ticked : (now : Time) (y : System) → Moves y (record y { threads = y.threads ++ ticks now ∷ [] })
  asked :
      (run : AdHocScanRun) (y : System)
      → Moves y (record y { threads = y.threads ++ asks run ∷ [] })
  acted :
      (V : Services) (clock : Time) (new_id : String) (before after : List Thread) (th : Thread)
      (y : System)
      → y.threads ≡ before ++ th ∷ after
      → Moves y (record y {
        state = (thread_step V clock new_id th y.state).0;
        threads = before ++ (thread_step V clock new_id th y.state).1 ∷ after;
      })
  moved :
      (e : Event) (q : Pool) (y : System)
      → step e y.state.pool ≡ some q
      → accepted_by e y.state.pool ≡ []
      → Moves y (record y {
        state = record y.state { pool = q };
        in_flight = y.in_flight ++ received_by e y.state.pool;
      })
  ended :
      (before after : List Job) (j : Job) (y : System)
      → y.in_flight ≡ before ++ j ∷ after
      → Moves y (record y {
        state = record y.state { locks = release y.state.locks j.target_id };
        in_flight = before ++ after;
      })

abbrev pub jobs_for : String → List Job → ℕ
jobs_for u js = count_if (λ j. str_eq j.target_id u) js

-- Does a goroutine hold the lock of a target?
abbrev pub claim : String → Thread → Bool
claim u (looks c) = str_eq (caller_job c).target_id u
claim u (leaves c) = str_eq (caller_job c).target_id u
claim u (marks c) = str_eq (caller_job c).target_id u
claim u (checks c) = str_eq (caller_job c).target_id u
claim u (sends c) = str_eq (caller_job c).target_id u
claim u (gives_up c) = str_eq (caller_job c).target_id u
claim u (crashed c) = str_eq (caller_job c).target_id u
claim u _ = false

-- The goroutines between `TryAcquire` and `Dispatch` or `Release` on a target, its queued jobs, and its runs.
abbrev pub under_way : String → System → ℕ
under_way u y = count_if (claim u) y.threads + jobs_for u y.state.pool.jobs + jobs_for u y.in_flight

-- A target's lock is taken once for each of them, and at most once.
pub record IsExclusive (y : System) : Type 0 where
  pub locked : (u : String) → tokens y.state.locks u ≡ under_way u y
  pub at_most_one : (u : String) → under_way u y ≤ 1

abbrev one_if : Bool → ℕ
one_if b = if b then 1 else 0

-- What the proof carries: the capacity as the lock index has it.
abbrev Balanced : System → Type 0
Balanced y = Capped y.state.locks × ((u : String) → tokens y.state.locks u ≡ under_way u y)

-- A step of a goroutine keeps the account of a target: what it takes from the locks, it holds or queues.
abbrev Fair : String → Thread → State → State × Thread → Type 0
Fair u th s out =
    tokens out.0.locks u + one_if (claim u th) + jobs_for u s.pool.jobs
    ≡ tokens s.locks u + one_if (claim u out.1) + jobs_for u out.0.pool.jobs

module _ (V : Services) (clock : Time) (new_id : String) (u : String) where
  after_try-Fair :
      (t : String) (th won lost : Thread) (s : State)
      → Capped s.locks
      → claim u th ≡ false
      → claim u won ≡ str_eq t u
      → claim u lost ≡ false
      → Fair u th s (after_try s (try_acquire s.locks t) won lost)
  after_try-Fair t th won lost s c f g h = elim (Bool-cases (try_acquire s.locks t).1) [
    | inl got ↦ rw got (ground (arith, try_acquire-tokens s.locks t u c))
    | inr missed ↦ rw missed (ground (arith, try_acquire-tokens s.locks t u c))
  ]

  released-Fair :
      (a : Caller) (th next : Thread) (s : State)
      → Capped s.locks
      → one_if (claim u th) ≤ tokens s.locks u
      → claim u th ≡ str_eq (caller_job a).target_id u
      → claim u next ≡ false
      → Fair u th s (released s a next)
  released-Fair a th next s c le f g =
      ground (arith, release-tokens s.locks (caller_job a).target_id u c)

  after_send-Fair :
      (a : Caller) (s : State)
      → Fair u (sends a) s (after_send s (dispatch_send (caller_job a) s.pool) a)
  unfolding dispatch_send
  after_send-Fair (by_tick sched r) s =
      ground (arith, count_if-append (λ j. str_eq j.target_id u) s.pool.jobs (job_of sched ∷ []))
  after_send-Fair (by_request run) s =
      ground (arith, count_if-append (λ j. str_eq j.target_id u) s.pool.jobs (ad_hoc_job run ∷ []))

  same_target :
      (c : Caller) → (caller_job (with_new_id new_id c)).target_id ≡ (caller_job c).target_id
  same_target (by_tick sched r) = refl
  same_target (by_request run) = refl

  after_list-claim :
      (now : Time) (slots : ℕ) (o : Option (List Schedule))
      → claim u (after_list V now slots o) ≡ false
  after_list-claim now slots none = refl
  after_list-claim now slots (some due) = refl

  loop_step-Fair :
      (r : Round) (due : List Schedule) (s : State)
      → Capped s.locks
      → Fair u (loops r) s (loop_step V r due s)
  loop_step-Fair r [] s c = refl
  loop_step-Fair r (sched ∷ due) s c = elim (Bool-cases (leb r.slots r.dispatched)) [
    | inl e ↦ rw e refl
    | inr e ↦ rw e (after_try-Fair sched.target_id (loops r) _ _ s c refl refl refl)
  ]

  thread_step-Fair :
      (th : Thread) (s : State)
      → Capped s.locks
      → one_if (claim u th) ≤ tokens s.locks u
      → Fair u th s (thread_step V clock new_id th s)
  unfolding thread_step handle_blackout_skip
  thread_step-Fair (ticks now) s c le =
      let slots = free s.pool in
      elim (Bool-cases (slots == 0)) [
        | inl e ↦ rw e refl
        | inr e ↦
            rw e (rw (after_list-claim now slots (V.list_due now (slots + list_due_overhead))) refl)
      ]
  thread_step-Fair (loops r) s c le = loop_step-Fair r r.due s c
  thread_step-Fair (asks run) s c le = elim (Bool-cases (str_eq run.target_id "")) [
    | inl e ↦ rw e refl
    | inr e ↦ rw e (after_try-Fair run.target_id (asks run) _ _ s c refl refl refl)
  ]
  thread_step-Fair (looks a) s c le =
      elim (Bool-cases (V.active (caller_job a).target_id (asked_at V clock a))) [
        | inl e ↦ rw e refl
        | inr e ↦ rw e (rw (same_target a) refl)
      ]
  thread_step-Fair (leaves (by_tick sched r)) s c le =
      released-Fair (by_tick sched r) (leaves (by_tick sched r)) (skips sched r) s c le refl refl
  thread_step-Fair (leaves (by_request run)) s c le =
      released-Fair (by_request run) (leaves (by_request run)) (answered in_blackout) s c le refl
        refl
  thread_step-Fair (marks (by_tick sched r)) s c le = refl
  thread_step-Fair (marks (by_request run)) s c le = refl
  thread_step-Fair (checks a) s c le = elim (Bool-cases (dispatch_allowed s.pool)) [
    | inl e ↦ rw e refl
    | inr e ↦ rw e refl
  ]
  thread_step-Fair (sends a) s c le = after_send-Fair a s
  thread_step-Fair (gives_up (by_tick sched r)) s c le =
      released-Fair (by_tick sched r) (gives_up (by_tick sched r)) rests s c le refl refl
  thread_step-Fair (gives_up (by_request run)) s c le =
      released-Fair (by_request run) (gives_up (by_request run)) (notes run) s c le refl refl
  thread_step-Fair (skips sched r) s c le = refl
  thread_step-Fair (notes run) s c le = refl
  thread_step-Fair rests s c le = refl
  thread_step-Fair (answered reply) s c le = refl
  thread_step-Fair (crashed a) s c le = refl

module _ (V : Services) (clock : Time) (new_id : String) where
  after_try-Capped :
      (t : String) (won lost : Thread) (s : State)
      → Capped s.locks
      → Capped (after_try s (try_acquire s.locks t) won lost).0.locks
  after_try-Capped t won lost s c = elim (Bool-cases (try_acquire s.locks t).1) [
    | inl got ↦ rw got (try_acquire-Capped s.locks t c)
    | inr missed ↦ rw missed (try_acquire-Capped s.locks t c)
  ]

  after_send-Capped :
      (a : Caller) (o : Sent) (s : State) → Capped s.locks → Capped (after_send s o a).0.locks
  after_send-Capped (by_tick sched r) (sent q) s c = c
  after_send-Capped (by_request run) (sent q) s c = c
  after_send-Capped (by_tick sched r) full s c = c
  after_send-Capped (by_request run) full s c = c
  after_send-Capped (by_tick sched r) panicked s c = c
  after_send-Capped (by_request run) panicked s c = c

  loop_step-Capped :
      (r : Round) (due : List Schedule) (s : State)
      → Capped s.locks
      → Capped (loop_step V r due s).0.locks
  loop_step-Capped r [] s c = c
  loop_step-Capped r (sched ∷ due) s c = elim (Bool-cases (leb r.slots r.dispatched)) [
    | inl e ↦ rw e c
    | inr e ↦ rw e (after_try-Capped sched.target_id _ _ s c)
  ]

  thread_step-Capped :
      (th : Thread) (s : State) → Capped s.locks → Capped (thread_step V clock new_id th s).0.locks
  unfolding thread_step handle_blackout_skip
  thread_step-Capped (ticks now) s c = c
  thread_step-Capped (loops r) s c = loop_step-Capped r r.due s c
  thread_step-Capped (asks run) s c = elim (Bool-cases (str_eq run.target_id "")) [
    | inl e ↦ rw e c
    | inr e ↦ rw e (after_try-Capped run.target_id _ _ s c)
  ]
  thread_step-Capped (looks a) s c = c
  thread_step-Capped (leaves (by_tick sched r)) s c = release-Capped s.locks sched.target_id c
  thread_step-Capped (leaves (by_request run)) s c = release-Capped s.locks run.target_id c
  thread_step-Capped (marks (by_tick sched r)) s c = c
  thread_step-Capped (marks (by_request run)) s c = c
  thread_step-Capped (checks a) s c = c
  thread_step-Capped (sends a) s c = after_send-Capped a _ s c
  thread_step-Capped (gives_up (by_tick sched r)) s c = release-Capped s.locks sched.target_id c
  thread_step-Capped (gives_up (by_request run)) s c = release-Capped s.locks run.target_id c
  thread_step-Capped (skips sched r) s c = c
  thread_step-Capped (notes run) s c = c
  thread_step-Capped rests s c = c
  thread_step-Capped (answered reply) s c = c
  thread_step-Capped (crashed a) s c = c

-- Counting in the middle of a list.
count_if-middle :
    {A : Type 0} (p : A → Bool) (xs ys : List A) (a : A)
    → count_if p (xs ++ a ∷ ys) ≡ one_if (p a) + count_if p (xs ++ ys)
count_if-middle p xs ys a = omega (arith, count_if-append p xs (a ∷ ys), count_if-append p xs ys)

-- Every step keeps the account.
Moves-Balanced : (y z : System) → Balanced y → Moves y z → Balanced z
Moves-Balanced y z (c, b) (ticked now _) =
    (c, λ u. omega (arith, b u, count_if-append (claim u) y.threads (ticks now ∷ [])))
Moves-Balanced y z (c, b) (asked run _) =
    (c, λ u. omega (arith, b u, count_if-append (claim u) y.threads (asks run ∷ [])))
Moves-Balanced y z (c, b) (acted V clock new_id before after th _ h) = (
  thread_step-Capped V clock new_id th y.state c,
  λ u.
      let out = thread_step V clock new_id th y.state in
      let was : count_if (claim u) y.threads
          ≡ one_if (claim u th) + count_if (claim u) (before ++ after) =
        ap (count_if (claim u)) h ∙ count_if-middle (claim u) before after th in
      let fair = thread_step-Fair V clock new_id u th y.state c (omega (arith, b u, was)) in
      omega (arith, b u, was, fair, count_if-middle (claim u) before after out.1),
)
Moves-Balanced y z (c, b) (moved e q _ h none_in) = (
  c,
  λ u.
      let same : y.state.pool.jobs ++ [] ≡ received_by e y.state.pool ++ q.jobs =
        ap (λ l. y.state.pool.jobs ++ l) (sym none_in) ∙ step-jobs e y.state.pool q h in
      let f = λ (j : Job). str_eq j.target_id u in
      let kept : jobs_for u (y.state.pool.jobs ++ [])
          ≡ jobs_for u (received_by e y.state.pool ++ q.jobs) =
        ap (jobs_for u) same in
      omega (
        arith,
        b u,
        kept,
        count_if-append f y.state.pool.jobs [],
        count_if-append f (received_by e y.state.pool) q.jobs,
        count_if-append f y.in_flight (received_by e y.state.pool),
      ),
)
Moves-Balanced y z (c, b) (ended before after j _ h) = (
  release-Capped y.state.locks j.target_id c,
  λ u.
      let f = λ (j : Job). str_eq j.target_id u in
      let was : jobs_for u y.in_flight
          ≡ one_if (str_eq j.target_id u) + jobs_for u (before ++ after) =
        ap (jobs_for u) h ∙ count_if-middle f before after j in
      omega (arith, b u, was, release-tokens y.state.locks j.target_id u c),
)

-- The states that a scheduler reaches from its start: no goroutine, no job, and no lock taken.
pub data Reached (size : ℤ) : System → Type 0 where
  begun : Reached size (record {
    state = record { locks = new_lock_index; pool = new_worker_pool size; effects = [] };
    threads = [];
    in_flight = [];
  })
  next : (y z : System) → Reached size y → Moves y z → Reached size z

Reached-Balanced : (size : ℤ) (y : System) → Reached size y → Balanced y
unfolding new_worker_pool new_lock_index tokens lookup
Reached-Balanced size y begun = (new_lock_index-Capped, λ u. refl)
Reached-Balanced size y (next x _ r m) = Moves-Balanced x y (Reached-Balanced size x r) m

-- However the steps of ticks, ad-hoc dispatches, workers and ends of runs interleave: for each target there is at
-- most one among the goroutines between `TryAcquire` and `Dispatch` or `Release`, the queued jobs and the runs in
-- flight, and the target's channel holds a token exactly for it.
pub Reached-IsExclusive : (size : ℤ) (y : System) → Reached size y → IsExclusive y
unfolding tokens
Reached-IsExclusive size y r =
    let (c, b) = Reached-Balanced size y r in
    record { locked = b; at_most_one = λ u. omega (arith, b u, c u) }
