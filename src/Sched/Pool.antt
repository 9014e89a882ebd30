-- ===== src/Sched/Pool.antt =====
-- internal/daemon/intervalsched/workerpool.go: the bounded pool of workers.
-- Workers are counted by the point of `workerLoop` where they stand; what a worker does under the
-- mutex, or in one channel operation, is one step. A blocked `select` is a step that is not enabled.
pub mod Staff
pub mod Queue
use surfbot_agent.Base.{
  ℕ, zero, suc, ◌+◌, ◌-◌, Bool, true, false, not, ◌&&◌, ◌||◌, Option, none, some, List, [], ◌∷◌,
  ◌++◌, String, ltb, leb, ◌==◌, length, if◌then◌else◌,
}
use surfbot_agent.Base.Int.{ℤ, pos_part}
use surfbot_agent.Model.{Schedule, AdHocScanRun}

-- `other` stands for a payload of any other type.
pub data Payload : Type 0 where
  scheduled : Schedule → Payload
  ad_hoc : AdHocScanRun → Payload
  other : Payload

pub record Job : Type 0 where
  pub schedule_id : String
  pub target_id : String
  pub payload : Payload

abbrev pub excess_quit_cap : ℕ
excess_quit_cap = 1024

-- `excess_quit` is the number of tokens in the channel of that name, `jobs_cap` the buffer size of
-- `jobs`. Of the workers, `idle` wait in the outer `select`, `holding` have received a job and not
-- counted it yet, `running` are inside `runner.Run`, `deciding` stand before the inner `select`, and
-- `leaving` have returned and not run their deferred functions.
pub record Pool : Type 0 where
  pub size : ℕ
  pub active : ℕ
  pub jobs : List Job
  pub jobs_cap : ℕ
  pub closed : Bool
  pub started : Bool
  pub stopped : Bool
  pub ctx_done : Bool
  pub workers : ℕ
  pub excess_quit : ℕ
  pub idle : ℕ
  pub holding : ℕ
  pub running : ℕ
  pub deciding : ℕ
  pub leaving : ℕ

abbrev at_least_one : ℤ → ℕ
at_least_one n = if pos_part n == 0 then 1 else pos_part n

unfoldable pub new_worker_pool : ℤ → Pool
new_worker_pool n = record {
  size = at_least_one n;
  active = 0;
  jobs = [];
  jobs_cap = at_least_one n;
  closed = false;
  started = false;
  stopped = false;
  ctx_done = false;
  workers = 0;
  excess_quit = 0;
  idle = 0;
  holding = 0;
  running = 0;
  deciding = 0;
  leaving = 0;
}

-- The loop that spawns `n` workers.
abbrev spawn_workers : ℕ → Pool → Pool
spawn_workers n p = record p { workers = p.workers + n; idle = p.idle + n }

unfoldable pub start : Pool → Pool
start p = if p.started then p else spawn_workers p.size (record p { started = true })

unfoldable pub free : Pool → ℕ
free p = if ltb p.size p.active then 0 else p.size - p.active

-- `Dispatch` looks at `stopped` under the mutex and sends after it; a send to a closed channel
-- panics, and a full buffer takes the default.
unfoldable pub dispatch_allowed : Pool → Bool
dispatch_allowed p = not p.stopped

pub data Sent : Type 0 where
  sent : Pool → Sent
  full panicked : Sent

unfoldable pub dispatch_send : Job → Pool → Sent
dispatch_send job p =
    if p.closed
    then panicked
    else if ltb (length p.jobs) p.jobs_cap
    then sent (record p { jobs = p.jobs ++ job ∷ [] })
    else full

-- `Dispatch` with nothing in between: the pool after it, and whether the job was taken.
unfoldable pub dispatch : Job → Pool → Pool × Bool
unfolding dispatch_allowed dispatch_send
dispatch job p =
    if dispatch_allowed p
    then elim (dispatch_send job p) [
      | sent q ↦ (q, true)
      | full ↦ (p, false)
      | panicked ↦ (p, false)
    ]
    else (p, false)

-- The loop that queues `n` tokens; the default drops those that do not fit.
abbrev add_tokens : ℕ → ℕ → ℕ
add_tokens n tokens =
    if leb (tokens + n) excess_quit_cap
    then tokens + n
    else if leb tokens excess_quit_cap
    then excess_quit_cap
    else tokens

unfoldable pub resize : ℤ → Pool → Pool
resize new_size p =
    let n = at_least_one new_size in
    if n == p.size
    then p
    else if ltb p.size n
    then (let q = record p { size = n } in
        if p.started && not p.stopped then spawn_workers (n - p.size) q else q)
    else record p { size = n; excess_quit = add_tokens (p.size - n) p.excess_quit }

-- The part of `Stop` before the wait.
unfoldable pub stop : Pool → Pool
stop p = if p.stopped then p else record p { stopped = true; closed = true }

-- A worker's steps, the callers' operations, and the end of the pool's context.
pub data Event : Type 0 where
  receive count_in finish retire go_on quit exit cancel : Event
  starts stops : Event
  dispatches : Job → Event
  resizes : ℤ → Event

abbrev when : Bool → Pool → Option Pool
when true p = some p
when false p = none

abbrev receive_from : List Job → Pool → Option Pool
receive_from [] p = none
receive_from (j ∷ js) p =
    when (ltb 0 p.idle) (record p { jobs = js; idle = p.idle - 1; holding = p.holding + 1 })

-- `none`: the step is not enabled.
unfoldable pub step : Event → Pool → Option Pool
unfolding start stop resize dispatch
step receive p = receive_from p.jobs p
step count_in p =
    when (ltb 0 p.holding)
      (record p { active = p.active + 1; holding = p.holding - 1; running = p.running + 1 })
step finish p =
    when (ltb 0 p.running)
      (record p { active = p.active - 1; running = p.running - 1; deciding = p.deciding + 1 })
step retire p = when (ltb 0 p.deciding && ltb 0 p.excess_quit) (record p {
  excess_quit = p.excess_quit - 1;
  deciding = p.deciding - 1;
  leaving = p.leaving + 1;
})
step go_on p =
    when (ltb 0 p.deciding && p.excess_quit == 0)
      (record p { deciding = p.deciding - 1; idle = p.idle + 1 })
step quit p =
    when (ltb 0 p.idle && (p.ctx_done || (p.closed && length p.jobs == 0)))
      (record p { idle = p.idle - 1; leaving = p.leaving + 1 })
step exit p = when (ltb 0 p.leaving) (record p { workers = p.workers - 1; leaving = p.leaving - 1 })
step cancel p = some (record p { ctx_done = true })
step starts p = some (start p)
step stops p = some (stop p)
step (dispatches job) p = some (dispatch job p).0
step (resizes n) p = some (resize n p)

-- A run of the pool: a sequence of enabled steps.
unfoldable pub steps : List Event → Pool → Option Pool
steps [] p = some p
steps (e ∷ es) p = elim (step e p) [ some q ↦ steps es q | none ↦ none ]
