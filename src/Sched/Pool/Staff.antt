-- ===== src/Sched/Pool/Staff.antt =====
-- internal/daemon/intervalsched/workerpool.go: how many workers there are, and how many run.
use surfbot_agent.Base.{
  ℕ, ◌+◌, ◌-◌, ◌≤◌, ◌<◌, ◌≡◌, subst, true, false, some, List, [], ◌∷◌, arith, length, length-append,
  Option-cases, inl, inr,
}
use surfbot_agent.Base.Int.{ℤ, pos_part}
use surfbot_agent.Sched.Pool.{
  Pool, Event, receive, count_in, finish, retire, go_on, quit, exit, cancel, starts, stops,
  dispatches, resizes, step, steps, new_worker_pool, start, resize, excess_quit_cap,
}

abbrev pub staff : Pool → ℕ
staff p = p.idle + p.holding + p.running + p.deciding

pub record IsSound (p : Pool) : Type 0 where
  pub counted : p.workers ≡ staff p + p.leaving
  pub active_running : p.active ≡ p.running
  pub queue_bounded : length p.jobs ≤ p.jobs_cap
  pub tokens_bounded : p.excess_quit ≤ excess_quit_cap
  pub size_positive : 1 ≤ p.size
  pub closed_stopped : p.closed ≡ p.stopped
  pub none_before_start : p.started ≡ false → p.workers ≡ 0

pub new_worker_pool-IsSound : (n : ℤ) → IsSound (new_worker_pool n)
unfolding new_worker_pool
new_worker_pool-IsSound n = ground arith

step-IsSound : (e : Event) (p q : Pool) → step e p ≡ some q → IsSound p → IsSound q
unfolding step
step-IsSound receive p q h s = ground arith
step-IsSound count_in p q h s = ground arith
step-IsSound finish p q h s = ground arith
step-IsSound retire p q h s = ground arith
step-IsSound go_on p q h s = ground arith
step-IsSound quit p q h s = ground arith
step-IsSound exit p q h s = ground arith
step-IsSound cancel p q h s = ground arith
step-IsSound starts p q h s = ground arith
step-IsSound stops p q h s = ground arith
step-IsSound (dispatches job) p q h s = ground (arith, length-append p.jobs (job ∷ []))
step-IsSound (resizes n) p q h s = ground arith

-- A pool that keeps its books, as a new one does, keeps them in every run, whatever the order of steps: workers are
-- counted right, `Active` is the number inside a job and never passes the number of workers, the
-- queue and the tokens stay within their buffers, and the queue is closed exactly if `Stop` was called.
pub steps-IsSound : (es : List Event) (p q : Pool) → steps es p ≡ some q → IsSound p → IsSound q
unfolding steps
steps-IsSound [] p q h s = ground arith
steps-IsSound (e ∷ es) p q h s = elim (Option-cases (step e p)) [
  | inl stuck ↦ ground arith
  | inr (r, k) ↦ steps-IsSound es r q (rw (k, steps) at h) (step-IsSound e p r k s)
]

-- A pool that is up: started, neither stopped nor cancelled, with the workers that it should have.
pub record IsStaffed (p : Pool) : Type 0 where
  pub up : p.started ≡ true
  pub open_for_jobs : p.closed ≡ false
  pub not_stopped : p.stopped ≡ false
  pub live : p.ctx_done ≡ false
  pub staffed : staff p ≡ p.size + p.excess_quit

-- The steps of a pool that stays up, whose shrinks fit the token channel.
abbrev pub Stays : Event → Pool → Type 0
Stays cancel p = ⊥
Stays stops p = ⊥
Stays (resizes n) p = (p.size - pos_part n) + p.excess_quit ≤ excess_quit_cap
Stays _ p = Unit {0}

step-IsStaffed :
    (e : Event) (p q : Pool) → Stays e p → step e p ≡ some q → IsStaffed p → IsSound p → IsStaffed q
unfolding step
step-IsStaffed receive p q w h s b = ground arith
step-IsStaffed count_in p q w h s b = ground arith
step-IsStaffed finish p q w h s b = ground arith
step-IsStaffed retire p q w h s b = ground arith
step-IsStaffed go_on p q w h s b = ground arith
step-IsStaffed quit p q w h s b = ground arith
step-IsStaffed exit p q w h s b = ground arith
step-IsStaffed cancel p q w h s b = absurd w
step-IsStaffed starts p q w h s b = ground arith
step-IsStaffed stops p q w h s b = absurd w
step-IsStaffed (dispatches job) p q w h s b = ground arith
step-IsStaffed (resizes n) p q w h s b = ground arith

-- Every step of the run keeps the pool up.
abbrev pub AllStay : List Event → Pool → Type 0
AllStay [] p = Unit {0}
AllStay (e ∷ es) p = Stays e p × ((r : Pool) → step e p ≡ some r → AllStay es r)

steps-IsStaffed :
    (es : List Event) (p q : Pool)
    → AllStay es p
    → steps es p ≡ some q
    → IsStaffed p
    → IsSound p
    → IsStaffed q
unfolding steps
steps-IsStaffed [] p q w h s b = let same : p ≡ q = cc in subst IsStaffed same s
steps-IsStaffed (e ∷ es) p q w h s b = elim (Option-cases (step e p)) [
  | inl stuck ↦ ground arith
  | inr (r, k) ↦
      steps-IsStaffed es r q (w.1 r k) (rw (k, steps) at h) (step-IsStaffed e p r w.0 k s b)
        (step-IsSound e p r k b)
]

started-IsStaffed : (n : ℤ) → IsStaffed (start (new_worker_pool n))
unfolding start new_worker_pool
started-IsStaffed n = ground arith

pub started-IsSound : (n : ℤ) → IsSound (start (new_worker_pool n))
unfolding start new_worker_pool
started-IsSound n = ground arith

-- In every run of a pool that is started first, is not stopped or cancelled, and whose shrinks fit the
-- token channel, the workers that stay are exactly the size and the pending tokens together; so no
-- more jobs run at a time than that, and with no token pending no more than the size.
pub pool_concurrency :
    (n : ℤ) (es : List Event) (q : Pool)
    → AllStay es (start (new_worker_pool n))
    → steps es (start (new_worker_pool n)) ≡ some q
    → (staff q ≡ q.size + q.excess_quit) × (q.active ≤ q.size + q.excess_quit)
pool_concurrency n es q w h =
    let s =
      steps-IsStaffed es (start (new_worker_pool n)) q w h (started-IsStaffed n)
        (started-IsSound n) in
    let b = steps-IsSound es (start (new_worker_pool n)) q h (started-IsSound n) in
    (s.staffed, omega (arith, s.staffed, b.active_running))

-- A pool that is shrunk before it is started, to at least one worker, starts with exactly as many
-- workers as its new size, and yet with tokens pending, each of which sends one worker home.
pub shrunk_before_start :
    (n m : ℤ)
    → 1 ≤ pos_part m
    → pos_part m < pos_part n
    → let p = start (resize m (new_worker_pool n)) in
      (staff p ≡ p.size) × (p.size ≡ pos_part m) × (0 < p.excess_quit)
unfolding start resize new_worker_pool
shrunk_before_start n m a b = (ground arith, ground arith, ground arith)
