-- ===== src/Sched/Ticker/Locking.antt =====
-- internal/daemon/intervalsched/scheduler.go: the locks and the queue across a dispatch round.
use mathlib.Core.List.{append-nil, append_assoc}
use surfbot_agent.Base.{
  ℕ, suc, ◌≤◌, ◌≡◌, refl, sym, ap, ◌∙◌, Bool, true, false, ◌||◌, List, [], ◌∷◌, ◌++◌, String, arith,
  length, str_eq, str_eq_iff, All,
}
use surfbot_agent.Model.{Time}
use surfbot_agent.Sched.Locks.{LockIndex, try_acquire, release}
use surfbot_agent.Sched.Locks.Exclusion.{
  held, Capped, try_acquire-held, release-held, try_acquire-Capped,
}
use surfbot_agent.Sched.Pool.{Job}
use surfbot_agent.Sched.Ticker.{Services, State}

-- Is the target that of one of the jobs?
abbrev pub mentions : String → List Job → Bool
mentions u [] = false
mentions u (j ∷ js) = str_eq j.target_id u || mentions u js

-- No two jobs have the same target.
abbrev pub OnePerTarget : List Job → Type 0
OnePerTarget [] = Unit {0}
OnePerTarget (j ∷ js) = (mentions j.target_id js ≡ false) × OnePerTarget js

abbrev pub SameLocks : LockIndex → LockIndex → Type 0
SameLocks i k = (u : String) → held i u ≡ held k u

module _ (V : Services) where
  -- A round from one state to another that queued the jobs `new`, with `room` jobs still allowed.
  pub record IsRound (now : Time) (room : ℕ) (s s' : State) (new : List Job) : Type 0 where
    pub queued : s'.pool.jobs ≡ s.pool.jobs ++ new
    pub bounded : length new ≤ room
    pub was_free :
        All (λ j. (held s.locks j.target_id ≡ false) × (V.active j.target_id now ≡ false)) new
    pub one_each : OnePerTarget new
    pub now_held : (u : String) → held s'.locks u ≡ (mentions u new || held s.locks u)
    pub capped : Capped s'.locks

  -- A round that queues nothing and leaves the locks as they were.
  pub idle-IsRound :
      (now : Time) (room : ℕ) (s s' : State)
      → s'.pool.jobs ≡ s.pool.jobs
      → SameLocks s'.locks s.locks
      → Capped s'.locks
      → IsRound now room s s' []
  idle-IsRound now room s s' e h c = record {
    queued = e ∙ sym (append-nil s.pool.jobs);
    bounded = omega arith;
    was_free = tt;
    one_each = tt;
    now_held = h;
    capped = c;
  }

  All-held :
      (now : Time) (i k : LockIndex) (js : List Job)
      → SameLocks i k
      → All (λ j. (held i j.target_id ≡ false) × (V.active j.target_id now ≡ false)) js
      → All (λ j. (held k j.target_id ≡ false) × (V.active j.target_id now ≡ false)) js
  All-held now i k [] h a = tt
  All-held now i k (j ∷ js) h ((a, b), rest) =
      ((sym (h j.target_id) ∙ a, b), All-held now i k js h rest)

  -- A round that starts from the same locks and the same queue.
  pub later-IsRound :
      (now : Time) (room : ℕ) (s s₁ s' : State) (new : List Job)
      → SameLocks s₁.locks s.locks
      → s₁.pool.jobs ≡ s.pool.jobs
      → IsRound now room s₁ s' new
      → IsRound now room s s' new
  later-IsRound now room s s₁ s' new h e r = record {
    queued = r.queued ∙ ap (λ l. l ++ new) e;
    bounded = r.bounded;
    was_free = All-held now s₁.locks s.locks new h r.was_free;
    one_each = r.one_each;
    now_held = λ u. r.now_held u ∙ ap (λ b. mentions u new || b) (h u);
    capped = r.capped;
  }

-- A failed acquisition, and an acquisition that is released again, leave every lock as it was.
pub contended-SameLocks :
    (i : LockIndex) (t : String) → (try_acquire i t).1 ≡ false → SameLocks (try_acquire i t).0 i
contended-SameLocks i t h u =
    let (won, after) = try_acquire-held i t u in ground (arith, str_eq_iff t u)

pub freed-SameLocks :
    (i : LockIndex) (t : String)
    → Capped i
    → (try_acquire i t).1 ≡ true
    → SameLocks (release (try_acquire i t).0 t) i
freed-SameLocks i t c h u =
    let (won, after) = try_acquire-held i t u in
    let freed = release-held (try_acquire i t).0 t u (try_acquire-Capped i t c) in
    ground (arith, str_eq_iff t u)

module _ (V : Services) where
  -- A job queued, and the round that follows it.
  pub sent-IsRound :
      (now : Time) (room : ℕ) (s s₁ s' : State) (j : Job) (new : List Job)
      → held s.locks j.target_id ≡ false
      → V.active j.target_id now ≡ false
      → ((u : String) → held s₁.locks u ≡ (str_eq j.target_id u || held s.locks u))
      → s₁.pool.jobs ≡ s.pool.jobs ++ j ∷ []
      → IsRound V now room s₁ s' new
      → IsRound V now (suc room) s s' (j ∷ new)
  sent-IsRound now room s s₁ s' j new idle calm h e r = record {
    queued = r.queued ∙ ap (λ l. l ++ new) e ∙ append_assoc s.pool.jobs (j ∷ []) new;
    bounded = omega (arith, r.bounded);
    was_free = ((idle, calm), (freed new r.was_free).0);
    one_each = ((freed new r.was_free).1, r.one_each);
    now_held =
        λ u. r.now_held u ∙ ap (λ b. mentions u new || b) (h u) ∙ reorder (mentions u new) _ _;
    capped = r.capped;
  }
    where
      reorder : (a b c : Bool) → (a || (b || c)) ≡ ((b || a) || c)
      reorder a b c = ground arith

      freed :
          (js : List Job)
          → All (λ k. (held s₁.locks k.target_id ≡ false) × (V.active k.target_id now ≡ false)) js
          → All (λ k. (held s.locks k.target_id ≡ false) × (V.active k.target_id now ≡ false)) js
            × (mentions j.target_id js ≡ false)
      freed [] a = (tt, refl)
      freed (k ∷ js) ((a, b), rest) =
          let (all, absent) = freed js rest in
          (
            ((ground (arith, h k.target_id), b), all),
            ground (
              arith,
              h k.target_id,
              str_eq_iff j.target_id k.target_id,
              str_eq_iff k.target_id j.target_id,
            ),
          )
