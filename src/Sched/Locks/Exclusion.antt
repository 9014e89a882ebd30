-- ===== src/Sched/Locks/Exclusion.antt =====
-- internal/daemon/intervalsched/locks.go: the lock index refines a set of held targets.
use surfbot_agent.Base.{
  ℕ, ◌+◌, ◌-◌, if◌then◌else◌, ◌≤◌, ◌≡◌, Bool, not, ◌&&◌, ◌||◌, Option, none, some, String, arith,
  ltb, str_eq, str_eq_iff, string_eq,
}
use surfbot_agent.Base.Assoc.{lookup, insert, lookup-insert}
use surfbot_agent.Sched.Locks.{LockIndex, new_lock_index, try_acquire, release}

abbrev pub tokens_of : Option ℕ → ℕ
tokens_of none = 0
tokens_of (some n) = n

-- The abstract view: is the target's lock held?
unfoldable pub held : LockIndex → String → Bool
held i target = ltb 0 (tokens_of (lookup target i))

-- No channel holds more than its capacity of 1.
abbrev pub Capped : LockIndex → Type 0
Capped i = (target : String) → tokens_of (lookup target i) ≤ 1

pub new_lock_index-Capped : Capped new_lock_index
unfolding new_lock_index lookup
new_lock_index-Capped target = omega arith

pub try_acquire-Capped : (i : LockIndex) (t : String) → Capped i → Capped (try_acquire i t).0
unfolding try_acquire
try_acquire-Capped i t c u = ground (
  arith,
  c u,
  c t,
  lookup-insert t u 0 i,
  lookup-insert t u 1 i,
  lookup-insert t u 1 (insert t 0 i),
)

pub release-Capped : (i : LockIndex) (t : String) → Capped i → Capped (release i t)
unfolding release
release-Capped i t c u = ground (arith, c u, c t, lookup-insert t u 0 i)

-- `TryAcquire` succeeds exactly if the target's lock is free, and afterwards that lock and the locks
-- that were held before are held, and no other.
pub try_acquire-held :
    (i : LockIndex) (t u : String)
    → ((try_acquire i t).1 ≡ not (held i t))
      × (held (try_acquire i t).0 u ≡ (str_eq t u || held i u))
unfolding try_acquire held
try_acquire-held i t u = (
  ground (
    arith,
    lookup-insert t u 0 i,
    lookup-insert t u 1 i,
    lookup-insert t u 1 (insert t 0 i),
    str_eq_iff t u,
  ),
  ground (
    arith,
    lookup-insert t u 0 i,
    lookup-insert t u 1 i,
    lookup-insert t u 1 (insert t 0 i),
    str_eq_iff t u,
  ),
)

-- `Release` frees the target's lock, held or not, and leaves every other lock as it was.
pub release-held :
    (i : LockIndex) (t u : String)
    → Capped i
    → held (release i t) u ≡ (not (str_eq t u) && held i u)
unfolding release held
release-held i t u c = ground (arith, c t, lookup-insert t u 0 i, str_eq_iff t u)

-- The tokens in a target's channel.
unfoldable pub tokens : LockIndex → String → ℕ
tokens i target = tokens_of (lookup target i)

pub try_acquire-tokens :
    (i : LockIndex) (t u : String)
    → Capped i
    → tokens (try_acquire i t).0 u
      ≡ tokens i u + (if (try_acquire i t).1 && str_eq t u then 1 else 0)
unfolding try_acquire tokens
try_acquire-tokens i t u c = ground (
  arith,
  c t,
  c u,
  lookup-insert t u 0 i,
  lookup-insert t u 1 i,
  lookup-insert t u 1 (insert t 0 i),
  str_eq_iff t u,
)

pub release-tokens :
    (i : LockIndex) (t u : String)
    → Capped i
    → tokens (release i t) u ≡ tokens i u - (if str_eq t u then 1 else 0)
unfolding release tokens
release-tokens i t u c = ground (arith, c t, c u, lookup-insert t u 0 i, str_eq_iff t u)
