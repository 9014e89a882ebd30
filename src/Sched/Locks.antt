-- ===== src/Sched/Locks.antt =====
-- internal/daemon/intervalsched/locks.go: one lock for each target.
-- A lock is a channel of capacity 1, kept in a map under the target's ID and made on first touch;
-- its state is the number of tokens in it. A `select` with a `default` is a test of that number.
pub mod Exclusion
use surfbot_agent.Base.{
  ℕ, suc, ◌-◌, Bool, true, false, some, none, [], String, ltb, if◌then◌else◌, string_eq,
}
use surfbot_agent.Base.Assoc.{Assoc, lookup, insert}

abbrev pub LockIndex : Type 0
LockIndex = Assoc String ℕ

unfoldable pub new_lock_index : LockIndex
new_lock_index = []

-- The tokens in a target's channel, and the index with the channel made if it was not there.
unfoldable pub channel_for : LockIndex → String → LockIndex × ℕ
channel_for i target = elim (lookup target i) [
  | some tokens ↦ (i, tokens)
  | none ↦ (insert target 0 i, 0)
]

unfoldable pub try_acquire : LockIndex → String → LockIndex × Bool
unfolding channel_for
try_acquire i target =
    let (i', tokens) = channel_for i target in
    if ltb tokens 1 then (insert target (suc tokens) i', true) else (i', false)

unfoldable pub release : LockIndex → String → LockIndex
unfolding channel_for
release i target =
    let (i', tokens) = channel_for i target in
    if ltb 0 tokens then insert target (tokens - 1) i' else i'

unfoldable pub is_held : LockIndex → String → LockIndex × Bool
unfolding channel_for
is_held i target = let (i', tokens) = channel_for i target in (i', ltb 0 tokens)
