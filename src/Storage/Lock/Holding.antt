-- ===== src/Storage/Lock/Holding.antt =====
-- internal/storage/scheduler_lock.go: who holds the lock across the operations of several processes.
use surfbot_agent.Base.{
  ℕ, ◌-◌, ◌≤◌, ◌<◌, ◌≡◌, refl, Bool, true, false, not, ◌&&◌, some, List, [], ◌∷◌, arith, leb, ◌==◌,
  str_eq, str_eq_iff, if◌then◌else◌, Bool-cases, inl, inr,
}
use surfbot_agent.Model.{Time, second, is_zero}
use surfbot_agent.Storage.Lock.{
  SchedulerLock, Owner, Row, owns, stored, lock_at, row_at, acquired, lock_held, is_fresh,
  acquire_scheduler_lock, refresh_scheduler_lock, release_scheduler_lock,
}

-- An operation of a process at a time; with an acquisition, the age from which a heartbeat is stale.
pub data Op : Type 0 where
  acquires : Owner → ℕ → Time → Op
  refreshes : Owner → Time → Op
  releases : Owner → Op

unfoldable pub perform : Op → Row → Row × Bool
perform (acquires o stale now) row =
    let (row', answer) = acquire_scheduler_lock o stale now row in
    (row', elim answer [ acquired l ↦ true | lock_held l ↦ false ])
perform (refreshes o now) row = refresh_scheduler_lock o now row
perform (releases o) row = (release_scheduler_lock o row, true)

unfoldable pub same_owner : Owner → Owner → Bool
same_owner o p = o.0 == p.0 && str_eq o.1 p.1

-- While the holder `p`, whose last heartbeat was stored as `beat`, only refreshes, and nobody tries to acquire
-- at a time when that heartbeat is stale. The times of heartbeats are not in the first second.
abbrev pub Alive : Owner → Time → List Op → Type 0
Alive p beat [] = Unit {0}
Alive p beat (acquires o stale now ∷ ops) = (now - beat ≤ stale) × Alive p beat ops
Alive p beat (refreshes o now ∷ ops) =
    if same_owner o p then (second ≤ now) × Alive p (stored now) ops else Alive p beat ops
Alive p beat (releases o ∷ ops) = (same_owner o p ≡ false) × Alive p beat ops

unfoldable pub perform_all : List Op → Row → Row
perform_all [] row = row
perform_all (op ∷ ops) row = perform_all ops (perform op row).0

-- What the operations answer, one after the other, and what is expected while `p` holds the lock.
unfoldable pub answers : List Op → Row → List Bool
answers [] row = []
answers (op ∷ ops) row = (perform op row).1 ∷ answers ops (perform op row).0

unfoldable pub expected : Owner → List Op → List Bool
expected p [] = []
expected p (acquires o stale now ∷ ops) = false ∷ expected p ops
expected p (refreshes o now ∷ ops) = same_owner o p ∷ expected p ops
expected p (releases o ∷ ops) = true ∷ expected p ops

stored-pos : (t : Time) → second ≤ t → 1 ≤ stored t
unfolding stored
stored-pos t h = omega arith

owns-same_owner : (o p : Owner) (l : SchedulerLock) → owns p l ≡ true → owns o l ≡ same_owner o p
unfolding same_owner
owns-same_owner o p l h =
    ground (arith, str_eq_iff l.hostname p.1, str_eq_iff l.hostname o.1, str_eq_iff o.1 p.1)

-- What holds of the row while `p` keeps the lock.
pub record HeldBy (p : Owner) (beat : Time) (l : SchedulerLock) : Type 0 where
  pub owned : owns p l ≡ true
  pub last_beat : l.heartbeat_at ≡ beat
  pub not_zero : 1 ≤ beat

abbrev pub Kept : Owner → List Op → SchedulerLock → Type 0
Kept p ops l =
    (l' : SchedulerLock) × (perform_all ops (some l) ≡ some l')
    × (owns p l' ≡ true)
    × (answers ops (some l) ≡ expected p ops)

Kept-on :
    (p : Owner) (op : Op) (ops : List Op) (l l₁ : SchedulerLock) (b : Bool)
    → perform op (some l) ≡ (some l₁, b)
    → expected p (op ∷ ops) ≡ b ∷ expected p ops
    → Kept p ops l₁
    → Kept p (op ∷ ops) l
unfolding perform_all answers
Kept-on p op ops l l₁ b e f (l', a, own, c) = (l', rw (e, perform_all) a, own, rw (e, f, c) refl)

acquire-refused :
    (p o : Owner) (beat now : Time) (stale : ℕ) (l : SchedulerLock)
    → HeldBy p beat l
    → now - beat ≤ stale
    → perform (acquires o stale now) (some l) ≡ (some l, false)
unfolding perform acquire_scheduler_lock is_fresh
acquire-refused p o beat now stale l h fresh =
    let test : (not (is_zero l.heartbeat_at) && leb (now - l.heartbeat_at) stale) ≡ true =
      ground (arith, h.last_beat, h.not_zero) in
    rw test refl

refresh-own :
    (p o : Owner) (now : Time) (l : SchedulerLock)
    → owns p l ≡ true
    → same_owner o p ≡ true
    → perform (refreshes o now) (some l) ≡ (some (record l { heartbeat_at = stored now }), true)
unfolding perform refresh_scheduler_lock
refresh-own p o now l h e = rw (owns-same_owner o p l h, e) refl

refresh-other :
    (p o : Owner) (now : Time) (l : SchedulerLock)
    → owns p l ≡ true
    → same_owner o p ≡ false
    → perform (refreshes o now) (some l) ≡ (some l, false)
unfolding perform refresh_scheduler_lock
refresh-other p o now l h e = rw (owns-same_owner o p l h, e) refl

release-other :
    (p o : Owner) (l : SchedulerLock)
    → owns p l ≡ true
    → same_owner o p ≡ false
    → perform (releases o) (some l) ≡ (some l, true)
unfolding perform release_scheduler_lock
release-other p o l h e = rw (owns-same_owner o p l h, e) refl

-- A process that holds the lock and goes on refreshing keeps it through any operations of others, as long as
-- nobody tries to acquire it at a time when the last heartbeat, as stored, is stale: every acquisition is
-- refused, exactly its own refreshes succeed, and it owns the row at the end.
pub keeps_lock :
    (p : Owner) (beat : Time) (l : SchedulerLock) (ops : List Op)
    → HeldBy p beat l
    → Alive p beat ops
    → Kept p ops l
unfolding perform_all answers expected
keeps_lock p beat l [] h alive = (l, refl, h.owned, refl)
keeps_lock p beat l (acquires o stale now ∷ ops) h (fresh, alive) =
    Kept-on p (acquires o stale now) ops l l false (acquire-refused p o beat now stale l h fresh)
      refl (keeps_lock p beat l ops h alive)
keeps_lock p beat l (refreshes o now ∷ ops) h alive = elim (Bool-cases (same_owner o p)) [
  | inl own ↦
      let (late, rest) : (second ≤ now) × Alive p (stored now) ops = rw own at alive in
      let renewed = record l { heartbeat_at = stored now } in
      Kept-on p (refreshes o now) ops l renewed true (refresh-own p o now l h.owned own)
        (rw own refl)
        (keeps_lock p (stored now) renewed ops
          (record { owned = h.owned; last_beat = refl; not_zero = stored-pos now late }) rest)
  | inr other ↦
      Kept-on p (refreshes o now) ops l l false (refresh-other p o now l h.owned other)
        (rw other refl) (keeps_lock p beat l ops h (rw other at alive))
]
keeps_lock p beat l (releases o ∷ ops) h (other, alive) =
    Kept-on p (releases o) ops l l true (release-other p o l h.owned other) refl
      (keeps_lock p beat l ops h alive)

-- Once the holder's heartbeat is older than allowed, the next acquisition succeeds, whoever asks; and a former
-- holder that is another process is then fenced off: its refreshes fail, and its release changes nothing.
pub takeover :
    (o p : Owner) (stale : ℕ) (now later : Time) (l : SchedulerLock)
    → stale < now - l.heartbeat_at
    → same_owner p o ≡ false
    → let row = (acquire_scheduler_lock o stale now (some l)).0 in
      ((acquire_scheduler_lock o stale now (some l)).1 ≡ acquired (lock_at o now))
      × (refresh_scheduler_lock p later row ≡ (row, false))
      × (release_scheduler_lock p row ≡ row)
unfolding acquire_scheduler_lock refresh_scheduler_lock release_scheduler_lock is_fresh same_owner
takeover o p stale now later l old other =
    let test : (not (is_zero l.heartbeat_at) && leb (now - l.heartbeat_at) stale) ≡ false =
      ground arith in
    let apart : owns p (row_at o now) ≡ false =
      ground (arith, str_eq_iff o.1 p.1, str_eq_iff p.1 o.1) in
    rw (test, apart) (refl, refl, refl)
