-- ===== src/Sched/Ticker/Rounds.antt =====
-- internal/daemon/intervalsched/scheduler.go: `tick` and `DispatchAdHoc` as rounds.
use surfbot_agent.Base.{
  ℕ, suc, ◌+◌, ◌-◌, ◌≡◌, refl, sym, ap, subst, ◌∙◌, Bool, true, false, List, [], ◌∷◌, String, arith,
  leb, length, str_eq, Bool-cases, Option-cases, ◌==◌, inl, inr, if◌then◌else◌,
}
use surfbot_agent.Model.{Time, Schedule, AdHocScanRun, running}
use surfbot_agent.Sched.Locks.{LockIndex, try_acquire, release}
use surfbot_agent.Sched.Locks.Exclusion.{
  held, Capped, try_acquire-held, try_acquire-Capped, release-Capped,
}
use surfbot_agent.Sched.Pool.{Job, dispatch, free}
use surfbot_agent.Sched.Pool.Queue.{dispatch-jobs}
use surfbot_agent.Sched.Ticker.{
  Services, State, job_of, dispatch_due, dispatch_round, list_due_overhead, dispatch_ad_hoc,
  ad_hoc_job, Reply, accepted, handle_blackout_skip, note_status,
}
use surfbot_agent.Sched.Ticker.Locking.{
  IsRound, idle-IsRound, later-IsRound, sent-IsRound, contended-SameLocks, freed-SameLocks,
}

abbrev pub was_accepted : Reply → Bool
was_accepted accepted = true
was_accepted _ = false

module _ (V : Services) where
  abbrev Rounds : Time → ℕ → State → State → Type 0
  Rounds now room s s' = (new : List Job) × IsRound V now room s s' new

  skip_frame :
      (sched : Schedule) (now : Time) (s : State)
      → ((handle_blackout_skip V sched now s).locks ≡ s.locks)
        × ((handle_blackout_skip V sched now s).pool ≡ s.pool)
  unfolding handle_blackout_skip
  skip_frame sched now s = (refl, refl)

  skip-Capped :
      (sched : Schedule) (now : Time) (s : State)
      → Capped s.locks
      → Capped (handle_blackout_skip V sched now s).locks
  skip-Capped sched now s c = subst Capped (sym (skip_frame sched now s).0) c

  one_more : (free n : ℕ) → leb free n ≡ false → suc (free - suc n) ≡ free - n
  one_more free n h = ground arith

  won_free : (i : LockIndex) (t : String) → (try_acquire i t).1 ≡ true → held i t ≡ false
  won_free i t h = ground (arith, try_acquire-held i t t)

  -- The loop of `tick` makes a round, whatever is due.
  dispatch_due-Rounds :
      (due : List Schedule) (n free : ℕ) (now : Time) (s : State)
      → Capped s.locks
      → Rounds now (free - n) s (dispatch_due V due n free now s)
  unfolding dispatch_due
  dispatch_due-Rounds [] n free now s c = ([], idle-IsRound V now (free - n) s s refl (λ u. refl) c)
  dispatch_due-Rounds (sched ∷ due) n free now s c =
      let t = sched.target_id in
      let locks = (try_acquire s.locks t).0 in
      let c' = try_acquire-Capped s.locks t c in
      let freed = record s { locks = release locks t } in
      let c'' = release-Capped locks t c' in
      let pool = (dispatch (job_of sched) s.pool).0 in
      let contended = dispatch_due-Rounds due n free now (record s { locks = locks }) c' in
      let skipped =
        dispatch_due-Rounds due n free now (handle_blackout_skip V sched now freed)
          (skip-Capped sched now freed c'') in
      let sent =
        dispatch_due-Rounds due (suc n) free now (record s { locks = locks; pool = pool }) c' in
      let after_send =
        dispatch_due V due (suc n) free now (record s { locks = locks; pool = pool }) in
      elim (Bool-cases (leb free n)) [
        | inl spent ↦
            rw (spent, dispatch_due) ([], idle-IsRound V now (free - n) s s refl (λ u. refl) c)
        | inr room ↦ elim (Bool-cases (try_acquire s.locks t).1) [
          | inr lost ↦
              rw (room, lost, dispatch_due)
                (
                  contended.0,
                  later-IsRound V now (free - n) s _ _ contended.0
                      (contended-SameLocks s.locks t lost) refl contended.1,
                )
          | inl won ↦ elim (Bool-cases (V.active t now)) [
            | inl dark ↦
                rw (room, won, dark, dispatch_due)
                  (
                    skipped.0,
                    later-IsRound V now (free - n) s _ _ skipped.0
                        (λ u.
                          ap (λ l. held l u) (skip_frame sched now freed).0
                          ∙ freed-SameLocks s.locks t c won u)
                        (ap (λ q. q.jobs) (skip_frame sched now freed).1) skipped.1,
                  )
            | inr calm ↦ elim (Bool-cases (dispatch (job_of sched) s.pool).1) [
              | inr refused ↦
                  rw (room, won, calm, refused, dispatch_due)
                    (
                      [],
                      idle-IsRound V now (free - n) s freed refl (freed-SameLocks s.locks t c won)
                          c'',
                    )
              | inl taken ↦
                  rw (room, won, calm, taken, dispatch_due)
                    (
                      job_of sched ∷ sent.0,
                      subst (λ k. IsRound V now k s after_send (job_of sched ∷ sent.0))
                          (one_more free n room)
                          (sent-IsRound V now (free - suc n) s _ _ (job_of sched) sent.0
                            (won_free s.locks t won) calm (λ u. (try_acquire-held s.locks t u).1)
                            (dispatch-jobs (job_of sched) s.pool ∙ rw taken) sent.1),
                    )
            ]
          ]
        ]
      ]

  sub-zero : (n : ℕ) → n - 0 ≡ n
  sub-zero n = omega arith

  -- A tick queues at most as many jobs as the pool has free slots, no two for one target and none for a
  -- target that was locked or is inside a blackout; afterwards the locked targets are those that were
  -- locked before and those of the queued jobs, so that no path of the tick leaks or loses a lock.
  pub dispatch_round-IsRound :
      (now : Time) (s : State)
      → Capped s.locks
      → (new : List Job) × IsRound V now (free s.pool) s (dispatch_round V now s) new
  unfolding dispatch_round
  dispatch_round-IsRound now s c =
      let slots = free s.pool in
      let still : Rounds now slots s s = ([], idle-IsRound V now slots s s refl (λ u. refl) c) in
      elim (Bool-cases (slots == 0)) [
        | inl none_free ↦ rw (none_free, dispatch_round) still
        | inr some_free ↦ elim (Option-cases (V.list_due now (slots + list_due_overhead))) [
          | inl failed ↦ rw (some_free, failed, dispatch_round) still
          | inr (due, e) ↦
              rw (some_free, e, dispatch_round)
                (subst (λ k. Rounds now k s (dispatch_due V due 0 slots now s)) (sub-zero slots)
                  (dispatch_due-Rounds due 0 slots now s c))
        ]
      ]

  -- An ad-hoc dispatch is a round of at most one job: it queues one exactly if it is accepted, and every
  -- refusal leaves all locks and the queue as they were.
  pub dispatch_ad_hoc-IsRound :
      (run : AdHocScanRun) (new_id : String) (now : Time) (s : State)
      → Capped s.locks
      → (new : List Job) × IsRound V now 1 s (dispatch_ad_hoc V run new_id now s).0 new
        × (length new ≡ (if was_accepted (dispatch_ad_hoc V run new_id now s).1 then 1 else 0))
  unfolding dispatch_ad_hoc
  dispatch_ad_hoc-IsRound run new_id now s c =
      let t = run.target_id in
      let locks = (try_acquire s.locks t).0 in
      let c' = try_acquire-Capped s.locks t c in
      let c'' = release-Capped locks t c' in
      let id = if str_eq run.id "" then new_id else run.id in
      let job = ad_hoc_job (record run { id = id }) in
      let after_send = record s {
        locks = locks;
        pool = (dispatch job s.pool).0;
        effects = note_status V id running s.effects;
      } in
      elim (Bool-cases (str_eq t "")) [
        | inl unnamed ↦
            rw (unnamed, dispatch_ad_hoc) ([], idle-IsRound V now 1 s s refl (λ u. refl) c, refl)
        | inr named ↦ elim (Bool-cases (try_acquire s.locks t).1) [
          | inr lost ↦
              rw (named, lost, dispatch_ad_hoc)
                ([], idle-IsRound V now 1 s _ refl (contended-SameLocks s.locks t lost) c', refl)
          | inl won ↦ elim (Bool-cases (V.active t now)) [
            | inl dark ↦
                rw (named, won, dark, dispatch_ad_hoc)
                  ([], idle-IsRound V now 1 s _ refl (freed-SameLocks s.locks t c won) c'', refl)
            | inr calm ↦ elim (Bool-cases (dispatch job s.pool).1) [
              | inr refused ↦
                  rw (named, won, calm, refused, dispatch_ad_hoc)
                    ([], idle-IsRound V now 1 s _ refl (freed-SameLocks s.locks t c won) c'', refl)
              | inl taken ↦
                  rw (named, won, calm, taken, dispatch_ad_hoc)
                    (
                      job ∷ [],
                      sent-IsRound V now 0 s after_send after_send job [] (won_free s.locks t won)
                          calm (λ u. (try_acquire-held s.locks t u).1)
                          (dispatch-jobs job s.pool ∙ rw taken)
                          (idle-IsRound V now 0 after_send after_send refl (λ u. refl) c'),
                      refl,
                    )
            ]
          ]
        ]
      ]
