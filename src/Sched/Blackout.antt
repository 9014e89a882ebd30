-- ===== src/Sched/Blackout.antt =====
-- internal/daemon/intervalsched/blackout.go: which targets are inside a blackout window, and until when.
-- The mutex makes each read and write of the cache one step. The clock and the store's answer are
-- arguments. A duration in seconds is small enough for its nanoseconds to fit an int64.
pub mod Coverage
pub mod Windows
pub mod Cache
pub mod Fresh
pub mod Ends
use surfbot_agent.Base.{
  ℕ, ◌+◌, ◌-◌, ◌*◌, ◌<◌, Bool, true, false, not, ◌&&◌, ◌||◌, Option, none, some, List, [], ◌∷◌,
  ◌++◌, String, ltb, leb, str_eq, string_eq, if◌then◌else◌,
}
use surfbot_agent.Base.Int.{ℤ, pos_part}
use surfbot_agent.Base.Assoc.{Assoc, lookup, insert}
use surfbot_agent.Model.{
  Time, second, is_zero, BlackoutWindow, BlackoutScope, global, target, other_scope, Failure,
  Result, ok, err, ◌>>=◌, bad_timezone, bad_rrule, rule_not_built,
}
use surfbot_agent.Sched.Rules.{RuleLib}

abbrev pub cache_ttl : ℕ
cache_ttl = 30_000_000_000

abbrev pub blackout_horizon_past : ℕ
blackout_horizon_past = 604_800_000_000_000

abbrev pub or_err {ℓ} : {A : Type ℓ} → Option A → Failure → Result A
or_err (some a) e = ok a
or_err none e = err e

-- The loop over `Between`: the first occurrence that covers `at`.
unfoldable pub covering : ℕ → Time → List Time → Option Time
covering dur at [] = none
covering dur at (t ∷ ts) = if leb t at && ltb at (t + dur) then some t else covering dur at ts

-- A read of a map of slices: a missing key is the empty slice.
abbrev pub or_nil {ℓ} : {A : Type ℓ} → Option (List A) → List A
or_nil (some xs) = xs
or_nil none = []

module _ (R : RuleLib) where
  open R use {
    Location, Rule, load_location, str_to_roption, new_rrule, dtstart, set_dtstart, between,
  }

  pub record CachedWindow : Type 0 where
    pub window : BlackoutWindow
    pub rule : Rule
    pub loc : Location

  pub record Evaluator : Type 0 where
    pub globals : List CachedWindow
    pub per_target : Assoc String (List CachedWindow)
    pub last_refresh : Time
    pub refresh_err : Bool
    pub populated_ok : Bool

  unfoldable pub new_evaluator : Evaluator
  new_evaluator = record {
    globals = [];
    per_target = [];
    last_refresh = 0;
    refresh_err = false;
    populated_ok = false;
  }

  unfoldable pub build_cached_window : BlackoutWindow → Result CachedWindow
  build_cached_window w = do
    loc ← or_err (load_location w.timezone) bad_timezone
    opt ← or_err (str_to_roption w.rrule) bad_rrule
    let start = if is_zero (dtstart opt) then w.created_at else dtstart opt
    rule ← or_err (new_rrule (set_dtstart opt start loc)) rule_not_built
    ok (record { window = w; rule = rule; loc = loc })

  abbrev pub windows_of : String → Assoc String (List CachedWindow) → List CachedWindow
  windows_of t m = or_nil (lookup t m)

  -- The two caches under construction.
  abbrev pub Caches : Type 0
  Caches = List CachedWindow × Assoc String (List CachedWindow)

  abbrev pub place_window : BlackoutScope → Option String → CachedWindow → Caches → Caches
  place_window global t c (gs, ts) = (gs ++ c ∷ [], ts)
  place_window target none c (gs, ts) = (gs, ts)
  place_window target (some t) c (gs, ts) =
      (gs, if str_eq t "" then ts else insert t (windows_of t ts ++ c ∷ []) ts)
  place_window (other_scope s) t c (gs, ts) = (gs, ts)

  -- One round of the loop of `Refresh`: disabled and broken windows are skipped.
  unfoldable pub cache_window : BlackoutWindow → Caches → Caches
  cache_window w caches =
      if w.enabled
      then elim (build_cached_window w) [
        | ok c ↦ place_window w.scope w.target_id c caches
        | err e ↦ caches
      ]
      else caches

  unfoldable pub cache_windows : List BlackoutWindow → Caches → Caches
  cache_windows [] caches = caches
  cache_windows (w ∷ ws) caches = cache_windows ws (cache_window w caches)

  -- `none` is a failed listing; the Boolean tells that an error is returned.
  unfoldable pub refresh : Evaluator → Option (List BlackoutWindow) → Time → Evaluator × Bool
  refresh e none now = (record e { refresh_err = true }, true)
  refresh e (some windows) now =
      let caches = cache_windows windows ([], []) in
      (
        record {
          globals = caches.0;
          per_target = caches.1;
          last_refresh = now;
          refresh_err = false;
          populated_ok = true;
        },
        false,
      )

  unfoldable pub ensure_fresh : Evaluator → Option (List BlackoutWindow) → Time → Evaluator
  ensure_fresh e listing now =
      if not e.populated_ok || ltb cache_ttl (now - e.last_refresh)
      then (refresh e listing now).0
      else e

  abbrev pub duration : CachedWindow → ℕ
  duration c = pos_part c.window.duration_sec * second

  unfoldable pub covering_start : CachedWindow → Time → Option Time
  covering_start c at =
      if ltb 0 (duration c)
      then covering (duration c) at (between c.rule (at - blackout_horizon_past) (at + 1) true)
      else none

  unfoldable pub occurrence_covers : CachedWindow → Time → Bool
  occurrence_covers c at = elim (covering_start c at) [ some t ↦ true | none ↦ false ]

  unfoldable pub active_occurrence_end : CachedWindow → Time → Option Time
  active_occurrence_end c at = elim (covering_start c at) [
    | some t ↦ some (t + duration c)
    | none ↦ none
  ]

  unfoldable pub first_active : List CachedWindow → Time → Option BlackoutWindow
  first_active [] at = none
  first_active (c ∷ cs) at = if occurrence_covers c at then some c.window else first_active cs at

  -- `IsActive` after its refresh: the window found, or `none` for `false`.
  unfoldable pub active_window : Evaluator → String → Time → Option BlackoutWindow
  active_window e t at = elim (first_active e.globals at) [
    | some w ↦ some w
    | none ↦ first_active (windows_of t e.per_target) at
  ]

  unfoldable pub is_active :
      Evaluator
      → Option (List BlackoutWindow)
      → Time
      → String
      → Time
      → Evaluator × Option BlackoutWindow
  is_active e listing now t at = let e' = ensure_fresh e listing now in (e', active_window e' t at)

  unfoldable pub with_id : String → List CachedWindow → List CachedWindow
  with_id id [] = []
  with_id id (c ∷ cs) = let rest = with_id id cs in if str_eq c.window.id id then c ∷ rest else rest

  unfoldable pub first_end : List CachedWindow → Time → Option Time
  first_end [] at = none
  first_end (c ∷ cs) at = elim (active_occurrence_end c at) [
    | some end ↦ some end
    | none ↦ first_end cs at
  ]

  unfoldable pub find_active_end : Evaluator → String → BlackoutWindow → Time → Time
  find_active_end e t w at =
      elim (first_end (with_id w.id e.globals ++ with_id w.id (windows_of t e.per_target)) at) [
        | some end ↦ end
        | none ↦ at + second
      ]

  -- `NextWindowEnd` after its refresh.
  unfoldable pub window_end : Evaluator → String → Time → Option Time
  window_end e t at = elim (active_window e t at) [
    | none ↦ none
    | some w ↦ some (find_active_end e t w at)
  ]
