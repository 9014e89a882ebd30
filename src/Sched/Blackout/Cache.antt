-- ===== src/Sched/Blackout/Cache.antt =====
-- internal/daemon/intervalsched/blackout.go: what a refresh puts into the cache, and when the cache serves.
use surfbot_agent.Base.{
  ◌≡◌, refl, sym, ◌∙◌, Bool, true, false, ◌&&◌, not, Option, none, some, List, [], ◌∷◌, ◌++◌,
  String, arith, str_eq, str_eq_iff, string_eq, if◌then◌else◌, Bool-cases, inl, inr, ap,
}
use surfbot_agent.Base.Assoc.{lookup, insert, lookup-insert}
use surfbot_agent.Model.{
  Time, BlackoutWindow, BlackoutScope, global, target, other_scope, Result, ok, err,
}
use surfbot_agent.Sched.Rules.{RuleLib}
use surfbot_agent.Sched.Blackout.{
  CachedWindow, Evaluator, Caches, or_nil, build_cached_window, windows_of, place_window,
  cache_window, cache_windows, refresh,
}
use mathlib.Core.List.{append-nil, append_assoc}

-- The reference: does a window apply to every target, or to target `t`?
abbrev pub is_global : BlackoutScope → Bool
is_global global = true
is_global _ = false

abbrev pub is_for : String → BlackoutScope → Option String → Bool
is_for t target (some u) = not (str_eq u "") && str_eq u t
is_for t _ _ = false

module _ (R : RuleLib) where
  -- The windows of a listing that are enabled, can be built and pass a test, in the store's order.
  unfoldable pub built :
      (BlackoutScope → Option String → Bool) → List BlackoutWindow → List (CachedWindow R)
  built p [] = []
  built p (w ∷ ws) =
      let rest = built p ws in
      if w.enabled && p w.scope w.target_id
      then elim (build_cached_window R w) [ ok c ↦ c ∷ rest | err e ↦ rest ]
      else rest

  abbrev pub built_one :
      (BlackoutScope → Option String → Bool) → BlackoutWindow → List (CachedWindow R)
  built_one p w =
      if w.enabled && p w.scope w.target_id
      then elim (build_cached_window R w) [ ok c ↦ c ∷ [] | err e ↦ [] ]
      else []

  pub built-cons :
      (p : BlackoutScope → Option String → Bool) (w : BlackoutWindow) (ws : List BlackoutWindow)
      → built p (w ∷ ws) ≡ built_one p w ++ built p ws
  unfolding built
  built-cons p w ws = ground arith

  place-global :
      (s : BlackoutScope) (u : Option String) (c : CachedWindow R) (caches : Caches R)
      → (place_window R s u c caches).0 ≡ caches.0 ++ (if is_global s then c ∷ [] else [])
  place-global global u c caches = refl
  place-global target none c (gs, ts) = sym (append-nil gs)
  place-global target (some x) c (gs, ts) = sym (append-nil gs)
  place-global (other_scope x) u c (gs, ts) = sym (append-nil gs)

  windows_of-insert :
      (t u : String) (cs : List (CachedWindow R)) (ts : List (String × List (CachedWindow R)))
      → windows_of R t (insert u cs ts) ≡ (if str_eq u t then cs else windows_of R t ts)
  windows_of-insert t u cs ts = ap or_nil (lookup-insert u t cs ts) ∙ pick (str_eq u t)
    where
      pick :
          (b : Bool)
          → or_nil (if b then some cs else lookup t ts) ≡ (if b then cs else windows_of R t ts)
      pick true = refl
      pick false = refl

  own :
      (t u : String) (c : CachedWindow R) (ts : List (String × List (CachedWindow R)))
      → (if str_eq u t then windows_of R u ts ++ c ∷ [] else windows_of R t ts)
        ≡ windows_of R t ts ++ (if str_eq u t then c ∷ [] else [])
  own t u c ts = elim (Bool-cases (str_eq u t)) [
    | inl same ↦
        let e : u ≡ t = (str_eq_iff u t).0 same in rw same (ap (λ x. windows_of R x ts ++ c ∷ []) e)
    | inr other ↦ rw other (sym (append-nil (windows_of R t ts)))
  ]

  place-target :
      (t : String) (s : BlackoutScope) (u : Option String) (c : CachedWindow R) (caches : Caches R)
      → windows_of R t (place_window R s u c caches).1
        ≡ windows_of R t caches.1 ++ (if is_for t s u then c ∷ [] else [])
  place-target t global u c (gs, ts) = sym (append-nil (windows_of R t ts))
  place-target t (other_scope x) u c (gs, ts) = sym (append-nil (windows_of R t ts))
  place-target t target none c (gs, ts) = sym (append-nil (windows_of R t ts))
  place-target t target (some u) c (gs, ts) = elim (Bool-cases (str_eq u "")) [
    | inl empty ↦ rw empty (sym (append-nil (windows_of R t ts)))
    | inr named ↦ rw (named, windows_of-insert t u (windows_of R u ts ++ c ∷ []) ts) (own t u c ts)
  ]

  nothing : (b : Bool) (xs : List (CachedWindow R)) → xs ≡ xs ++ (if b then [] else [])
  nothing true xs = sym (append-nil xs)
  nothing false xs = sym (append-nil xs)

  cached_cases :
      (b : Bool) (r : Result (CachedWindow R)) (s : BlackoutScope) (u : Option String)
      (caches : Caches R) (t : String)
      → let next =
          if b
          then elim r as (λ x. Caches R) [ ok c ↦ place_window R s u c caches | err e ↦ caches ]
          else caches in
        (next.0
          ≡ caches.0
            ++ (if b && is_global s
                then elim r as (λ x. List (CachedWindow R)) [ ok c ↦ c ∷ [] | err e ↦ [] ]
                else []))
        × (windows_of R t next.1
            ≡ windows_of R t caches.1
              ++ (if b && is_for t s u
                  then elim r as (λ x. List (CachedWindow R)) [ ok c ↦ c ∷ [] | err e ↦ [] ]
                  else []))
  cached_cases true (ok c) s u caches t = (place-global s u c caches, place-target t s u c caches)
  cached_cases true (err e) s u caches t =
      (nothing (is_global s) caches.0, nothing (is_for t s u) (windows_of R t caches.1))
  cached_cases false r s u caches t =
      (sym (append-nil caches.0), sym (append-nil (windows_of R t caches.1)))

  cache_window-caches :
      (t : String) (w : BlackoutWindow) (caches : Caches R)
      → ((cache_window R w caches).0 ≡ caches.0 ++ built_one (λ s u. is_global s) w)
        × (windows_of R t (cache_window R w caches).1
            ≡ windows_of R t caches.1 ++ built_one (is_for t) w)
  unfolding cache_window
  cache_window-caches t w caches =
      cached_cases w.enabled (build_cached_window R w) w.scope w.target_id caches t

  cache_windows-caches :
      (t : String) (ws : List BlackoutWindow) (caches : Caches R)
      → ((cache_windows R ws caches).0 ≡ caches.0 ++ built (λ s u. is_global s) ws)
        × (windows_of R t (cache_windows R ws caches).1
            ≡ windows_of R t caches.1 ++ built (is_for t) ws)
  unfolding cache_windows
  cache_windows-caches t [] caches =
      unfold built in (sym (append-nil caches.0), sym (append-nil (windows_of R t caches.1)))
  cache_windows-caches t (w ∷ ws) caches =
      let (g, p) = cache_window-caches t w caches in
      let (g', p') = cache_windows-caches t ws (cache_window R w caches) in
      (
        chain _ _ caches.0 _ _ _ g g' (built-cons (λ s u. is_global s) w ws),
        chain _ _ (windows_of R t caches.1) _ _ _ p p' (built-cons (is_for t) w ws),
      )
    where
      chain :
          (a b c r x o : List (CachedWindow R)) → a ≡ c ++ o → b ≡ a ++ r → x ≡ o ++ r → b ≡ c ++ x
      chain a b c r x o e f g =
          f ∙ ap (λ l. l ++ r) e ∙ append_assoc c o r ∙ ap (λ l. c ++ l) (sym g)

  -- A refresh from a listing caches, in the store's order, exactly the enabled windows that can be
  -- built: those of global scope for all, and for each target those of target scope that name it.
  -- A failed listing keeps the cache.
  pub refresh_caches :
      (e : Evaluator R) (ws : List BlackoutWindow) (now : Time) (t : String)
      → ((refresh R e (some ws) now).0.globals ≡ built (λ s u. is_global s) ws)
        × (windows_of R t (refresh R e (some ws) now).0.per_target ≡ built (is_for t) ws)
        × ((refresh R e none now).0.globals ≡ e.globals)
        × ((refresh R e none now).0.per_target ≡ e.per_target)
  unfolding refresh lookup
  refresh_caches e ws now t = let (g, p) = cache_windows-caches t ws ([], []) in (g, p, refl, refl)
