-- ===== src/Watch/Model/Follows.antt =====
-- Every call keeps the invariant of the watch, and its subscription follows its scope.
use zodex.Common.{
  ◌≤◌, ◌<◌, ◌≡◌, refl, sym, ap, ◌∙◌, inl, inr, Bool, true, false, List, [], ◌∷◌, Option, none, some,
  if◌then◌else◌, Bool-cases, length, Bytes, eq_bytes_iff,
}
use zodex.Watch.Records.{eq_option}
use zodex.Watch.State.{
  ApiAgent, WatchEffect, resubscribe, refresh_agents, WatchApp, scope_filter, stream_filter,
  u16_mod,
}
use zodex.Watch.View.{Display}
use zodex.Watch.Arrivals.{sanitize_agents_for_terminal, rescoped, set_agents}
use zodex.Watch.Model.Valid.{AllClean, IsValid, same-IsValid, rescoped-IsValid}

-- The filter of the last subscription that the effects ask for.
abbrev pub followed : Option Bytes → List WatchEffect → Option Bytes
followed filter [] = filter
followed filter (resubscribe new_filter ∷ effects) = new_filter
followed filter (effect ∷ effects) = followed filter effects

module _ (display : Display) where
  pub record Good (app : WatchApp) (r : WatchApp × List WatchEffect) : Type 0 where
    pub valid : IsValid display r.0
    pub follows : followed (stream_filter app) r.1 ≡ stream_filter r.0

  -- A change of what neither the selection nor the scope depends on.
  pub same-Good :
      (app app' : WatchApp)
      → IsValid display app
      → app'.picker_index ≤ length app'.agents
      → app'.selected ≤ app.selected
      → app'.scroll < u16_mod
      → AllClean app'.live_output
      → app'.cards ≡ app.cards
      → app'.scope ≡ app.scope
      → app'.search_query ≡ app.search_query
      → Good app (app', [])
  unfolding stream_filter
  same-Good app app' v there selected scroll clean cards scope query = record {
    valid = same-IsValid display app app' v there selected scroll clean cards scope query;
    follows = ap scope_filter (sym scope);
  }

  eq_option-eq : (a b : Option Bytes) → eq_option a b ≡ true → a ≡ b
  eq_option-eq none none h = refl
  eq_option-eq (some a) (some b) h = ap some ((eq_bytes_iff a b).0 h)
  eq_option-eq _ _ h = cc

  pub set_agents-Good :
      (agents : List ApiAgent) (app : WatchApp)
      → IsValid display app
      → Good app (set_agents display agents app)
  unfolding set_agents
  set_agents-Good agents app v =
      let app' = rescoped display (sanitize_agents_for_terminal display agents) app in
      let v' = rescoped-IsValid display (sanitize_agents_for_terminal display agents) app v in
      elim (Bool-cases (eq_option (stream_filter app') (stream_filter app))) [
        | inl same ↦ rw same (record { valid = v'; follows = sym (eq_option-eq _ _ same) })
        | inr other ↦ rw other (record { valid = v'; follows = refl })
      ]

  pub if-Good :
      (app : WatchApp) (test : Bool) (x y : WatchApp × List WatchEffect)
      → Good app x
      → Good app y
      → Good app (if test then x else y)
  if-Good app true x y h k = h
  if-Good app false x y h k = k

  pub unchanged-Good : (app : WatchApp) → IsValid display app → Good app (app, [])
  unchanged-Good app v = record { valid = v; follows = refl }

  pub refresh-Good :
      (app app' : WatchApp) → Good app (app', []) → Good app (app', refresh_agents ∷ [])
  refresh-Good app app' g = record { valid = g.valid; follows = g.follows }

  -- A change after a change without effects.
  pub then-Good :
      (app middle : WatchApp) (r : WatchApp × List WatchEffect)
      → Good app (middle, [])
      → Good middle r
      → Good app r
  then-Good app middle r g h = record {
    valid = h.valid;
    follows = ap (λ (f : Option Bytes). followed f r.1) g.follows ∙ h.follows;
  }
