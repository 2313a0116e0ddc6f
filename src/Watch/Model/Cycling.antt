-- ===== src/Watch/Model/Cycling.antt =====
-- What is subscribed to follows the scope from agent to agent.
use zodex.Common.{
  ℕ, zero, suc, ◌<◌, ◌≡◌, refl, sym, ap, ◌∙◌, inl, inr, Bool, true, false, ◌&&◌, List, [], ◌∷◌,
  Option, none, some, arith, ◌==◌, if◌then◌else◌, Bool-cases, length, get_elem?,
}
use zodex.Watch.Records.{eq_option}
use zodex.Watch.State.{
  ApiAgent, WatchScope, waiting, picker, all_agents, unattributed, agent_scope, WatchEffect,
  resubscribe, WatchApp, scope_filter, is_waiting, stream_filter, automatic_scope_for_agents,
  reset_selection,
}
use zodex.Watch.View.{Display}
use zodex.Watch.Arrivals.{sanitize_agents_for_terminal, rescoped, set_agents}
use zodex.Watch.Input.{cycle_to, current_index, scoped_to, cycle_agents_after_refresh}
use zodex.Watch.Model.Valid.{
  IsValid, position_from-lt, get_elem?-some, rescoped-IsValid, reset-IsValid,
}
use zodex.Watch.Model.Follows.{Good}

module _ (display : Display) where
  -- An agent that is there is gone to, from whatever was followed before.
  pub scoped_to-Good :
      (base app : WatchApp) (index : ℕ)
      → IsValid display app
      → index < length app.agents
      → (r : WatchApp × List WatchEffect) × (scoped_to display app (get_elem? app.agents index)
          ≡ some r)
        × Good display base r
  unfolding stream_filter
  scoped_to-Good base app index v h =
      let (agent, found) = get_elem?-some app.agents index h in
      (
        (
          reset_selection (record app { scope = agent_scope agent.id }),
          resubscribe (some agent.id) ∷ [],
        ),
        rw found refl,
        record {
          valid =
              reset-IsValid display app (record app { scope = agent_scope agent.id }) v
                v.picker_there v.clean v.in_order;
          follows = refl;
        },
      )

  cycle_to-lt :
      (agents : List ApiAgent) (negative : Bool) (current : Option ℕ)
      → 0 < length agents
      → ((index : ℕ) → current ≡ some index → index < length agents)
      → cycle_to display agents negative current < length agents
  unfolding cycle_to
  cycle_to-lt agents false (some index) h inside = grind (arith, inside index)
  cycle_to-lt agents true (some zero) h inside = omega arith
  cycle_to-lt agents true (some (suc index)) h inside =
      let i = inside (suc index) refl in omega arith
  cycle_to-lt agents true none h inside = omega arith
  cycle_to-lt agents false none h inside = h

  current_index-lt :
      (scope : WatchScope) (agents : List ApiAgent) (index : ℕ)
      → current_index display scope agents ≡ some index
      → index < length agents
  current_index-lt (agent_scope id) agents index h =
      let i = position_from-lt 0 id agents index h in omega arith
  current_index-lt _ agents index h = cc

  pub cycle-Good :
      (negative : Bool) (base app : WatchApp)
      → IsValid display app
      → (length app.agents ≡ 0 → stream_filter base ≡ stream_filter app)
      → (r : WatchApp × List WatchEffect) × (cycle_agents_after_refresh display negative app
          ≡ some r)
        × Good display base r
  unfolding cycle_agents_after_refresh
  cycle-Good negative base app v same = elim (Bool-cases (length app.agents == 0)) [
    | inl empty ↦ ((app, []), rw empty refl, record { valid = v; follows = same (ground arith) })
    | inr agents ↦
        rw (cycle_agents_after_refresh, agents)
          (scoped_to-Good base app _ v (
            cycle_to-lt app.agents negative (current_index display app.scope app.agents)
              (ground arith) (current_index-lt app.scope app.agents)))
  ]

  set_agents-app :
      (agents : List ApiAgent) (app : WatchApp)
      → (set_agents display agents app).0
        ≡ rescoped display (sanitize_agents_for_terminal display agents) app
  unfolding set_agents
  set_agents-app agents app =
      elim (Bool-cases (
        eq_option
          (stream_filter (rescoped display (sanitize_agents_for_terminal display agents) app))
          (stream_filter app))) [ inl same ↦ rw same refl | inr other ↦ rw other refl ]

  agents-rescoped :
      (agents : List ApiAgent) (app : WatchApp) → (rescoped display agents app).agents ≡ agents
  unfolding rescoped
  agents-rescoped agents app = ground arith

  scope-rescoped :
      (agents : List ApiAgent) (app : WatchApp)
      → (rescoped display agents app).scope ≡ (
          if app.automatic_scope && is_waiting app.scope
          then automatic_scope_for_agents agents
          else app.scope)
  unfolding rescoped
  scope-rescoped agents app = ground arith

  kept_filter :
      (automatic : Bool) (scope : WatchScope)
      → scope_filter (if automatic && is_waiting scope then waiting else scope) ≡ scope_filter scope
  kept_filter false scope = refl
  kept_filter true waiting = refl
  kept_filter true picker = refl
  kept_filter true all_agents = refl
  kept_filter true unattributed = refl
  kept_filter true (agent_scope id) = refl

  -- With no agents left the scope stays.
  filter-rescoped :
      (agents : List ApiAgent) (app : WatchApp)
      → length agents ≡ 0
      → stream_filter app ≡ stream_filter (rescoped display agents app)
  unfolding rescoped stream_filter automatic_scope_for_agents
  filter-rescoped [] app h =
      sym (kept_filter app.automatic_scope app.scope)
      ∙ ap scope_filter (sym (scope-rescoped [] app))
  filter-rescoped (agent ∷ agents) app h = absurd (omega arith)

  -- The effects of the agents' arrival can be dropped before the next agent is gone to.
  pub cycled-Good :
      (agents : List ApiAgent) (negative : Bool) (app : WatchApp)
      → IsValid display app
      → (r : WatchApp × List WatchEffect) × (cycle_agents_after_refresh display negative
            (set_agents display agents app).0
          ≡ some r)
        × Good display app r
  cycled-Good agents negative app v =
      let fresh = sanitize_agents_for_terminal display agents in
      rw (set_agents-app agents app) (
        cycle-Good negative app (rescoped display fresh app) (rescoped-IsValid display fresh app v)
          (λ none_left.
            filter-rescoped fresh app (ap length (sym (agents-rescoped fresh app)) ∙ none_left)))
