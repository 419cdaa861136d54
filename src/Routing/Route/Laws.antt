-- ===== src/Routing/Route/Laws.antt =====
-- Which agent a route names, and the keys that it carries.
use suprclaw_engine.Prelude.{
  ◌≡◌, refl, sym, true, false, ◌||◌, List, [], ◌∷◌, some, if◌then◌else◌, nat_eq, list_eq, is_nil,
  find, Bool-cases, Option-cases, inl, inr, arith, All,
}
use mathlib.Core.List.{Memᴰ}
use suprclaw_engine.Prelude.Finding.{find_sound}
use suprclaw_engine.Prelude.Text.{Text, trim_left, trim_right}
use suprclaw_engine.Prelude.Unicode.{Unicode, to_lower, trim_space, trim_space_idem}
use suprclaw_engine.Routing.AgentId.{normalize_agent_id, normalize_account_id}
use suprclaw_engine.Routing.AgentId.Laws.{IsSafe, normalize_agent_id-IsSafe}
use suprclaw_engine.Routing.AgentId.Stable.{normalize_agent_id_thrice}
use suprclaw_engine.Routing.SessionKey.{parse_agent_session_key}
use suprclaw_engine.Routing.SessionKey.Laws.{agent_of}
use suprclaw_engine.Routing.SessionKey.Owner.{owned, Owned-peer, Owned-main, Owned-to_lower}
use suprclaw_engine.Routing.Route.{
  AgentBinding, AgentConfig, Config, RouteInput, first_agent_id, is_default_agent,
  resolve_default_agent_id, is_configured, pick_agent_id, filter_bindings, cascade, resolve_route,
}

module _ ⦃u : Unicode⦄ where
  -- The bindings of the message's channel and account.
  abbrev pub route_bindings : Config → RouteInput → List AgentBinding
  route_bindings cfg input =
      filter_bindings cfg.bindings (to_lower (trim_space input.channel))
        (normalize_account_id input.account_id)

  -- The text whose normalised form `pick_agent_id` returns.
  picked : List AgentConfig → Text → Text
  picked agents id =
      if is_nil (trim_space id)
      then resolve_default_agent_id agents
      else if is_nil agents || is_configured (normalize_agent_id (trim_space id)) agents
      then trim_space id
      else resolve_default_agent_id agents

  pick_agent_id-eq :
      (agents : List AgentConfig) (id : Text)
      → pick_agent_id agents id ≡ normalize_agent_id (picked agents id)
  unfolding pick_agent_id picked
  pick_agent_id-eq agents id = ground arith

  pick_agent_id_settled :
      (agents : List AgentConfig) (id : Text)
      → let picked_id = pick_agent_id agents id in
        normalize_agent_id (normalize_agent_id picked_id) ≡ normalize_agent_id picked_id
  pick_agent_id_settled agents id =
      rw (pick_agent_id-eq agents id) (normalize_agent_id_thrice (picked agents id))

  -- Both keys of a route parse back to the normalised id of the route's agent, for every
  -- configuration and message.
  pub resolve_route-owner :
      (cfg : Config) (input : RouteInput)
      → let route = resolve_route cfg input in
        (agent_of (parse_agent_session_key route.session_key)
          ≡ some (normalize_agent_id route.agent_id))
        × (agent_of (parse_agent_session_key route.main_session_key)
            ≡ some (normalize_agent_id route.agent_id))
  unfolding resolve_route
  resolve_route-owner cfg input =
      let chosen = cascade cfg input (route_bindings cfg input) in
      let resolved : Text = pick_agent_id cfg.agents chosen.1 in
      let safe = normalize_agent_id-IsSafe resolved in
      let settled = pick_agent_id_settled cfg.agents chosen.1 in
      (
        owned _ _ safe (Owned-to_lower _ _ safe (Owned-peer _ settled)),
        owned _ _ safe (Owned-to_lower _ _ safe (Owned-main resolved)),
      )

  -- The agent id of a route is a safe id, for every configuration and message.
  resolve_route-IsSafe :
      (cfg : Config) (input : RouteInput) → IsSafe (resolve_route cfg input).agent_id
  unfolding resolve_route
  resolve_route-IsSafe cfg input =
      let chosen = cascade cfg input (route_bindings cfg input) in
      rw (pick_agent_id-eq cfg.agents chosen.1)
        (normalize_agent_id-IsSafe (picked cfg.agents chosen.1))

  normalize_agent_id-trim_space :
      (id : Text) → normalize_agent_id (trim_space id) ≡ normalize_agent_id id
  unfolding normalize_agent_id
  normalize_agent_id-trim_space id = rw (trim_space_idem id)

  is_configured_of_mem :
      (agents : List AgentConfig) (a : AgentConfig) (x : Text)
      → Memᴰ a agents
      → normalize_agent_id a.id ≡ x
      → is_configured x agents ≡ true
  unfolding is_configured
  is_configured_of_mem [] a x m e = elim m [ ]
  is_configured_of_mem (b ∷ agents) a x (Memᴰ.head same) e =
      let k : normalize_agent_id b.id ≡ x = rw same at e in ground arith
  is_configured_of_mem (b ∷ agents) a x (Memᴰ.tail m) e =
      ground (arith, is_configured_of_mem agents a x m e)

  -- A second normalisation keeps the ids of all agents.
  abbrev pub AllSettled : List AgentConfig → Type 0
  AllSettled =
      All (λ (a : AgentConfig).
        normalize_agent_id (normalize_agent_id a.id) ≡ normalize_agent_id a.id)

  settled_of_mem :
      (agents : List AgentConfig) (a : AgentConfig)
      → AllSettled agents
      → Memᴰ a agents
      → normalize_agent_id (normalize_agent_id a.id) ≡ normalize_agent_id a.id
  settled_of_mem [] a h m = elim m [ ]
  settled_of_mem (b ∷ agents) a h (Memᴰ.head e) = rw e h.0
  settled_of_mem (b ∷ agents) a h (Memᴰ.tail m) = settled_of_mem agents a h.1 m

  no_first : ¬ (is_nil (trim_space (first_agent_id [])) ≡ false)
  unfolding trim_space trim_left trim_right
  no_first h = cc

  -- The default agent is one of the list.
  default_mem :
      (agents : List AgentConfig)
      → is_nil (trim_space (first_agent_id agents)) ≡ false
      → (a : AgentConfig) × Memᴰ a agents
        × (resolve_default_agent_id agents ≡ normalize_agent_id a.id)
  unfolding resolve_default_agent_id
  default_mem [] h = absurd (no_first h)
  default_mem (b ∷ agents) h = elim (Option-cases (find is_default_agent (b ∷ agents))) [
    | inl none_found ↦ (
      b,
      Memᴰ.head refl,
      rw (none_found, resolve_default_agent_id) (rw h (normalize_agent_id-trim_space b.id)),
    )
    | inr (a, found) ↦ (
      a,
      (find_sound is_default_agent (b ∷ agents) a found).0,
      rw (found, resolve_default_agent_id) (normalize_agent_id-trim_space a.id),
    )
  ]

  pick_agent_id-configured :
      (agents : List AgentConfig) (id : Text)
      → AllSettled agents
      → is_nil (trim_space (first_agent_id agents)) ≡ false
      → is_configured (pick_agent_id agents id) agents ≡ true
  unfolding pick_agent_id
  pick_agent_id-configured [] id settled h = absurd (no_first h)
  pick_agent_id-configured (b ∷ rest) id settled h =
      let agents = b ∷ rest in
      let (a, m, e) = default_mem agents h in
      let again = settled_of_mem agents a settled m in
      let fallback : is_configured (normalize_agent_id (resolve_default_agent_id agents)) agents
          ≡ true =
        is_configured_of_mem agents a _ m (rw e (sym again)) in
      elim (Bool-cases (is_nil (trim_space id))) [
        | inl blank ↦ rw (blank, pick_agent_id) fallback
        | inr given ↦
            elim (Bool-cases (is_configured (normalize_agent_id (trim_space id)) agents)) [
              | inl known ↦ rw (given, known, pick_agent_id) known
              | inr unknown ↦ rw (given, unknown, pick_agent_id) fallback
            ]
      ]

  -- When agents are configured, the first one has an id that is not blank, and a second
  -- normalisation keeps their ids, every message is routed to one of them.
  resolve_route-configured :
      (cfg : Config) (input : RouteInput)
      → AllSettled cfg.agents
      → is_nil (trim_space (first_agent_id cfg.agents)) ≡ false
      → is_configured (resolve_route cfg input).agent_id cfg.agents ≡ true
  unfolding resolve_route
  resolve_route-configured cfg input settled h =
      pick_agent_id-configured cfg.agents (cascade cfg input (route_bindings cfg input)).1 settled h
