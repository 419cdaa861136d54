-- ===== src/Routing/Route/Cascade.antt =====
-- The seven tiers: which binding decides a route.
use suprclaw_engine.Prelude.{
  ℕ, ◌≤◌, ◌<◌, ◌≡◌, ◌≢◌, refl, ap, Bool, true, false, ◌&&◌, not, List, Option, none, some,
  if◌then◌else◌, nat_eq, list_eq, is_nil, find, Option-cases, inl, inr, arith,
}
use mathlib.Core.List.{Memᴰ}
use native.Mathlib.Decide.{dec_le}
use suprclaw_engine.Prelude.Finding.{find_sound, find-none, keep_sound, keep_complete}
use suprclaw_engine.Prelude.Unicode.{Unicode, to_lower, trim_space}
use suprclaw_engine.Routing.AgentId.{normalize_account_id}
use suprclaw_engine.Routing.SessionKey.{RoutePeer}
use suprclaw_engine.Routing.Route.{
  AgentBinding, Config, RouteInput, MatchedBy, by_peer, by_parent, by_guild, by_team, by_account,
  by_channel, by_default, applies, matches_peer, matches_guild, matches_team, matches_account,
  matches_wildcard, find_peer_match, find_guild_match, find_team_match, find_account_match,
  find_channel_wildcard_match, cascade, pick_agent_id, resolve_route,
}
use suprclaw_engine.Routing.Route.Laws.{route_bindings}

-- The tiers from the strongest to the weakest.
abbrev pub rank : MatchedBy → ℕ
rank by_peer = 1
rank by_parent = 2
rank by_guild = 3
rank by_team = 4
rank by_account = 5
rank by_channel = 6
rank by_default = 7

module _ ⦃u : Unicode⦄ where
  abbrev pub peer_wants : Option RoutePeer → AgentBinding → Bool
  peer_wants none b = false
  peer_wants (some peer) b = not (is_nil (trim_space peer.id)) && matches_peer peer b

  -- A binding of the channel and account matches the message at a tier.
  abbrev pub wants : RouteInput → MatchedBy → AgentBinding → Bool
  wants input by_peer b = peer_wants input.peer b
  wants input by_parent b = peer_wants input.parent_peer b
  wants input by_guild b =
      not (is_nil (trim_space input.guild_id)) && matches_guild (trim_space input.guild_id) b
  wants input by_team b =
      not (is_nil (trim_space input.team_id)) && matches_team (trim_space input.team_id) b
  wants input by_account b = matches_account b
  wants input by_channel b = matches_wildcard b
  wants input by_default b = false

  -- The search of a tier.
  search_tier : RouteInput → List AgentBinding → MatchedBy → Option AgentBinding
  search_tier input bindings by_peer = find_peer_match bindings input.peer
  search_tier input bindings by_parent = find_peer_match bindings input.parent_peer
  search_tier input bindings by_guild = find_guild_match bindings input.guild_id
  search_tier input bindings by_team = find_team_match bindings input.team_id
  search_tier input bindings by_account = find_account_match bindings
  search_tier input bindings by_channel = find_channel_wildcard_match bindings
  search_tier input bindings by_default = none

  guarded_sound :
      (p : AgentBinding → Bool) (blank : Bool) (bindings : List AgentBinding) (b : AgentBinding)
      → (if blank then none else find p bindings) ≡ some b
      → Memᴰ b bindings × (not blank && p b ≡ true)
  guarded_sound p true bindings b h = absurd (ground arith)
  guarded_sound p false bindings b h = find_sound p bindings b h

  guarded_none :
      (p : AgentBinding → Bool) (blank : Bool) (bindings : List AgentBinding) (b : AgentBinding)
      → (if blank then none else find p bindings) ≡ none
      → Memᴰ b bindings
      → not blank && p b ≡ false
  guarded_none p true bindings b h m = refl
  guarded_none p false bindings b h m = find-none p bindings b h m

  peer_sound :
      (bindings : List AgentBinding) (peer : Option RoutePeer) (b : AgentBinding)
      → find_peer_match bindings peer ≡ some b
      → Memᴰ b bindings × (peer_wants peer b ≡ true)
  unfolding find_peer_match
  peer_sound bindings none b h = absurd (ground arith)
  peer_sound bindings (some peer) b h = guarded_sound (matches_peer peer) _ bindings b h

  peer_none :
      (bindings : List AgentBinding) (peer : Option RoutePeer) (b : AgentBinding)
      → find_peer_match bindings peer ≡ none
      → Memᴰ b bindings
      → peer_wants peer b ≡ false
  unfolding find_peer_match
  peer_none bindings none b h m = refl
  peer_none bindings (some peer) b h m = guarded_none (matches_peer peer) _ bindings b h m

  search_tier_sound :
      (input : RouteInput) (bindings : List AgentBinding) (t : MatchedBy) (b : AgentBinding)
      → search_tier input bindings t ≡ some b
      → Memᴰ b bindings × (wants input t b ≡ true)
  unfolding search_tier find_guild_match find_team_match find_account_match
      find_channel_wildcard_match
  search_tier_sound input bindings by_peer b h = peer_sound bindings input.peer b h
  search_tier_sound input bindings by_parent b h = peer_sound bindings input.parent_peer b h
  search_tier_sound input bindings by_guild b h = guarded_sound _ _ bindings b h
  search_tier_sound input bindings by_team b h = guarded_sound _ _ bindings b h
  search_tier_sound input bindings by_account b h = find_sound matches_account bindings b h
  search_tier_sound input bindings by_channel b h = find_sound matches_wildcard bindings b h
  search_tier_sound input bindings by_default b h = absurd (ground arith)

  search_tier-none :
      (input : RouteInput) (bindings : List AgentBinding) (t : MatchedBy) (b : AgentBinding)
      → search_tier input bindings t ≡ none
      → Memᴰ b bindings
      → wants input t b ≡ false
  unfolding search_tier find_guild_match find_team_match find_account_match
      find_channel_wildcard_match
  search_tier-none input bindings by_peer b h m = peer_none bindings input.peer b h m
  search_tier-none input bindings by_parent b h m = peer_none bindings input.parent_peer b h m
  search_tier-none input bindings by_guild b h m = guarded_none _ _ bindings b h m
  search_tier-none input bindings by_team b h m = guarded_none _ _ bindings b h m
  search_tier-none input bindings by_account b h m = find-none matches_account bindings b h m
  search_tier-none input bindings by_channel b h m = find-none matches_wildcard bindings b h m
  search_tier-none input bindings by_default b h m = refl

  -- The cascade returns the tier whose search found the binding.
  cascade_found :
      (cfg : Config) (input : RouteInput) (bindings : List AgentBinding)
      → (cascade cfg input bindings).0 ≢ by_default
      → (b : AgentBinding) × (search_tier input bindings (cascade cfg input bindings).0 ≡ some b)
        × ((cascade cfg input bindings).1 ≡ b.agent_id)
  unfolding cascade search_tier
  cascade_found cfg input bindings h =
      elim (Option-cases (search_tier input bindings (cascade cfg input bindings).0)) [
        | inl nothing ↦ absurd (ground arith)
        | inr (b, found) ↦ (b, found, ground arith)
      ]

  -- No search of a stronger tier found a binding.
  cascade_first :
      (cfg : Config) (input : RouteInput) (bindings : List AgentBinding) (t : MatchedBy)
      → rank t < rank (cascade cfg input bindings).0
      → search_tier input bindings t ≡ none
  unfolding cascade search_tier
  cascade_first cfg input bindings t h = ground arith

  -- A route that some binding decides: the binding is of the message's channel and account, it
  -- matches the message at the route's tier, and the route's agent is picked from its agent id.
  pub resolve_route_sound :
      (cfg : Config) (input : RouteInput)
      → (resolve_route cfg input).matched_by ≢ by_default
      → (b : AgentBinding) × Memᴰ b cfg.bindings
        × (applies (to_lower (trim_space input.channel)) (normalize_account_id input.account_id) b
            ≡ true)
        × (wants input (resolve_route cfg input).matched_by b ≡ true)
        × ((resolve_route cfg input).agent_id ≡ pick_agent_id cfg.agents b.agent_id)
  unfolding resolve_route
  resolve_route_sound cfg input h =
      let bindings = route_bindings cfg input in
      let (b, found, agent) = cascade_found cfg input bindings h in
      let (m, w) = search_tier_sound input bindings _ b found in
      let (m', a) = keep_sound _ cfg.bindings b m in
      (b, m', a, w, ap (pick_agent_id cfg.agents) agent)

  -- No binding of the message's channel and account matches the message at a stronger tier than the
  -- one that decided its route.
  pub resolve_route_priority :
      (cfg : Config) (input : RouteInput) (b : AgentBinding) (t : MatchedBy)
      → Memᴰ b cfg.bindings
      → applies (to_lower (trim_space input.channel)) (normalize_account_id input.account_id) b
        ≡ true
      → wants input t b ≡ true
      → rank (resolve_route cfg input).matched_by ≤ rank t
  unfolding resolve_route
  resolve_route_priority cfg input b t m a w =
      let bindings = route_bindings cfg input in
      elim (dec_le (rank (cascade cfg input bindings).0) (rank t)) [
        | yes le ↦ le
        | no gt ↦
            let missed =
              search_tier-none input bindings t b (cascade_first cfg input bindings t (omega arith))
                (keep_complete _ cfg.bindings b m a) in
            absurd (cc)
      ]
