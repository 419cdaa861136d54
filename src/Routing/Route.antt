-- ===== src/Routing/Route.antt =====
-- pkg/routing/route.go: which agent handles an inbound message, and under which session key. The
-- parts of pkg/config/config.go that it reads are records here, with the fields that it reads.
pub mod Laws
pub mod Cascade
use suprclaw_engine.Prelude.{
  Bool, true, false, ◌&&◌, ◌||◌, not, List, [], ◌∷◌, Option, none, some, if◌then◌else◌, ◌==◌,
  nat_eq, list_eq, is_nil, find, keep,
}
use suprclaw_engine.Prelude.Text.{Text, codes}
use suprclaw_engine.Prelude.Unicode.{Unicode, to_lower, trim_space}
use suprclaw_engine.Routing.AgentId.{
  normalize_agent_id, normalize_account_id, default_agent_id, default_account_id,
}
use suprclaw_engine.Routing.SessionKey.{
  RoutePeer, IdentityLinks, dm_scope_main, build_agent_peer_session_key,
  build_agent_main_session_key,
}

pub record AgentConfig : Type 0 where
  pub id : Text
  pub default : Bool

pub record BindingMatch : Type 0 where
  pub channel : Text
  pub account_id : Text
  pub peer : Option RoutePeer
  pub guild_id : Text
  pub team_id : Text

pub record AgentBinding : Type 0 where
  pub agent_id : Text
  pub when : BindingMatch

pub record Config : Type 0 where
  pub agents : List AgentConfig
  pub bindings : List AgentBinding
  pub dm_scope : Text
  pub identity_links : IdentityLinks

pub record RouteInput : Type 0 where
  pub channel : Text
  pub account_id : Text
  pub peer : Option RoutePeer
  pub parent_peer : Option RoutePeer
  pub guild_id : Text
  pub team_id : Text

-- The values of `MatchedBy`, `binding.peer` to `default`, in the order of the cascade.
pub data MatchedBy : Type 0 where
  by_peer by_parent by_guild by_team by_account by_channel by_default : MatchedBy

pub record ResolvedRoute : Type 0 where
  pub agent_id : Text
  pub channel : Text
  pub account_id : Text
  pub session_key : Text
  pub main_session_key : Text
  pub matched_by : MatchedBy

abbrev pub wildcard : Text
wildcard = codes "*"

abbrev pub is_none {ℓ} : {A : Type ℓ} → Option A → Bool
is_none none = true
is_none (some a) = false

-- `agents[0]`, when there is one.
abbrev pub first_agent_id : List AgentConfig → Text
first_agent_id [] = []
first_agent_id (a ∷ agents) = a.id

module _ ⦃u : Unicode⦄ where
  unfoldable pub matches_account_id : Text → Text → Bool
  matches_account_id match_account_id actual =
      let trimmed = trim_space match_account_id in
      if is_nil trimmed
      then actual == default_account_id
      else if trimmed == wildcard
      then true
      else to_lower trimmed == to_lower actual

  -- The body of the loop of `filterBindings`.
  unfoldable pub applies : Text → Text → AgentBinding → Bool
  unfolding matches_account_id
  applies channel account_id b =
      let match_channel = to_lower (trim_space b.when.channel) in
      not (is_nil match_channel)
      && match_channel == channel
      && matches_account_id b.when.account_id account_id

  abbrev pub filter_bindings : List AgentBinding → Text → Text → List AgentBinding
  filter_bindings bindings channel account_id = keep (applies channel account_id) bindings

  -- The body of the loop of `findPeerMatch`.
  unfoldable pub matches_peer : RoutePeer → AgentBinding → Bool
  matches_peer peer b = elim b.when.peer [
    | none ↦ false
    | some p ↦
        let kind = to_lower (trim_space p.kind) in
        let id = trim_space p.id in
        not (is_nil kind) && not (is_nil id) && kind == to_lower peer.kind && id == peer.id
  ]

  unfoldable pub matches_guild : Text → AgentBinding → Bool
  matches_guild guild_id b =
      let guild = trim_space b.when.guild_id in not (is_nil guild) && guild == guild_id

  unfoldable pub matches_team : Text → AgentBinding → Bool
  matches_team team_id b =
      let team = trim_space b.when.team_id in not (is_nil team) && team == team_id

  -- No peer, guild or team restricts the binding.
  abbrev pub is_open : AgentBinding → Bool
  is_open b = is_none b.when.peer && is_nil b.when.guild_id && is_nil b.when.team_id

  unfoldable pub matches_account : AgentBinding → Bool
  matches_account b = not (trim_space b.when.account_id == wildcard) && is_open b

  unfoldable pub matches_wildcard : AgentBinding → Bool
  matches_wildcard b = trim_space b.when.account_id == wildcard && is_open b

  -- The guarded searches of the cascade.
  unfoldable pub find_peer_match : List AgentBinding → Option RoutePeer → Option AgentBinding
  find_peer_match bindings none = none
  find_peer_match bindings (some peer) =
      if is_nil (trim_space peer.id) then none else find (matches_peer peer) bindings

  unfoldable pub find_guild_match : List AgentBinding → Text → Option AgentBinding
  find_guild_match bindings guild =
      let guild_id = trim_space guild in
      if is_nil guild_id then none else find (matches_guild guild_id) bindings

  unfoldable pub find_team_match : List AgentBinding → Text → Option AgentBinding
  find_team_match bindings team =
      let team_id = trim_space team in
      if is_nil team_id then none else find (matches_team team_id) bindings

  unfoldable pub find_account_match : List AgentBinding → Option AgentBinding
  find_account_match = find matches_account

  unfoldable pub find_channel_wildcard_match : List AgentBinding → Option AgentBinding
  find_channel_wildcard_match = find matches_wildcard

  -- A default agent whose id is not blank.
  abbrev pub is_default_agent : AgentConfig → Bool
  is_default_agent a = a.default && not (is_nil (trim_space a.id))

  unfoldable pub resolve_default_agent_id : List AgentConfig → Text
  resolve_default_agent_id agents =
      let id = trim_space (first_agent_id agents) in
      let first = if is_nil id then default_agent_id else normalize_agent_id id in
      elim (find is_default_agent agents) [
        | none ↦ first
        | some a ↦ normalize_agent_id (trim_space a.id)
      ]

  -- Some configured agent has the normalised id.
  unfoldable pub is_configured : Text → List AgentConfig → Bool
  is_configured normalized [] = false
  is_configured normalized (a ∷ agents) =
      normalize_agent_id a.id == normalized || is_configured normalized agents

  unfoldable pub pick_agent_id : List AgentConfig → Text → Text
  pick_agent_id agents agent_id =
      let trimmed = trim_space agent_id in
      let normalized = normalize_agent_id trimmed in
      let fallback = normalize_agent_id (resolve_default_agent_id agents) in
      if is_nil trimmed
      then fallback
      else if is_nil agents || is_configured normalized agents
      then normalized
      else fallback

  -- `if match := …; match != nil { return choose(match.AgentID, tier) }`, before the rest.
  abbrev pub or_next : Option AgentBinding → MatchedBy → MatchedBy × Text → MatchedBy × Text
  or_next none tier next = next
  or_next (some b) tier next = (tier, b.agent_id)

  -- The tier that decides, and the agent id that is chosen.
  unfoldable pub cascade : Config → RouteInput → List AgentBinding → MatchedBy × Text
  cascade cfg input bindings = or_next (find_peer_match bindings input.peer) by_peer (
      or_next (find_peer_match bindings input.parent_peer) by_parent (
        or_next (find_guild_match bindings input.guild_id) by_guild (
          or_next (find_team_match bindings input.team_id) by_team (
            or_next (find_account_match bindings) by_account (
              or_next (find_channel_wildcard_match bindings) by_channel
                (by_default, resolve_default_agent_id cfg.agents))))))

  -- The closure `choose`.
  unfoldable pub choose : Config → Text → Text → Option RoutePeer → MatchedBy × Text → ResolvedRoute
  choose cfg channel account_id peer (matched_by, agent_id) =
      let resolved = pick_agent_id cfg.agents agent_id in
      record {
        agent_id = resolved;
        channel = channel;
        account_id = account_id;
        session_key = to_lower (
            build_agent_peer_session_key (record {
              agent_id = resolved;
              channel = channel;
              account_id = account_id;
              peer = peer;
              dm_scope = if is_nil cfg.dm_scope then dm_scope_main else cfg.dm_scope;
              identity_links = cfg.identity_links;
            }));
        main_session_key = to_lower (build_agent_main_session_key resolved);
        matched_by = matched_by;
      }

  unfoldable pub resolve_route : Config → RouteInput → ResolvedRoute
  unfolding choose cascade
  resolve_route cfg input =
      let channel = to_lower (trim_space input.channel) in
      let account_id = normalize_account_id input.account_id in
      let bindings = filter_bindings cfg.bindings channel account_id in
      choose cfg channel account_id input.peer (cascade cfg input bindings)
