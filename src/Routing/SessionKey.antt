-- ===== src/Routing/SessionKey.antt =====
-- pkg/routing/session_key.go: the keys under which conversations are stored.
pub mod Laws
pub mod Owner
pub mod Heartbeat
pub mod Links
use suprclaw_engine.Prelude.{
  ℕ, Bool, true, false, ◌&&◌, ◌||◌, not, List, [], ◌∷◌, ◌++◌, Option, none, some, if◌then◌else◌,
  ◌==◌, nat_eq, list_eq, is_nil, contains,
}
use suprclaw_engine.Prelude.Text.{Text, codes, cut, has_prefix}
use suprclaw_engine.Prelude.Unicode.{Unicode, to_lower, trim_space}
use suprclaw_engine.Routing.AgentId.{
  normalize_agent_id, normalize_account_id, default_main_key, default_heartbeat_key,
}

-- `DMScope` is a string in the source; any other value behaves as `main`.
abbrev pub DmScope : Type 0
DmScope = Text

abbrev pub dm_scope_main : DmScope
dm_scope_main = codes "main"

abbrev pub dm_scope_per_peer : DmScope
dm_scope_per_peer = codes "per-peer"

abbrev pub dm_scope_per_channel_peer : DmScope
dm_scope_per_channel_peer = codes "per-channel-peer"

abbrev pub dm_scope_per_account_channel_peer : DmScope
dm_scope_per_account_channel_peer = codes "per-account-channel-peer"

abbrev pub direct : Text
direct = codes "direct"

pub record RoutePeer : Type 0 where
  pub kind : Text
  pub id : Text

-- A Go map, as the list of its entries in the order in which `range` visits them.
abbrev pub IdentityLinks : Type 0
IdentityLinks = List (Text × List Text)

pub record SessionKeyParams : Type 0 where
  pub agent_id : Text
  pub channel : Text
  pub account_id : Text
  pub peer : Option RoutePeer
  pub dm_scope : DmScope
  pub identity_links : IdentityLinks

pub record ParsedSessionKey : Type 0 where
  pub agent_id : Text
  pub rest : Text

-- `fmt.Sprintf("agent:%s:%s", agent, rest)`.
abbrev pub agent_key : Text → Text → Text
agent_key agent rest = codes "agent:" ++ (agent ++ (b':' ∷ rest))

module _ ⦃u : Unicode⦄ where
  unfoldable pub build_agent_main_session_key : Text → Text
  build_agent_main_session_key agent_id = agent_key (normalize_agent_id agent_id) default_main_key

  unfoldable pub build_agent_heartbeat_session_key : Text → Text
  build_agent_heartbeat_session_key agent_id =
      agent_key (normalize_agent_id agent_id) default_heartbeat_key

  -- `none` is the panic on an empty run id.
  unfoldable pub build_agent_heartbeat_run_session_key : Text → Text → Option Text
  build_agent_heartbeat_run_session_key agent_id run_id =
      let normalized = trim_space (to_lower run_id) in
      if is_nil normalized
      then none
      else some
          (agent_key (normalize_agent_id agent_id) (default_heartbeat_key ++ (b':' ∷ normalized)))

  unfoldable pub normalize_channel : Text → Text
  normalize_channel channel =
      let c = trim_space (to_lower channel) in if is_nil c then codes "unknown" else c

  -- The set `candidates`, as a list.
  unfoldable pub link_candidates : Text → Text → List Text
  link_candidates channel peer_id =
      let raw = to_lower peer_id in
      let chan = to_lower (trim_space channel) in
      let bare : List Text = elim (cut b':' raw) [
        | none ↦ []
        | some (before, after) ↦ if is_nil before || is_nil after then [] else after ∷ []
      ] in
      let scoped : List Text = if is_nil chan then [] else (chan ++ (b':' ∷ raw)) ∷ [] in
      let first : List Text = if is_nil raw then [] else raw ∷ [] in first ++ (scoped ++ bare)

  -- The inner loop: one of the ids is a candidate.
  unfoldable pub links_to : List Text → List Text → Bool
  links_to candidates [] = false
  links_to candidates (id ∷ ids) =
      let normalized = to_lower (trim_space id) in
      not (is_nil normalized) && contains candidates normalized || links_to candidates ids

  -- The outer loop.
  unfoldable pub find_link : List Text → IdentityLinks → Text
  find_link candidates [] = []
  find_link candidates ((canonical, ids) ∷ links) =
      let name = trim_space canonical in
      let rest = find_link candidates links in
      if not (is_nil name) && links_to candidates ids then name else rest

  unfoldable pub resolve_linked_peer_id : IdentityLinks → Text → Text → Text
  resolve_linked_peer_id links channel peer_id =
      let id = trim_space peer_id in
      let candidates = link_candidates channel id in
      if is_nil links || is_nil id || is_nil candidates then [] else find_link candidates links

  -- The peer id of a direct message, after the identity links.
  unfoldable pub direct_peer_id : SessionKeyParams → DmScope → RoutePeer → Text
  direct_peer_id params dm_scope peer =
      let peer_id = trim_space peer.id in
      let linked = resolve_linked_peer_id params.identity_links params.channel peer_id in
      to_lower (
        if not (dm_scope == dm_scope_main) && not (is_nil peer_id) && not (is_nil linked)
        then linked
        else peer_id)

  -- The branch for direct messages.
  unfoldable pub direct_session_key : SessionKeyParams → Text → RoutePeer → Text
  unfolding direct_peer_id
  direct_session_key params agent peer =
      let dm_scope = if is_nil params.dm_scope then dm_scope_main else params.dm_scope in
      let peer_id = direct_peer_id params dm_scope peer in
      let channel = normalize_channel params.channel in
      let tail = direct ++ (b':' ∷ peer_id) in
      if is_nil peer_id
      then build_agent_main_session_key agent
      else if dm_scope == dm_scope_per_account_channel_peer
      then agent_key agent
          (channel ++ (b':' ∷ (normalize_account_id params.account_id ++ (b':' ∷ tail))))
      else if dm_scope == dm_scope_per_channel_peer
      then agent_key agent (channel ++ (b':' ∷ tail))
      else if dm_scope == dm_scope_per_peer
      then agent_key agent tail
      else build_agent_main_session_key agent

  -- The branch for groups and channels.
  unfoldable pub group_session_key : SessionKeyParams → Text → Text → RoutePeer → Text
  group_session_key params agent peer_kind peer =
      let channel = normalize_channel params.channel in
      let peer_id = to_lower (trim_space peer.id) in
      let id = if is_nil peer_id then codes "unknown" else peer_id in
      agent_key agent (channel ++ (b':' ∷ (peer_kind ++ (b':' ∷ id))))

  abbrev pub peer_or_direct : Option RoutePeer → RoutePeer
  peer_or_direct none = record { kind = direct; id = [] }
  peer_or_direct (some peer) = peer

  unfoldable pub build_agent_peer_session_key : SessionKeyParams → Text
  unfolding direct_session_key group_session_key
  build_agent_peer_session_key params =
      let agent = normalize_agent_id params.agent_id in
      let peer = peer_or_direct params.peer in
      let trimmed = trim_space peer.kind in
      let peer_kind = if is_nil trimmed then direct else trimmed in
      if peer_kind == direct
      then direct_session_key params agent peer
      else group_session_key params agent peer_kind peer

  -- `strings.SplitN(raw, ":", 3)` is two cuts at the first colon.
  unfoldable pub parse_agent_session_key : Text → Option ParsedSessionKey
  parse_agent_session_key session_key =
      let raw = trim_space session_key in
      if is_nil raw then none else elim (cut b':' raw) [
        | none ↦ none
        | some (part0, tail) ↦ elim (cut b':' tail) [
          | none ↦ none
          | some (part1, part2) ↦
              let agent = trim_space part1 in
              if not (part0 == codes "agent") || is_nil agent || is_nil part2
              then none
              else some (record { agent_id = agent; rest = part2 })
        ]
      ]

  abbrev pub rest_begins : Text → Option ParsedSessionKey → Bool
  rest_begins prefix none = false
  rest_begins prefix (some parsed) = has_prefix (to_lower parsed.rest) prefix

  unfoldable pub is_subagent_session_key : Text → Bool
  is_subagent_session_key session_key =
      let raw = trim_space session_key in
      if is_nil raw
      then false
      else if has_prefix (to_lower raw) (codes "subagent:")
      then true
      else rest_begins (codes "subagent:") (parse_agent_session_key raw)

  -- The test of the rest of the key.
  abbrev pub is_heartbeat_rest : Option ParsedSessionKey → Bool
  is_heartbeat_rest none = false
  is_heartbeat_rest (some parsed) =
      let rest = to_lower (trim_space parsed.rest) in
      rest == default_heartbeat_key || has_prefix rest (default_heartbeat_key ++ codes ":")

  unfoldable pub is_heartbeat_session_key : Text → Bool
  is_heartbeat_session_key session_key =
      is_heartbeat_rest (parse_agent_session_key (trim_space session_key))
