-- ===== src/Routing/Tests.antt =====
-- Runs of the routing code, and its theorems at concrete data.
use mathlib.Core.List.{Memᴰ}
use suprclaw_engine.Prelude.{
  ◌≡◌, ap, ◌≤◌, refl, true, false, List, [], ◌∷◌, none, some, arith, list_eq, nat_eq, is_nil, keep,
  if◌then◌else◌,
}
use suprclaw_engine.Prelude.Text.{
  Text, codes, trim_left, trim_right, has_prefix, cut, contains_text, count_text,
}
use suprclaw_engine.Prelude.Text.Laws.{head_is}
use suprclaw_engine.Prelude.Unicode.{to_lower, trim_space}
use suprclaw_engine.Prelude.Unicode.Ascii.{ascii}
use suprclaw_engine.Providers.Message.{Message, ToolCall}
use suprclaw_engine.Routing.AgentId.{
  normalize_agent_id, normalize_account_id, valid_id, sanitize, replace_invalid, is_alnum, is_dash,
  is_id_char,
}
use suprclaw_engine.Routing.AgentId.Laws.{IsSafe, normalize_agent_id-IsSafe}
use suprclaw_engine.Routing.AgentId.Stable.{normalize_agent_id_twice}
use suprclaw_engine.Routing.SessionKey.{
  SessionKeyParams, IdentityLinks, build_agent_peer_session_key, build_agent_main_session_key,
  build_agent_heartbeat_run_session_key, parse_agent_session_key, resolve_linked_peer_id,
  link_candidates, links_to, find_link, normalize_channel,
}
use suprclaw_engine.Routing.SessionKey.Laws.{agent_of}
use suprclaw_engine.Routing.SessionKey.Owner.{parse-build_agent_peer_session_key}
use suprclaw_engine.Routing.SessionKey.Links.{Links}
use suprclaw_engine.Routing.Route.{
  AgentBinding, Config, RouteInput, by_peer, by_channel, ResolvedRoute, resolve_route,
  pick_agent_id, resolve_default_agent_id, is_configured, applies, matches_peer, matches_guild,
  matches_team, matches_account, matches_wildcard, find_peer_match, find_guild_match,
  find_team_match, find_account_match, find_channel_wildcard_match,
}
use suprclaw_engine.Routing.Route.Laws.{resolve_route-owner}
use suprclaw_engine.Routing.Route.Cascade.{rank, wants, resolve_route_sound, resolve_route_priority}
use suprclaw_engine.Routing.Features.{Features, extract_features, count_cjk}
use suprclaw_engine.Routing.Router.{is_simple}

normalize : Text → Text
unfolding normalize_agent_id valid_id sanitize replace_invalid trim_space to_lower trim_left
    trim_right is_id_char is_alnum is_dash
normalize id = normalize_agent_id id

normalize_runs :
    (normalize (codes "  Sales Bot!! ") ≡ codes "sales-bot")
    × (normalize (codes " ") ≡ codes "main")
    × (normalize (codes "_x-") ≡ codes "_x")
unfolding normalize
normalize_runs = (refl, refl, refl)

normalize_agent_id-IsSafe_example : IsSafe (normalize_agent_id (codes "--A b"))
normalize_agent_id-IsSafe_example = normalize_agent_id-IsSafe (codes "--A b")

normalize_agent_id_twice_example :
    let id = codes "Ops" in
    normalize_agent_id (normalize_agent_id id) ≡ (
      if head_is is_alnum (normalize_agent_id id)
      then normalize_agent_id id
      else trim_right is_dash (normalize_agent_id id))
normalize_agent_id_twice_example = normalize_agent_id_twice (codes "Ops")

abbrev params : SessionKeyParams
params = record {
  agent_id = codes "Sales";
  channel = codes "Telegram";
  account_id = codes "";
  peer = some (record { kind = codes "direct"; id = codes " 123 " });
  dm_scope = codes "per-channel-peer";
  identity_links = [];
}

key_runs : build_agent_peer_session_key params ≡ codes "agent:sales:telegram:direct:123"
unfolding build_agent_peer_session_key resolve_linked_peer_id normalize_channel normalize list_eq
    nat_eq
key_runs = refl

parse-build_agent_peer_session_key_example :
    agent_of (parse_agent_session_key (build_agent_peer_session_key params))
    ≡ some (normalize_agent_id (codes "Sales"))
unfolding normalize
parse-build_agent_peer_session_key_example = parse-build_agent_peer_session_key params refl

abbrev run_key : Text
run_key = codes "agent:ops:heartbeat:r-1"

run_key_built : build_agent_heartbeat_run_session_key (codes "Ops") (codes " R-1 ") ≡ some run_key
unfolding build_agent_heartbeat_run_session_key normalize
run_key_built = refl

abbrev ann : Text × List Text
ann = (codes " Ann", codes "telegram:7" ∷ codes "discord:9" ∷ [])

abbrev links : IdentityLinks
links = (codes "", codes "7" ∷ []) ∷ ann ∷ []

linked : Text → Text → Text
unfolding resolve_linked_peer_id link_candidates links_to find_link cut normalize list_eq nat_eq
linked = resolve_linked_peer_id links

linked_runs :
    (linked (codes "Telegram") (codes "7") ≡ codes "Ann") × (linked (codes "irc") (codes "7") ≡ [])
unfolding linked
linked_runs = (refl, refl)

only_ann :
    (other : Text × List Text)
    → Memᴰ other links
    → Links (link_candidates (codes "telegram") (trim_space (codes "7"))) other
    → trim_space other.0 ≡ trim_space (codes " Ann")
unfolding linked
only_ann other (Memᴰ.head e) (named, h) =
    absurd (ground (arith, ap (λ (x : Text × List Text). is_nil (trim_space x.0)) e))
only_ann other (Memᴰ.tail (Memᴰ.head e)) h = ap (λ (x : Text × List Text). trim_space x.0) e
only_ann other (Memᴰ.tail (Memᴰ.tail m)) h = elim m [ ]

abbrev peer_binding : AgentBinding
peer_binding = record {
  agent_id = codes "vip";
  when = record {
    channel = codes "Telegram";
    account_id = codes "*";
    peer = some (record { kind = codes "direct"; id = codes "42" });
    guild_id = [];
    team_id = [];
  };
}

abbrev channel_binding : AgentBinding
channel_binding = record {
  agent_id = codes "sales";
  when = record {
    channel = codes "telegram";
    account_id = codes "*";
    peer = none;
    guild_id = [];
    team_id = [];
  };
}

abbrev cfg : Config
cfg = record {
  agents =
      record { id = codes "sales"; default = false }
      ∷ record { id = codes "VIP"; default = false }
      ∷ [];
  bindings = channel_binding ∷ peer_binding ∷ [];
  dm_scope = codes "per-peer";
  identity_links = [];
}

abbrev input : RouteInput
input = record {
  channel = codes "telegram";
  account_id = [];
  peer = some (record { kind = codes "direct"; id = codes "42" });
  parent_peer = none;
  guild_id = [];
  team_id = [];
}

route : ResolvedRoute
unfolding resolve_route keep applies find_peer_match find_guild_match find_team_match
    find_account_match find_channel_wildcard_match matches_peer matches_guild matches_team
    matches_account matches_wildcard pick_agent_id resolve_default_agent_id is_configured
    build_agent_peer_session_key build_agent_main_session_key normalize_account_id linked normalize
route = resolve_route cfg input

route_runs :
    (route.agent_id ≡ codes "vip")
    × (route.session_key ≡ codes "agent:vip:direct:42")
    × (route.matched_by ≡ by_peer)
unfolding route
route_runs = (refl, refl, refl)

resolve_route_priority_example : rank (resolve_route cfg input).matched_by ≤ rank by_channel
unfolding route
resolve_route_priority_example =
    resolve_route_priority cfg input channel_binding by_channel (Memᴰ.head refl) refl refl

resolve_route_sound_example :
    (b : AgentBinding) × Memᴰ b cfg.bindings
    × (applies (to_lower (trim_space input.channel)) (normalize_account_id input.account_id) b
        ≡ true)
    × (wants input (resolve_route cfg input).matched_by b ≡ true)
    × ((resolve_route cfg input).agent_id ≡ pick_agent_id cfg.agents b.agent_id)
unfolding route
resolve_route_sound_example = resolve_route_sound cfg input (λ e. cc)

resolve_route-owner_example :
    (agent_of (parse_agent_session_key (resolve_route cfg input).session_key)
      ≡ some (normalize_agent_id (resolve_route cfg input).agent_id))
    × (agent_of (parse_agent_session_key (resolve_route cfg input).main_session_key)
        ≡ some (normalize_agent_id (resolve_route cfg input).agent_id))
resolve_route-owner_example = resolve_route-owner cfg input

abbrev say : List ToolCall → Message
say calls = record {
  role = codes "assistant";
  content = codes "ok";
  media = [];
  reasoning_content = [];
  usage = none;
  tool_calls = calls;
  tool_call_id = [];
}

abbrev call : ToolCall
call = record { id = codes "1"; type = codes "function"; function = none; name = codes "ls" }

abbrev recent : List Message
recent = say [] ∷ say (call ∷ []) ∷ say [] ∷ say (call ∷ call ∷ []) ∷ say [] ∷ say [] ∷ []

abbrev short : Features
short = record {
  token_estimate = 12;
  code_block_count = 0;
  recent_tool_calls = 1;
  conversation_depth = 4;
  has_attachments = false;
}

hi_is_simple : is_simple (extract_features (codes "hi") recent) ≡ true
unfolding extract_features count_cjk contains_text has_prefix count_text normalize list_eq nat_eq
hi_is_simple = refl
