-- ===== src/Routing/SessionKey/Owner.antt =====
-- The agent that a session key of pkg/routing/session_key.go names.
use suprclaw_engine.Prelude.{
  ◌≡◌, refl, ◌∙◌, Bool, true, false, [], ◌∷◌, ◌++◌, if◌then◌else◌, ◌==◌, nat_eq, list_eq, is_nil,
  arith, some,
}
use suprclaw_engine.Prelude.Text.{Text, codes, trim_right}
use suprclaw_engine.Prelude.Unicode.{Unicode, to_lower, trim_space, to_lower-append, to_lower_plain}
use suprclaw_engine.Routing.AgentId.{normalize_agent_id, normalize_account_id, default_main_key}
use suprclaw_engine.Routing.AgentId.Laws.{IsSafe, normalize_agent_id-IsSafe}
use suprclaw_engine.Routing.AgentId.Stable.{to_lower_id}
use suprclaw_engine.Routing.SessionKey.{
  DmScope, dm_scope_main, dm_scope_per_peer, dm_scope_per_channel_peer,
  dm_scope_per_account_channel_peer, RoutePeer, SessionKeyParams, agent_key,
  build_agent_main_session_key, direct_peer_id, direct_session_key, group_session_key,
  build_agent_peer_session_key, parse_agent_session_key, normalize_channel, peer_or_direct, direct,
}
use suprclaw_engine.Routing.SessionKey.Laws.{
  agent_of, parse-agent_key, agent-nonempty, trim-word, main_chars,
}

module _ ⦃u : Unicode⦄ where
  -- The key is `agent:<agent>:<rest>` with a rest that is not blank. Shut, so that its rules apply.
  pub Owned : Text → Text → Type 0
  Owned agent key =
      (rest : Text) × (key ≡ agent_key agent rest) × (is_nil (trim_right u.space rest) ≡ false)

  pub owned :
      (agent key : Text)
      → IsSafe agent
      → Owned agent key
      → agent_of (parse_agent_session_key key) ≡ some agent
  unfolding Owned
  owned agent key safe (rest, built, given) = rw (built, parse-agent_key agent rest safe given)

  blank-to_lower :
      (s : Text) → is_nil (trim_right u.space (to_lower s)) ≡ is_nil (trim_right u.space s)
  unfolding to_lower trim_right
  blank-to_lower [] = refl
  blank-to_lower (c ∷ s) = ground (arith, u.space-lower c, blank-to_lower s)

  pub Owned-to_lower :
      (agent key : Text) → IsSafe agent → Owned agent key → Owned agent (to_lower key)
  unfolding Owned
  Owned-to_lower agent key safe (rest, built, given) =
      (to_lower rest, rw built (lowered rest), blank-to_lower rest ∙ given)
    where
      lowered : (rest : Text) → to_lower (agent_key agent rest) ≡ agent_key agent (to_lower rest)
      lowered rest = rw (
        to_lower-append (codes "agent:") (agent ++ (b':' ∷ rest)),
        to_lower-append agent (codes ":" ++ rest),
        to_lower-append (codes ":") rest,
        to_lower_plain (codes "agent:") refl,
        to_lower_plain (codes ":") refl,
        to_lower_id agent safe.chars,
      )

  Owned-if :
      (b : Bool) (agent x y : Text)
      → Owned agent x
      → Owned agent y
      → Owned agent (if b then x else y)
  Owned-if true agent x y p q = p
  Owned-if false agent x y p q = q

  pub Owned-main : (id : Text) → Owned (normalize_agent_id id) (build_agent_main_session_key id)
  unfolding Owned build_agent_main_session_key
  Owned-main id = (default_main_key, refl, rw (trim-word default_main_key main_chars))

  pub Owned-parts : (a part rest : Text) → Owned a (agent_key a (part ++ (b':' ∷ rest)))
  unfolding Owned
  Owned-parts a part rest = (part ++ (b':' ∷ rest), refl, agent-nonempty part rest)

  Owned-direct :
      (p : SessionKeyParams) (agent : Text) (peer : RoutePeer)
      → normalize_agent_id agent ≡ agent
      → Owned agent (direct_session_key p agent peer)
  unfolding direct_session_key
  Owned-direct p agent peer settled =
      let main : Owned agent (build_agent_main_session_key agent) =
        rw settled at (Owned-main agent) in
      let scope : DmScope = if is_nil p.dm_scope then dm_scope_main else p.dm_scope in
      let c : Text = normalize_channel p.channel in
      let id : Text = direct_peer_id p scope peer in
      let tail : Text = direct ++ (b':' ∷ id) in
      let account : Text = normalize_account_id p.account_id in
      Owned-if (is_nil id) agent _ _ main (
        Owned-if (scope == dm_scope_per_account_channel_peer) agent _ _
          (Owned-parts agent c (account ++ (b':' ∷ tail)))
          (Owned-if (scope == dm_scope_per_channel_peer) agent _ _ (Owned-parts agent c tail)
            (Owned-if (scope == dm_scope_per_peer) agent _ _ (Owned-parts agent direct id) main)))

  Owned-group :
      (p : SessionKeyParams) (agent kind : Text) (peer : RoutePeer)
      → Owned agent (group_session_key p agent kind peer)
  unfolding group_session_key
  Owned-group p agent kind peer = Owned-parts agent _ _

  pub Owned-peer :
      (p : SessionKeyParams)
      → normalize_agent_id (normalize_agent_id p.agent_id) ≡ normalize_agent_id p.agent_id
      → Owned (normalize_agent_id p.agent_id) (build_agent_peer_session_key p)
  unfolding build_agent_peer_session_key
  Owned-peer p settled =
      let agent : Text = normalize_agent_id p.agent_id in
      let peer = peer_or_direct p.peer in
      let trimmed : Text = trim_space peer.kind in
      let kind : Text = if is_nil trimmed then direct else trimmed in
      Owned-if (kind == direct) agent _ _ (Owned-direct p agent peer settled)
        (Owned-group p agent kind peer)

  -- The key of a conversation parses back to the normalised id of its agent, for every peer, scope
  -- and identity link, when a second normalisation keeps that id.
  pub parse-build_agent_peer_session_key :
      (p : SessionKeyParams)
      → normalize_agent_id (normalize_agent_id p.agent_id) ≡ normalize_agent_id p.agent_id
      → agent_of (parse_agent_session_key (build_agent_peer_session_key p))
        ≡ some (normalize_agent_id p.agent_id)
  parse-build_agent_peer_session_key p settled =
      owned _ _ (normalize_agent_id-IsSafe p.agent_id) (Owned-peer p settled)
