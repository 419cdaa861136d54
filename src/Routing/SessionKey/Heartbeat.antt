-- ===== src/Routing/SessionKey/Heartbeat.antt =====
-- The reserved namespace of heartbeat runs.
use suprclaw_engine.Prelude.{
  ◌≡◌, refl, ◌∙◌, true, [], ◌∷◌, ◌++◌, nat_eq, list_eq, is_nil, arith, inl, inr, Bool-cases, some,
  ==_self,
}
use suprclaw_engine.Prelude.Text.{Text, codes, trim_right, has_prefix}
use suprclaw_engine.Prelude.Text.Laws.{trim_left_id, trim_right-cons, trim_right-append}
use suprclaw_engine.Prelude.Unicode.{Unicode, to_lower, trim_space, to_lower-append, to_lower_plain}
use suprclaw_engine.Routing.AgentId.{normalize_agent_id, default_heartbeat_key}
use suprclaw_engine.Routing.AgentId.Laws.{IsSafe, normalize_agent_id-IsSafe}
use suprclaw_engine.Routing.SessionKey.{
  agent_key, build_agent_heartbeat_run_session_key, parse_agent_session_key,
  is_heartbeat_session_key,
}
use suprclaw_engine.Routing.SessionKey.Laws.{
  agent_of, heartbeat-agent_key, agent-nonempty, colon-nonempty, space_colon,
}
use suprclaw_engine.Routing.SessionKey.Owner.{Owned-parts, owned}

has_prefix-append : (p s : Text) → has_prefix (p ++ s) p ≡ true
unfolding has_prefix
has_prefix-append [] [] = refl
has_prefix-append [] (c ∷ s) = refl
has_prefix-append (c ∷ p) s = rw (==_self c) (has_prefix-append p s)

module _ ⦃u : Unicode⦄ where
  trim_right-run :
      (s : Text)
      → trim_right u.space (default_heartbeat_key ++ (b':' ∷ s))
        ≡ default_heartbeat_key ++ (b':' ∷ trim_right u.space s)
  trim_right-run s = rw (
    trim_right-append u.space default_heartbeat_key (b':' ∷ s) (colon-nonempty s),
    trim_right-cons u.space b':' s space_colon,
  )

  trim_space-run :
      (s : Text)
      → trim_space (default_heartbeat_key ++ (b':' ∷ s))
        ≡ default_heartbeat_key ++ (b':' ∷ trim_right u.space s)
  unfolding trim_space
  trim_space-run s =
      rw
        (trim_left_id u.space (default_heartbeat_key ++ (b':' ∷ s))
          (u.space_ascii b'h' (omega arith)))
        (trim_right-run s)

  to_lower-run :
      (s : Text)
      → to_lower (default_heartbeat_key ++ (b':' ∷ s))
        ≡ (default_heartbeat_key ++ codes ":") ++ to_lower s
  to_lower-run s =
      to_lower-append (default_heartbeat_key ++ codes ":") s
      ∙ rw (to_lower_plain (default_heartbeat_key ++ codes ":") refl)

  run-heartbeat :
      (a s : Text)
      → IsSafe a
      → is_heartbeat_session_key (agent_key a (default_heartbeat_key ++ (b':' ∷ s))) ≡ true
  run-heartbeat a s safe =
      heartbeat-agent_key a _ safe (agent-nonempty default_heartbeat_key s)
      ∙ rw
          (
            trim_right-run s,
            trim_space-run (trim_right u.space s),
            to_lower-run (trim_right u.space (trim_right u.space s)),
            has_prefix-append (default_heartbeat_key ++ codes ":")
                (to_lower (trim_right u.space (trim_right u.space s))),
          )
          (ground arith)

  -- The key of a heartbeat run, when one is built, is recognised as a heartbeat key and parses back
  -- to the normalised id of its agent.
  build_agent_heartbeat_run_session_key-owned :
      (agent run key : Text)
      → build_agent_heartbeat_run_session_key agent run ≡ some key
      → (is_heartbeat_session_key key ≡ true)
        × (agent_of (parse_agent_session_key key) ≡ some (normalize_agent_id agent))
  unfolding build_agent_heartbeat_run_session_key
  build_agent_heartbeat_run_session_key-owned agent run key h =
      elim (Bool-cases (is_nil (trim_space (to_lower run)))) [
        | inl empty ↦ absurd (ground arith)
        | inr given ↦
            let n : Text = trim_space (to_lower run) in
            let a : Text = normalize_agent_id agent in
            let safe = normalize_agent_id-IsSafe agent in
            let built : agent_key a (default_heartbeat_key ++ (b':' ∷ n)) ≡ key = ground arith in
            rw (← built)
              (run-heartbeat a n safe, owned a _ safe (Owned-parts a default_heartbeat_key n))
      ]
