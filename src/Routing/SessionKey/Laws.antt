-- ===== src/Routing/SessionKey/Laws.antt =====
-- Parsing the session keys that pkg/routing/session_key.go builds.
use suprclaw_engine.Prelude.{
  ℕ, ◌≡◌, refl, ◌∙◌, true, false, [], ◌∷◌, ◌++◌, ◌==◌, nat_eq, list_eq, is_nil, all, arith, Option,
  none, some,
}
use suprclaw_engine.Prelude.Text.{Text, codes, trim_right, cut, has_prefix}
use suprclaw_engine.Prelude.Text.Laws.{
  trim_left_id, trim_right_id, trim_right-cons, trim_right-append, trim_right_idem,
}
use suprclaw_engine.Prelude.Unicode.{Unicode, trim_space, trim_space_id}
use suprclaw_engine.Routing.AgentId.{
  is_id_char, normalize_agent_id, default_main_key, default_heartbeat_key,
}
use suprclaw_engine.Routing.AgentId.Laws.{IsSafe, normalize_agent_id-IsSafe}
use suprclaw_engine.Routing.AgentId.Stable.{no_space, to_lower_id}
use suprclaw_engine.Routing.SessionKey.{
  ParsedSessionKey, agent_key, build_agent_main_session_key, build_agent_heartbeat_session_key,
  parse_agent_session_key, is_heartbeat_session_key, is_heartbeat_rest,
}

cut-id_char : (c : ℕ) → is_id_char c ≡ true → (c == b':') ≡ false
unfolding is_id_char
cut-id_char c h = ground arith

cut-agent : (s : Text) → cut b':' (codes "agent:" ++ s) ≡ some (codes "agent", s)
unfolding cut nat_eq
cut-agent s = refl

cut-id : (a r : Text) → all is_id_char a ≡ true → cut b':' (a ++ (b':' ∷ r)) ≡ some (a, r)
unfolding cut
cut-id [] r h = ground arith
cut-id (c ∷ a) r h = ground (arith, cut-id_char c, cut-id a r)

abbrev pub agent_of : Option ParsedSessionKey → Option Text
agent_of none = none
agent_of (some parsed) = some parsed.agent_id

module _ ⦃u : Unicode⦄ where
  pub space_colon : u.space b':' ≡ false
  space_colon = u.space_ascii b':' (omega arith)

  space_a : u.space b'a' ≡ false
  space_a = u.space_ascii b'a' (omega arith)

  pub colon-nonempty : (s : Text) → is_nil (trim_right u.space (b':' ∷ s)) ≡ false
  colon-nonempty s = rw (trim_right-cons u.space b':' s space_colon)

  pub agent-nonempty : (a s : Text) → is_nil (trim_right u.space (a ++ (b':' ∷ s))) ≡ false
  agent-nonempty a s =
      rw
        (
          trim_right-append u.space a (b':' ∷ s) (colon-nonempty s),
          trim_right-cons u.space b':' s space_colon,
        )
        (is_nil-colon a)
    where
      is_nil-colon : (a : Text) → is_nil (a ++ (b':' ∷ trim_right u.space s)) ≡ false
      is_nil-colon [] = refl
      is_nil-colon (c ∷ a) = refl

  -- Trimming a key trims the end of its rest.
  trim_space-agent_key :
      (a rest : Text) → trim_space (agent_key a rest) ≡ agent_key a (trim_right u.space rest)
  unfolding trim_space
  trim_space-agent_key a rest = rw (
    trim_left_id u.space (agent_key a rest) space_a,
    trim_right-append u.space (codes "agent:") (a ++ (b':' ∷ rest)) (agent-nonempty a rest),
    trim_right-append u.space a (b':' ∷ rest) (colon-nonempty rest),
    trim_right-cons u.space b':' rest space_colon,
  )

  -- A key with an id for its agent parses into the id and the rest without its trailing space.
  pub parse-agent_key :
      (a rest : Text)
      → IsSafe a
      → is_nil (trim_right u.space rest) ≡ false
      → parse_agent_session_key (agent_key a rest)
        ≡ some (record { agent_id = a; rest = trim_right u.space rest })
  unfolding parse_agent_session_key
  parse-agent_key a rest safe some_rest =
      rw
        (
          trim_space-agent_key a rest,
          cut-agent,
          cut-id a (trim_right u.space rest) safe.chars,
          trim_space_id a (no_space a safe.chars),
          safe.nonempty,
          some_rest,
        )
        (ground arith)

  pub trim-word : (s : Text) → all is_id_char s ≡ true → trim_right u.space s ≡ s
  trim-word s h = trim_right_id u.space s (no_space s h)

  pub main_chars : all is_id_char default_main_key ≡ true
  unfolding is_id_char
  main_chars = refl

  pub heartbeat_chars : all is_id_char default_heartbeat_key ≡ true
  unfolding is_id_char
  heartbeat_chars = refl

  -- The main key of an agent parses back to the normalised agent id and the rest `main`.
  pub parse-build_agent_main_session_key :
      (id : Text)
      → parse_agent_session_key (build_agent_main_session_key id)
        ≡ some (record { agent_id = normalize_agent_id id; rest = default_main_key })
  unfolding build_agent_main_session_key
  parse-build_agent_main_session_key id =
      let w = trim-word default_main_key main_chars in
      parse-agent_key (normalize_agent_id id) default_main_key (normalize_agent_id-IsSafe id) (rw w)
      ∙ rw w

  pub heartbeat-agent_key :
      (a rest : Text)
      → IsSafe a
      → is_nil (trim_right u.space rest) ≡ false
      → is_heartbeat_session_key (agent_key a rest)
        ≡ is_heartbeat_rest (some (record { agent_id = a; rest = trim_right u.space rest }))
  unfolding is_heartbeat_session_key
  heartbeat-agent_key a rest safe some_rest =
      let idem = trim_right_idem u.space rest in
      rw (
        trim_space-agent_key a rest,
        parse-agent_key a (trim_right u.space rest) safe (rw idem some_rest),
        idem,
      )

  heartbeat_word : trim_space default_heartbeat_key ≡ default_heartbeat_key
  heartbeat_word =
      trim_space_id default_heartbeat_key (no_space default_heartbeat_key heartbeat_chars)

  main_word : trim_space default_main_key ≡ default_main_key
  main_word = trim_space_id default_main_key (no_space default_main_key main_chars)

  -- The heartbeat key of an agent is recognised as one, and its main key is not.
  is_heartbeat-build :
      (id : Text)
      → (is_heartbeat_session_key (build_agent_heartbeat_session_key id) ≡ true)
        × (is_heartbeat_session_key (build_agent_main_session_key id) ≡ false)
  unfolding build_agent_main_session_key build_agent_heartbeat_session_key
  is_heartbeat-build id =
      let safe = normalize_agent_id-IsSafe id in
      let h = trim-word default_heartbeat_key heartbeat_chars in
      let m = trim-word default_main_key main_chars in
      (
        rw
            (
              heartbeat-agent_key _ default_heartbeat_key safe (rw h),
              h,
              heartbeat_word,
              to_lower_id default_heartbeat_key heartbeat_chars,
            )
            (ground arith),
        rw
            (
              heartbeat-agent_key _ default_main_key safe (rw m),
              m,
              main_word,
              to_lower_id default_main_key main_chars,
            )
            (unfold list_eq nat_eq has_prefix in refl),
      )
