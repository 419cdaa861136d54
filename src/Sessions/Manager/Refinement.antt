-- ===== src/Sessions/Manager/Refinement.antt =====
-- The session manager of pkg/session/manager.go against the conversation of a session.
use suprclaw_engine.Prelude.{
  ℕ, zero, suc, ◌-◌, ◌≡◌, refl, sym, ◌∙◌, ap, List, [], ◌∷◌, ◌++◌, none, some, nat_eq, list_eq, leb,
  map, length, arith, Bool-cases, inl, inr, ==_self,
}
use suprclaw_engine.Prelude.Int.{ℤ, pos, negsuc}
use suprclaw_engine.Prelude.Slices.{drop_from}
use suprclaw_engine.Prelude.Text.{Text}
use suprclaw_engine.Prelude.Unicode.{Unicode}
use suprclaw_engine.Sessions.Spec.{
  Conversation, no_conversation, StoreWrite, add, add_plain, summarize, discover, truncate, replace,
  save, plain, keep_last, apply, apply_all,
}
use suprclaw_engine.Sessions.Manager.{
  Session, SessionManager, get_or_create, add_full_message, add_message, get_history, get_summary,
  get_discovered_tools, set_summary, set_discovered_tools, truncate_session, truncate_history,
  set_history, normalize_discovered_tools, new_session,
}

module _ ⦃u : Unicode⦄ where
  -- A write to the session of a key. What `Save` does in memory is nothing.
  unfoldable pub perform : ℕ → Text → StoreWrite → SessionManager → SessionManager
  perform now key (add msg) sm = add_full_message now now key msg sm
  perform now key (add_plain role content) sm = add_message now now key role content sm
  perform now key (summarize summary) sm = set_summary now key summary sm
  perform now key (discover names) sm = set_discovered_tools now now key names sm
  perform now key (truncate keep) sm = truncate_history now key keep sm
  perform now key (replace history) sm = set_history now key history sm
  perform now key save sm = sm

  unfoldable pub perform_all : Text → List (ℕ × StoreWrite) → SessionManager → SessionManager
  perform_all key [] sm = sm
  perform_all key ((now, w) ∷ ws) sm = perform_all key ws (perform now key w sm)

  -- What the readers show of a session.
  abbrev pub conversation : Session → Conversation
  conversation s = record {
    history = s.messages;
    summary = s.summary;
    discovered_tools = s.discovered_tools;
  }

  -- The manager has the session, and it shows the conversation.
  pub Shows : Text → SessionManager → Conversation → Type 0
  Shows key sm c = (s : Session) × (sm.sessions key ≡ some s) × (conversation s ≡ c)

  truncate_session-keep_last :
      (now : ℕ) (keep : ℤ) (s : Session)
      → conversation (truncate_session now keep s)
        ≡ record (conversation s) { history = keep_last keep s.messages }
  unfolding truncate_session
  truncate_session-keep_last now (pos zero) s =
      ap (λ h. record (conversation s) { history = h })
        (sym (drop_from (length s.messages - 0) s.messages (omega arith)))
  truncate_session-keep_last now (negsuc n) s = refl
  truncate_session-keep_last now (pos (suc n)) s =
      elim (Bool-cases (leb (length s.messages) (suc n))) [
        | inl short ↦ let e : length s.messages - suc n ≡ 0 = ground arith in rw (short, e) refl
        | inr long ↦ rw long refl
      ]

  perform-Shows :
      (now : ℕ) (key : Text) (w : StoreWrite) (sm : SessionManager) (c : Conversation)
      → Shows key sm c
      → Shows key (perform now key w sm) (apply w c)
  unfolding Shows perform apply add_full_message add_message set_summary set_discovered_tools
      truncate_history set_history
  perform-Shows now key (add msg) sm c (s, found, same) = (
    record s { messages = s.messages ++ (msg ∷ []); updated = now },
    ground (arith, ==_self key),
    cc,
  )
  perform-Shows now key (add_plain role content) sm c (s, found, same) = (
    record s { messages = s.messages ++ (plain role content ∷ []); updated = now },
    ground (arith, ==_self key),
    cc,
  )
  perform-Shows now key (summarize summary) sm c (s, found, same) =
      (record s { summary = summary; updated = now }, ground (arith, ==_self key), cc)
  perform-Shows now key (discover names) sm c (s, found, same) = (
    record s { discovered_tools = normalize_discovered_tools names; updated = now },
    ground (arith, ==_self key),
    cc,
  )
  perform-Shows now key (truncate keep) sm c (s, found, same) = (
    truncate_session now keep s,
    ground (arith, ==_self key),
    truncate_session-keep_last now keep s ∙ cc,
  )
  perform-Shows now key (replace history) sm c (s, found, same) =
      (record s { messages = history; updated = now }, ground (arith, ==_self key), cc)
  perform-Shows now key save sm c (s, found, same) = (s, found, same)

  perform_all-Shows :
      (key : Text) (ws : List (ℕ × StoreWrite)) (sm : SessionManager) (c : Conversation)
      → Shows key sm c
      → Shows key (perform_all key ws sm) (apply_all (map (λ (w : ℕ × StoreWrite). w.1) ws) c)
  unfolding perform_all apply_all
  perform_all-Shows key [] sm c h = h
  perform_all-Shows key ((now, w) ∷ ws) sm c h =
      perform_all-Shows key ws (perform now key w sm) (apply w c) (perform-Shows now key w sm c h)

  created-Shows :
      (created updated : ℕ) (key : Text) (sm : SessionManager)
      → sm.sessions key ≡ none
      → Shows key (get_or_create created updated key sm).1 no_conversation
  unfolding Shows get_or_create
  created-Shows created updated key sm missing =
      (new_session key created updated, ground (arith, ==_self key), refl)

  Shows-reads :
      (key : Text) (sm : SessionManager) (c : Conversation)
      → Shows key sm c
      → (get_history key sm ≡ c.history)
        × (get_summary key sm ≡ c.summary)
        × (get_discovered_tools key sm ≡ c.discovered_tools)
  unfolding Shows get_history get_summary get_discovered_tools
  Shows-reads key sm c (s, found, same) = (ground arith, ground arith, ground arith)

  -- After any writes to a session that was just created, the manager shows the conversation that the
  -- writes make: its history, its summary and its discovered tools.
  pub created_refines :
      (created updated : ℕ) (key : Text) (ws : List (ℕ × StoreWrite)) (sm : SessionManager)
      → sm.sessions key ≡ none
      → let after = perform_all key ws (get_or_create created updated key sm).1 in
        let c = apply_all (map (λ (w : ℕ × StoreWrite). w.1) ws) no_conversation in
        (get_history key after ≡ c.history)
        × (get_summary key after ≡ c.summary)
        × (get_discovered_tools key after ≡ c.discovered_tools)
  created_refines created updated key ws sm missing =
      Shows-reads key _ _
        (perform_all-Shows key ws _ no_conversation (created-Shows created updated key sm missing))
