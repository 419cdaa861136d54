-- ===== src/Sessions/Files/Laws.antt =====
-- What pkg/session/manager.go reads back after a restart.
use suprclaw_engine.Prelude.{
  ◌≡◌, refl, ◌∙◌, ap, Bool, true, false, ◌&&◌, not, [], ◌∷◌, ◌++◌, Option, none, some,
  if◌then◌else◌, ◌==◌, nat_eq, list_eq, all, arith, Bool-cases, inl, inr, ==_self,
}
use suprclaw_engine.Prelude.Sort.{text_lt}
use suprclaw_engine.Prelude.Text.{Text, codes}
use suprclaw_engine.Sessions.Manager.{Session, SessionManager, put, sanitize_filename}
use suprclaw_engine.Sessions.Files.{
  SessionJson, stored_session, Storage, saved, dot_json, is_json_file, put_file, save, session_in,
  load_file, load_sessions,
}

is_json_file-append : (s : Text) → is_json_file (s ++ dot_json) ≡ true
unfolding is_json_file nat_eq list_eq
is_json_file-append [] = refl
is_json_file-append (c ∷ s) = ground (arith, is_json_file-append s)

module _ (j : SessionJson) (key : Text) where
  -- A file that holds no session of the key.
  abbrev pub is_other : Text × Text → Bool
  is_other f = elim (session_in j f.0 f.1) [ none ↦ true | some s ↦ not (s.key == key) ]

  load_file-other :
      (name content : Text) (sm : SessionManager)
      → is_other (name, content) ≡ true
      → (load_file j name content sm).sessions key ≡ sm.sessions key
  unfolding load_file
  load_file-other name content sm h = go (session_in j name content) h
    where
      go :
          (o : Option Session)
          → (elim o as (λ _. Bool) [ none ↦ true | some s ↦ not (s.key == key) ]) ≡ true
          → (elim o as (λ _. SessionManager) [ none ↦ sm | some s ↦ put s.key s sm ]).sessions key
            ≡ sm.sessions key
      go none q = refl
      go (some s) q = ground arith

  load_sessions-others :
      (files : Storage) (sm : SessionManager)
      → all is_other files ≡ true
      → (load_sessions j files sm).sessions key ≡ sm.sessions key
  unfolding load_sessions
  load_sessions-others [] sm h = refl
  load_sessions-others ((name, content) ∷ files) sm h =
      load_sessions-others files (load_file j name content sm) (ground arith)
      ∙ load_file-other name content sm (ground arith)

  load_file-own :
      (session : Session) (name : Text) (sm : SessionManager)
      → session.key ≡ key
      → is_json_file name ≡ true
      → (load_file j name (j.encode_session session) sm).sessions key
        ≡ some (stored_session session)
  unfolding load_file session_in
  load_file-own session name sm k e =
      let same : (key == session.key) ≡ true = ap (λ i. key == i) k ∙ ==_self key in
      rw (load_file, e, j.decode-encode_session session) (rw same refl)

  -- Every file but the one that a save replaces holds no session of the key.
  abbrev pub is_sole : Text → Storage → Bool
  is_sole name [] = true
  is_sole name ((n, c) ∷ files) =
      let rest = is_sole name files in
      if n == name
      then all is_other files
      else if text_lt name n
      then all is_other ((n, c) ∷ files)
      else is_other (n, c) && rest

  load_sessions-put_file :
      (session : Session) (name : Text) (files : Storage) (sm : SessionManager)
      → session.key ≡ key
      → is_json_file name ≡ true
      → is_sole name files ≡ true
      → (load_sessions j (put_file name (j.encode_session session) files) sm).sessions key
        ≡ some (stored_session session)
  unfolding load_sessions put_file
  load_sessions-put_file session name [] sm k e h = load_file-own session name sm k e
  load_sessions-put_file session name ((n, c) ∷ files) sm k e h = elim (Bool-cases (n == name)) [
    | inl here ↦
        rw (put_file, here)
          (load_sessions-others files (load_file j name (j.encode_session session) sm)
              (ground arith)
            ∙ load_file-own session name sm k e)
    | inr other ↦ elim (Bool-cases (text_lt name n)) [
      | inl before ↦
          rw (put_file, other, before)
            (load_sessions-others ((n, c) ∷ files) (load_file j name (j.encode_session session) sm)
                (ground arith)
              ∙ load_file-own session name sm k e)
      | inr behind ↦
          rw (put_file, other, behind)
            (load_sessions-put_file session name files (load_file j n c sm) k e (ground arith))
    ]
  ]

  -- A session under its key, whose file name is not "." and is local, is saved, and a start that reads the
  -- files then has it, as JSON stores it. No other file may hold a session of the key.
  pub save-load_sessions :
      (is_local : Text → Bool) (session : Session) (sm fresh : SessionManager) (files : Storage)
      → sm.sessions key ≡ some session
      → session.key ≡ key
      → (sanitize_filename key == codes ".") ≡ false
      → is_local (sanitize_filename key) ≡ true
      → is_sole (sanitize_filename key ++ dot_json) files ≡ true
      → (files' : Storage) × (save j is_local key sm (some files) ≡ saved (some files'))
        × ((load_sessions j files' fresh).sessions key ≡ some (stored_session session))
  unfolding save
  save-load_sessions is_local session sm fresh files found k dot local sole =
      let name = sanitize_filename key ++ dot_json in
      (
        put_file name (j.encode_session session) files,
        rw (save, dot, local, found) refl,
        load_sessions-put_file session name files fresh k
            (is_json_file-append (sanitize_filename key)) sole,
      )
