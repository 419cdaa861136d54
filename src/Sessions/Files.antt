-- ===== src/Sessions/Files.antt =====
-- The files of pkg/session/manager.go: `Save` and `loadSessions`. The storage is the list of the files in
-- its directory, in the order of `os.ReadDir`; directories, which are passed over, and failures of the
-- operating system are left out. `encoding/json` is a parameter, and so is `filepath.IsLocal`.
pub mod Laws
use suprclaw_engine.Prelude.{
  ℕ, ◌≡◌, Bool, true, false, ◌||◌, not, List, [], ◌∷◌, ◌++◌, Option, none, some, if◌then◌else◌,
  ◌==◌, nat_eq, list_eq, map,
}
use suprclaw_engine.Prelude.Sort.{text_lt}
use suprclaw_engine.Prelude.Text.{Text, codes}
use suprclaw_engine.Memory.Disk.{stored}
use suprclaw_engine.Sessions.Manager.{Session, SessionManager, put, sanitize_filename}

-- A session as it is read back.
abbrev pub stored_session : Session → Session
stored_session s = record s { messages = map stored s.messages }

pub record SessionJson : Type 0 where
  pub encode_session : Session → Text
  pub decode_session : Text → Option Session
  pub decode-encode_session :
      (s : Session) → decode_session (encode_session s) ≡ some (stored_session s)

abbrev pub Storage : Type 0
Storage = List (Text × Text)

pub data Saved : Type 0 where
  saved : Option Storage → Saved
  invalid : Saved

abbrev pub dot_json : Text
dot_json = codes ".json"

-- `filepath.Ext(name) == ".json"`.
unfoldable pub is_json_file : Text → Bool
is_json_file [] = false
is_json_file (c ∷ s) = c ∷ s == dot_json || is_json_file s

-- The rename onto the file of the session, which replaces it if it is there.
unfoldable pub put_file : Text → Text → Storage → Storage
put_file name content [] = (name, content) ∷ []
put_file name content ((n, c) ∷ files) =
    let rest = put_file name content files in
    if n == name
    then (name, content) ∷ files
    else if text_lt name n
    then (name, content) ∷ (n, c) ∷ files
    else (n, c) ∷ rest

module _ (j : SessionJson) where
  -- An empty path of the storage is `none`.
  unfoldable pub save : (Text → Bool) → Text → SessionManager → Option Storage → Saved
  save is_local key sm none = saved none
  save is_local key sm (some files) =
      let filename = sanitize_filename key in
      if filename == codes "." || not (is_local filename) then invalid else elim (sm.sessions key) [
        | none ↦ saved (some files)
        | some session ↦
            saved (some (put_file (filename ++ dot_json) (j.encode_session session) files))
      ]

  -- The session in a file, if it is read.
  unfoldable pub session_in : Text → Text → Option Session
  session_in name content = if is_json_file name then j.decode_session content else none

  unfoldable pub load_file : Text → Text → SessionManager → SessionManager
  load_file name content sm = elim (session_in name content) [
    | none ↦ sm
    | some session ↦ put session.key session sm
  ]

  unfoldable pub load_sessions : Storage → SessionManager → SessionManager
  load_sessions [] sm = sm
  load_sessions ((name, content) ∷ files) sm = load_sessions files (load_file name content sm)
