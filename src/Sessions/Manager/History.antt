-- ===== src/Sessions/Manager/History.antt =====
-- The histories of pkg/session/manager.go: appending, cutting, and the names of the files.
use suprclaw_engine.Prelude.{
  ℕ, zero, suc, ◌-◌, min, ◌≡◌, refl, ap, true, ◌&&◌, not, List, [], ◌∷◌, ◌++◌, none, some,
  if◌then◌else◌, ◌==◌, leb, nat_eq, list_eq, length, take, all, arith, Option-cases, Bool-cases,
  inl, inr, ==_self,
}
use suprclaw_engine.Prelude.Slices.{take-drop, length-drop}
use suprclaw_engine.Prelude.Text.{Text}
use suprclaw_engine.Prelude.Int.{ℤ, pos, negsuc}
use suprclaw_engine.Providers.Message.{Message}
use suprclaw_engine.Sessions.Manager.{
  Session, SessionManager, put, add_full_message, get_history, get_summary, session_for,
  truncate_session, truncate_history, sanitize_filename,
}

get_history-put :
    (key k : Text) (session : Session) (sm : SessionManager)
    → (get_history k (put key session sm)
        ≡ (if k == key then session.messages else get_history k sm))
      × (get_summary k (put key session sm)
          ≡ (if k == key then session.summary else get_summary k sm))
unfolding get_history get_summary
get_history-put key k session sm = ground arith

session_for_lem :
    (created : ℕ) (key : Text) (sm : SessionManager)
    → ((session_for created key sm).messages ≡ get_history key sm)
      × ((session_for created key sm).summary ≡ get_summary key sm)
unfolding get_history get_summary
session_for_lem created key sm = ground arith

-- A message is appended to the history of its key; the histories of the other keys and all
-- summaries stay.
get_history-add_full_message :
    (created updated : ℕ) (key k : Text) (msg : Message) (sm : SessionManager)
    → let after = add_full_message created updated key msg sm in
      (get_history k after
        ≡ (if k == key then get_history key sm ++ (msg ∷ []) else get_history k sm))
      × (get_summary k after ≡ get_summary k sm)
unfolding add_full_message
get_history-add_full_message created updated key k msg sm =
    let session = session_for created key sm in
    let appended = record session {
      messages = session.messages ++ (msg ∷ []);
      updated = updated;
    } in
    ground (arith, get_history-put key k appended sm, session_for_lem created key sm)

-- How many messages a cut keeps at most.
abbrev kept : ℤ → ℕ
kept (pos n) = n
kept (negsuc n) = 0

abbrev IsEnd : ℕ → List Message → List Message → Type 0
IsEnd n before after =
    ((older : List Message) × (before ≡ older ++ after)) × (length after ≡ min n (length before))

append_nil : (xs : List Message) → xs ≡ xs ++ []
append_nil [] = refl
append_nil (x ∷ xs) = ap (λ l. x ∷ l) (append_nil xs)

truncate_session_lem :
    (now : ℕ) (keep_last : ℤ) (session : Session)
    → IsEnd (kept keep_last) session.messages (truncate_session now keep_last session).messages
unfolding truncate_session
truncate_session_lem now (pos zero) session =
    ((session.messages, append_nil session.messages), omega arith)
truncate_session_lem now (negsuc n) session =
    ((session.messages, append_nil session.messages), omega arith)
truncate_session_lem now (pos (suc n)) session =
    let gone = length session.messages - suc n in
    elim (Bool-cases (leb (length session.messages) (suc n))) [
      | inl short ↦ rw short (([], refl), ground arith)
      | inr long ↦ rw long (
        (take gone session.messages, take-drop gone session.messages),
        ground (arith, length-drop gone session.messages),
      )
    ]

truncate_missing :
    (now : ℕ) (key : Text) (keep_last : ℤ) (sm : SessionManager)
    → sm.sessions key ≡ none
    → (get_history key sm ≡ []) × (get_history key (truncate_history now key keep_last sm) ≡ [])
unfolding get_history truncate_history
truncate_missing now key keep_last sm missing = ground arith

truncate_found :
    (now : ℕ) (key : Text) (keep_last : ℤ) (sm : SessionManager) (session : Session)
    → sm.sessions key ≡ some session
    → (get_history key sm ≡ session.messages)
      × (get_history key (truncate_history now key keep_last sm)
          ≡ (truncate_session now keep_last session).messages)
unfolding get_history truncate_history
truncate_found now key keep_last sm session found = ground (arith, ==_self key)

-- A cut of a history keeps its end: the history is some older messages followed by what is kept, and
-- as many are kept as asked for, or all if there are fewer; none if a number up to zero is asked for.
truncate_history_lem :
    (now : ℕ) (key : Text) (keep_last : ℤ) (sm : SessionManager)
    → let before = get_history key sm in
      let after = get_history key (truncate_history now key keep_last sm) in
      ((older : List Message) × (before ≡ older ++ after))
      × (length after ≡ min (kept keep_last) (length before))
truncate_history_lem now key keep_last sm = elim (Option-cases (sm.sessions key)) [
  | inl missing ↦
      rw
        (
          (truncate_missing now key keep_last sm missing).0,
          (truncate_missing now key keep_last sm missing).1,
        )
        (([], refl), omega arith)
  | inr (session, found) ↦
      rw
        (
          (truncate_found now key keep_last sm session found).0,
          (truncate_found now key keep_last sm session found).1,
        )
        (truncate_session_lem now keep_last session)
]

-- The name of a file is as long as its key and has no colon, no slash and no backslash.
sanitize_filename_lem :
    (key : Text)
    → (all (λ c. not (c == b':') && not (c == b'/') && not (c == b'\\')) (sanitize_filename key)
        ≡ true)
      × (length (sanitize_filename key) ≡ length key)
unfolding sanitize_filename
sanitize_filename_lem [] = (refl, refl)
sanitize_filename_lem (c ∷ key) = ground (arith, sanitize_filename_lem key)
