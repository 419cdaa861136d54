-- ===== src/Sessions/Agreement.antt =====
-- The two implementations of the interface of pkg/session/session_store.go side by side.
use suprclaw_engine.Prelude.{ℕ, ◌≡◌, sym, ◌∙◌, ap, true, List, none, map}
use suprclaw_engine.Prelude.Text.{Text}
use suprclaw_engine.Prelude.Unicode.{Unicode}
use suprclaw_engine.Memory.Disk.{Json, Disk, stored, sanitize_key}
use suprclaw_engine.Memory.Interface.{jsonl_store}
use suprclaw_engine.Sessions.Spec.{StoreWrite}
use suprclaw_engine.Sessions.Manager.{SessionManager, get_or_create}
use suprclaw_engine.Sessions.Manager
use suprclaw_engine.Sessions.Manager.Refinement
use suprclaw_engine.Sessions.Manager.Refinement.{created_refines}
use suprclaw_engine.Sessions.Backend
use suprclaw_engine.Sessions.Backend.Laws.{writes_fit, perform_all_refines}

-- The same writes to a session that the manager just created, and to one without files in the JSONL
-- back end, make both read the same summary and the same discovered tools, and histories that differ
-- at most in what JSON leaves out of a tool call. The messages written must fit the lines that can be
-- read.
pub stores_agree :
    ⦃u : Unicode⦄ (j : Json) (created updated : ℕ) (key : Text) (ws : List (ℕ × StoreWrite))
    (sm : SessionManager) (d : Disk)
    → sm.sessions key ≡ none
    → d.messages (sanitize_key key) ≡ none
    → d.metas (sanitize_key key) ≡ none
    → writes_fit j key ws ≡ true
    → let sm' = Manager.Refinement.perform_all key ws (get_or_create created updated key sm).1 in
      let d' = Backend.perform_all (jsonl_store j) key ws d in
      (Backend.get_history (jsonl_store j) key d' ≡ map stored (Manager.get_history key sm'))
      × (Backend.get_summary (jsonl_store j) key d' ≡ Manager.get_summary key sm')
      × (Backend.get_discovered_tools (jsonl_store j) key d' ≡ Manager.get_discovered_tools key sm')
stores_agree j created updated key ws sm d fresh m n f =
    let (h, s, t) = perform_all_refines j key ws d m n f in
    let (h', s', t') = created_refines created updated key ws sm fresh in
    (h ∙ ap (map stored) (sym h'), s ∙ sym s', t ∙ sym t')
