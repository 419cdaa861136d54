-- ===== src/Sessions/Backend/Laws.antt =====
-- The JSONL back end against the conversation of a session.
use suprclaw_engine.Prelude.{ℕ, ◌≡◌, refl, Bool, true, ◌&&◌, List, [], ◌∷◌, none, map, arith}
use suprclaw_engine.Prelude.Text.{Text}
use suprclaw_engine.Prelude.Scan.Laws.{fits}
use suprclaw_engine.Prelude.Unicode.{Unicode}
use suprclaw_engine.Memory.Disk.{Json, Disk, stored, max_line_size, sanitize_key}
use suprclaw_engine.Memory.Store.{add_message}
use suprclaw_engine.Memory.Interface.{jsonl_store}
use suprclaw_engine.Memory.Refinement.{Stands, Stands-Reads, fresh-Stands, all_fit}
use suprclaw_engine.Memory.Refinement.Writes.{
  appended-Stands, summarized-Stands, discovered-Stands, replaced-Stands, truncated-Stands,
  compacted-Stands,
}
use suprclaw_engine.Sessions.Spec.{
  Conversation, no_conversation, StoreWrite, add, add_plain, summarize, discover, truncate, replace,
  save, plain, apply, apply_all,
}
use suprclaw_engine.Sessions.Backend.{
  perform, perform_all, get_history, get_summary, get_discovered_tools,
}

module _ ⦃u : Unicode⦄ (j : Json) (key : Text) where
  -- The messages of a write fit in the lines that can be read back.
  abbrev pub write_fits : StoreWrite → Bool
  write_fits (add msg) = fits max_line_size (j.encode_message msg)
  write_fits (add_plain role content) = fits max_line_size (j.encode_message (plain role content))
  write_fits (replace history) = all_fit j history
  write_fits w = true

  abbrev pub writes_fit : List (ℕ × StoreWrite) → Bool
  writes_fit [] = true
  writes_fit ((now, w) ∷ ws) = write_fits w && writes_fit ws

  abbrev pub writes : List (ℕ × StoreWrite) → List StoreWrite
  writes = map (λ (w : ℕ × StoreWrite). w.1)

  perform-Stands :
      (now : ℕ) (w : StoreWrite) (d : Disk) (c : Conversation)
      → write_fits w ≡ true
      → Stands j key d c
      → Stands j key (perform (jsonl_store j) now key w d) (apply w c)
  unfolding perform apply add_message
  perform-Stands now (add msg) d c f s = appended-Stands j key now msg d c f s
  perform-Stands now (add_plain role content) d c f s =
      appended-Stands j key now (plain role content) d c f s
  perform-Stands now (summarize summary) d c f s = summarized-Stands j key now summary d c s
  perform-Stands now (discover names) d c f s = discovered-Stands j key now names d c s
  perform-Stands now (truncate keep) d c f s = truncated-Stands j key now keep d c s
  perform-Stands now (replace history) d c f s = replaced-Stands j key now history d c f s
  perform-Stands now save d c f s = compacted-Stands j key now d c s

  perform_all-Stands :
      (ws : List (ℕ × StoreWrite)) (d : Disk) (c : Conversation)
      → writes_fit ws ≡ true
      → Stands j key d c
      → Stands j key (perform_all (jsonl_store j) key ws d) (apply_all (writes ws) c)
  unfolding perform_all apply_all
  perform_all-Stands [] d c f s = s
  perform_all-Stands ((now, w) ∷ ws) d c f s =
      perform_all-Stands ws (perform (jsonl_store j) now key w d) (apply w c) (ground arith)
        (perform-Stands now w d c (ground arith) s)

  -- After any writes to a session that has no files, saves included, the back end reads the
  -- conversation that the writes make: its history as JSON stores it, its summary and its discovered
  -- tools. The messages written must be shorter than the longest line that can be read.
  pub perform_all_refines :
      (ws : List (ℕ × StoreWrite)) (d : Disk)
      → d.messages (sanitize_key key) ≡ none
      → d.metas (sanitize_key key) ≡ none
      → writes_fit ws ≡ true
      → let after = perform_all (jsonl_store j) key ws d in
        let c = apply_all (writes ws) no_conversation in
        (get_history (jsonl_store j) key after ≡ map stored c.history)
        × (get_summary (jsonl_store j) key after ≡ c.summary)
        × (get_discovered_tools (jsonl_store j) key after ≡ c.discovered_tools)
  unfolding get_history get_summary get_discovered_tools
  perform_all_refines ws d m n f =
      let r =
        Stands-Reads j key _ _
          (perform_all-Stands ws d no_conversation f (fresh-Stands j key d m n)) in
      (rw (r.history_read) refl, rw (r.summary_read) refl, rw (r.tools_read) refl)
