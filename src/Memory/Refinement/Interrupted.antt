-- ===== src/Memory/Refinement/Interrupted.antt =====
-- What a session of pkg/memory/jsonl.go reads after the process stopped between the writes of
-- `SetHistory`.
use suprclaw_engine.Prelude.{
  ℕ, zero, suc, subst, length-take_le, ◌≤◌, ◌≡◌, refl, sym, ◌∙◌, ap, true, List, [], ◌∷◌, ◌++◌,
  nat_eq, list_eq, map, length, take, drop, arith,
}
use mathlib.Core.List.{map-append}
use suprclaw_engine.Prelude.Slices.{take-drop}
use suprclaw_engine.Prelude.Text.{Text}
use suprclaw_engine.Prelude.Unicode.{Unicode}
use suprclaw_engine.Providers.Message.{Message}
use suprclaw_engine.Sessions.Spec.{Conversation}
use suprclaw_engine.Memory.Disk.{
  SessionMeta, created_by, Json, Disk, ok, stored, read_messages, read_meta, write_meta,
}
use suprclaw_engine.Memory.Store.{get_history, perform_writes, set_history_writes, set_history}
use suprclaw_engine.Memory.Lines.{decode_lines-encoded}
use suprclaw_engine.Memory.Refinement.Writes.{replaced-Stands}
use suprclaw_engine.Memory.Refinement.{Represents, Stands, all_fit, meta-written, Stands-Reads}

length-map : (g : Message → Message) (l : List Message) → length (map g l) ≡ length l
length-map g [] = refl
length-map g (x ∷ l) = ap suc (length-map g l)

take-nil : (k : ℕ) → take {A = Disk → Disk} k [] ≡ []
take-nil zero = refl
take-nil (suc k) = refl

module _ ⦃u : Unicode⦄ (j : Json) where
  module _ (key : Text) where
    -- What a process that stopped while the history was set leaves to be read: the history that was
    -- there, the whole file, which is that history behind the messages cut off from it earlier, or the
    -- history that was set.
    pub data IsInterrupted (d : Disk) (c : Conversation) (skip : ℕ) (history : List Message)
        (after : Disk) : Type 0 where
      before_writes :
          get_history j key after ≡ ok (map stored c.history) → IsInterrupted d c skip history after
      between_writes :
          (older : List Message)
          → read_messages j key 0 d ≡ ok (older ++ map stored c.history)
          → length older ≤ skip
          → get_history j key after ≡ ok (older ++ map stored c.history)
          → IsInterrupted d c skip history after
      after_writes :
          get_history j key after ≡ ok (map stored history) → IsInterrupted d c skip history after

    whole_file :
        (d : Disk) (c : Conversation) (msgs : List Message) (meta : SessionMeta)
        → Represents j key d c msgs meta
        → map stored msgs ≡ map stored (take meta.skip msgs) ++ map stored c.history
    whole_file d c msgs meta r =
        ap (map stored) (take-drop meta.skip msgs)
        ∙ map-append stored (take meta.skip msgs) (drop meta.skip msgs)
        ∙ ap (λ l. map stored (take meta.skip msgs) ++ l) r.history

    -- The metadata is written and the file is not.
    metadata-IsInterrupted :
        (now : ℕ) (history : List Message) (d : Disk) (c : Conversation) (msgs : List Message)
        (meta : SessionMeta)
        → Represents j key d c msgs meta
        → IsInterrupted d c meta.skip history
            (perform_writes j (take 1 (set_history_writes j now key history meta)) d)
    unfolding read_messages Stands
    metadata-IsInterrupted now history d c msgs meta r =
        let meta' = record meta {
          created_at = created_by now meta;
          skip = 0;
          count = length history;
          updated_at = now;
        } in
        let all_read : Conversation = record c { history = msgs } in
        let r1 =
          meta-written j key d c all_read msgs meta meta' r r.keyed (omega arith) refl r.summary
            r.tools in
        let read : read_messages j key 0 d ≡ ok (map stored msgs) =
          rw (read_messages, r.lines, decode_lines-encoded j 0 0 msgs) refl in
        let few : length (map stored (take meta.skip msgs)) ≤ meta.skip =
          rw (length-map stored (take meta.skip msgs)) (length-take_le meta.skip msgs) in
        between_writes (map stored (take meta.skip msgs))
          (read ∙ ap ok (whole_file d c msgs meta r)) few
          ((Stands-Reads j key (write_meta j key meta' d) all_read (msgs, meta', r1)).history_read
            ∙ ap ok (whole_file d c msgs meta r))

    -- If the process stops after any number of the writes by which a history is set, then the history
    -- that was there is read, or that history behind the messages that were cut off from it earlier and
    -- are still in the file, at most as many as are skipped, or the history that was set.
    pub set_history-IsInterrupted :
        (k now : ℕ) (history : List Message) (d : Disk) (c : Conversation) (meta : SessionMeta)
        → all_fit j history ≡ true
        → Stands j key d c
        → read_meta j key d ≡ ok meta
        → IsInterrupted d c meta.skip history
            (perform_writes j (take k (set_history_writes j now key history meta)) d)
    unfolding Stands set_history
    set_history-IsInterrupted zero now history d c meta f s e =
        before_writes (Stands-Reads j key d c s).history_read
    set_history-IsInterrupted (suc zero) now history d c meta f (msgs, meta₀, r) e =
        let same : meta₀ ≡ meta = cc (r.read, e) in
        subst
          (λ (m : SessionMeta).
            IsInterrupted d c m.skip history
              (perform_writes j (take 1 (set_history_writes j now key history m)) d))
          same (metadata-IsInterrupted now history d c msgs meta₀ r)
    set_history-IsInterrupted (suc (suc k)) now history d c meta f s e =
        let after = (set_history j now key history d).0 in
        let set : get_history j key after ≡ ok (map stored history) =
          (Stands-Reads j key after (record c { history = history })
            (replaced-Stands j key now history d c f s)).history_read in
        let both = perform_writes j (set_history_writes j now key history meta) d in
        let performed : after ≡ both = rw (set_history, e) refl in
        after_writes (
          ap (λ writes. get_history j key (perform_writes j writes both)) (take-nil k)
          ∙ ap (get_history j key) (sym performed)
          ∙ set)
