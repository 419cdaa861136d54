-- ===== src/Sessions/Backend.antt =====
-- pkg/session/jsonl_backend.go: a store behind the interface of the agent loop. Errors of writes and
-- reads are logged and dropped.
pub mod Laws
use suprclaw_engine.Prelude.{ℕ, List, [], ◌∷◌}
use suprclaw_engine.Prelude.Int.{ℤ}
use suprclaw_engine.Prelude.Text.{Text}
use suprclaw_engine.Providers.Message.{Message}
use suprclaw_engine.Memory.Disk.{Result, ok, err}
use suprclaw_engine.Memory.Interface.{Store}
use suprclaw_engine.Sessions.Spec.{
  StoreWrite, add, add_plain, summarize, discover, truncate, replace, save,
}

abbrev pub or_default : {A : Type 0} → A → Result A → A
or_default default (ok a) = a
or_default default (err e) = default

module _ {S : Type 0} (store : Store S) where
  unfoldable pub add_message : ℕ → Text → Text → Text → S → S
  add_message now key role content s = (store.add_message now key role content s).0

  unfoldable pub add_full_message : ℕ → Text → Message → S → S
  add_full_message now key msg s = (store.add_full_message now key msg s).0

  unfoldable pub get_history : Text → S → List Message
  get_history key s = or_default [] (store.get_history key s)

  unfoldable pub get_summary : Text → S → Text
  get_summary key s = or_default [] (store.get_summary key s)

  unfoldable pub set_summary : ℕ → Text → Text → S → S
  set_summary now key summary s = (store.set_summary now key summary s).0

  unfoldable pub get_discovered_tools : Text → S → List Text
  get_discovered_tools key s = or_default [] (store.get_discovered_tools key s)

  unfoldable pub set_discovered_tools : ℕ → Text → List Text → S → S
  set_discovered_tools now key names s = (store.set_discovered_tools now key names s).0

  unfoldable pub set_history : ℕ → Text → List Message → S → S
  set_history now key history s = (store.set_history now key history s).0

  unfoldable pub truncate_history : ℕ → Text → ℤ → S → S
  truncate_history now key keep_last s = (store.truncate_history now key keep_last s).0

  -- The only method that passes the error on.
  unfoldable pub save_session : ℕ → Text → S → S × Result (Unit {0})
  save_session now key s = store.compact now key s

  -- A write to the session of a key.
  unfoldable pub perform : ℕ → Text → StoreWrite → S → S
  unfolding add_message add_full_message set_summary set_discovered_tools set_history
      truncate_history save_session
  perform now key (add msg) s = add_full_message now key msg s
  perform now key (add_plain role content) s = add_message now key role content s
  perform now key (summarize summary) s = set_summary now key summary s
  perform now key (discover names) s = set_discovered_tools now key names s
  perform now key (truncate keep_last) s = truncate_history now key keep_last s
  perform now key (replace history) s = set_history now key history s
  perform now key save s = (save_session now key s).0

  unfoldable pub perform_all : Text → List (ℕ × StoreWrite) → S → S
  perform_all key [] s = s
  perform_all key ((now, w) ∷ ws) s = perform_all key ws (perform now key w s)
