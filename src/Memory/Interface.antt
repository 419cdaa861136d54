-- ===== src/Memory/Interface.antt =====
-- The interface of pkg/memory/store.go, and pkg/memory/jsonl.go as an implementation of it.
use suprclaw_engine.Prelude.{ℕ, List}
use suprclaw_engine.Prelude.Int.{ℤ}
use suprclaw_engine.Prelude.Text.{Text}
use suprclaw_engine.Prelude.Unicode.{Unicode}
use suprclaw_engine.Providers.Message.{Message}
use suprclaw_engine.Memory.Disk.{Json, Disk, Result}
use suprclaw_engine.Memory.Store.{
  add_message, add_msg, get_history, get_summary, set_summary, get_discovered_tools,
  set_discovered_tools, truncate_history, set_history, compact,
}

-- The methods over a state, with the instant of the call. A write returns the state with its result.
pub record Store (S : Type 0) : Type 0 where
  pub add_message : ℕ → Text → Text → Text → S → S × Result (Unit {0})
  pub add_full_message : ℕ → Text → Message → S → S × Result (Unit {0})
  pub get_history : Text → S → Result (List Message)
  pub get_summary : Text → S → Result Text
  pub set_summary : ℕ → Text → Text → S → S × Result (Unit {0})
  pub get_discovered_tools : Text → S → Result (List Text)
  pub set_discovered_tools : ℕ → Text → List Text → S → S × Result (Unit {0})
  pub truncate_history : ℕ → Text → ℤ → S → S × Result (Unit {0})
  pub set_history : ℕ → Text → List Message → S → S × Result (Unit {0})
  pub compact : ℕ → Text → S → S × Result (Unit {0})

module _ ⦃u : Unicode⦄ (j : Json) where
  abbrev pub jsonl_store : Store Disk
  jsonl_store = record {
    add_message = add_message j;
    add_full_message = add_msg j;
    get_history = get_history j;
    get_summary = get_summary j;
    set_summary = set_summary j;
    get_discovered_tools = get_discovered_tools j;
    set_discovered_tools = set_discovered_tools j;
    truncate_history = truncate_history j;
    set_history = set_history j;
    compact = compact j;
  }
