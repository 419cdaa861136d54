-- ===== src/Sessions/Manager/Laws.antt =====
-- Invariants of pkg/session/manager.go over all its writes.
use suprclaw_engine.Prelude.{
  ℕ, ◌≡◌, refl, Bool, true, false, ◌&&◌, List, [], ◌∷◌, Option, none, some, ◌==◌, nat_eq, list_eq,
  arith, ==_self, sym, subst,
}
use suprclaw_engine.Prelude.Text.{Text}
use suprclaw_engine.Prelude.Int.{ℤ}
use suprclaw_engine.Prelude.Sort.{ascending}
use suprclaw_engine.Prelude.Unicode.{Unicode}
use suprclaw_engine.Providers.Message.{Message}
use suprclaw_engine.Sessions.Manager.{
  Session, SessionManager, new_session_manager, get_or_create, add_full_message, add_message,
  set_summary, set_discovered_tools, truncate_session, truncate_history, set_history,
}
use suprclaw_engine.Sessions.Manager.Tools.{normalize_discovered_tools_lem}

-- The calls that write, with the instants of each.
pub data Write : Type 0 where
  create : ℕ → ℕ → Write
  append : ℕ → ℕ → Message → Write
  append_plain : ℕ → ℕ → Text → Text → Write
  summarize : ℕ → Text → Write
  discover : ℕ → ℕ → List Text → Write
  truncate : ℕ → ℤ → Write
  replace : ℕ → List Message → Write

module _ ⦃u : Unicode⦄ where
  -- One call on the session of a key.
  unfoldable pub write : Text → Write → SessionManager → SessionManager
  write key (create t v) sm = (get_or_create t v key sm).1
  write key (append t v msg) sm = add_full_message t v key msg sm
  write key (append_plain t v role content) sm = add_message t v key role content sm
  write key (summarize t summary) sm = set_summary t key summary sm
  write key (discover t v names) sm = set_discovered_tools t v key names sm
  write key (truncate t n) sm = truncate_history t key n sm
  write key (replace t history) sm = set_history t key history sm

  unfoldable pub write_all : List (Text × Write) → SessionManager → SessionManager
  write_all [] sm = sm
  write_all ((key, w) ∷ ws) sm = write_all ws (write key w sm)

  -- A session under a key carries that key, and its discovered tools are in order.
  abbrev pub is_keyed : Text → Option Session → Bool
  is_keyed key none = true
  is_keyed key (some session) = session.key == key && ascending session.discovered_tools

  -- A call that writes to the session of one key leaves the sessions of the other keys as they were.
  write-others :
      (key k : Text) (w : Write) (sm : SessionManager)
      → (k == key) ≡ false
      → (write key w sm).sessions k ≡ sm.sessions k
  unfolding write get_or_create add_full_message add_message set_summary set_discovered_tools
      truncate_history set_history
  write-others key k w sm other = ground arith

  write-is_keyed :
      (key : Text) (w : Write) (sm : SessionManager)
      → is_keyed key (sm.sessions key) ≡ true
      → is_keyed key ((write key w sm).sessions key) ≡ true
  unfolding write get_or_create add_full_message add_message set_summary set_discovered_tools
      truncate_history truncate_session set_history
  write-is_keyed key (discover t v names) sm h =
      ground (arith, ==_self key, (normalize_discovered_tools_lem names []).0)
  write-is_keyed key w sm h = ground (arith, ==_self key)

  write-IsWellFormed :
      (key : Text) (w : Write) (sm : SessionManager) (k : Text)
      → is_keyed key (sm.sessions key) ≡ true
      → is_keyed k (sm.sessions k) ≡ true
      → is_keyed k ((write key w sm).sessions k) ≡ true
  write-IsWellFormed key w sm k h h' = elim (list_eq.dec k key) [
    | yes same ↦
        subst (λ j. is_keyed j ((write key w sm).sessions j) ≡ true) (sym same)
          (write-is_keyed key w sm h)
    | no other ↦ rw (write-others key k w sm (ground arith)) h'
  ]

  -- A manager whose sessions are well formed.
  pub IsWellFormed : SessionManager → Type 0
  IsWellFormed sm = (k : Text) → is_keyed k (sm.sessions k) ≡ true

  write_all_keeps :
      (ws : List (Text × Write)) (sm : SessionManager)
      → IsWellFormed sm
      → IsWellFormed (write_all ws sm)
  unfolding write_all IsWellFormed
  write_all_keeps [] sm h = h
  write_all_keeps ((key, w) ∷ ws) sm h =
      write_all_keeps ws (write key w sm) (λ k. write-IsWellFormed key w sm k (h key) (h k))

  -- After any calls that write, in any order and on any keys, from a manager without stored sessions,
  -- every session carries the key it is kept under and its discovered tools are in ascending order.
  pub write_all-is_keyed :
      (ws : List (Text × Write)) (k : Text)
      → is_keyed k ((write_all ws new_session_manager).sessions k) ≡ true
  unfolding new_session_manager IsWellFormed
  write_all-is_keyed ws k = write_all_keeps ws new_session_manager (λ j. refl) k
