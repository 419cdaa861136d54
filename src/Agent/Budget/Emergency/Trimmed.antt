-- ===== src/Agent/Budget/Emergency/Trimmed.antt =====
-- What emergencyTrimMessages of pkg/agent/context_budget.go returns.
use suprclaw_engine.Prelude.{
  ℕ, zero, suc, ◌-◌, ◌≤◌, ◌<◌, ◌≡◌, refl, ◌∙◌, ap, Bool, false, List, [], ◌∷◌, Option, none, some,
  if◌then◌else◌, ltb, leb, nat_eq, list_eq, length, drop, arith,
}
use mathlib.Core.List.Sublistᴰ
use suprclaw_engine.Prelude.Int.{ℤ}
use suprclaw_engine.Prelude.Unicode.{Unicode}
use suprclaw_engine.Providers.Message.{Message}
use suprclaw_engine.Agent.Float.{Float64}
use suprclaw_engine.Agent.History.{system_kind, kind, first_pass, sanitize_history_for_provider}
use suprclaw_engine.Agent.History.Coherence.{IsCoherent, nil, single, turn}
use suprclaw_engine.Agent.History.Linked.{sanitize_history_for_provider-IsCoherent}
use suprclaw_engine.Agent.History.Kept.{
  is_user, is_user-kind, is_user_kind, sanitize_history_for_provider-sublist,
  sanitize_history_for_provider-users,
}
use suprclaw_engine.Agent.Budget.{amount, positive_or, in_unit_or}
use suprclaw_engine.Agent.Budget.Emergency.{
  find_latest_user_message_index, find_latest_tool_boundary_start, fix_boundary, at_least_one,
  move_start, with_system, share_start, trim_start, trim_conversation, emergency_trim_messages,
}
use suprclaw_engine.Agent.Budget.Emergency.Users.{last}
use suprclaw_engine.Agent.Budget.Emergency.Laws.{IsKept, IsTail-start, fix_boundary-IsKept}

move_start_le : (o : Option ℕ) (n : ℕ) → move_start o n ≤ n
move_start_le none n = omega arith
move_start_le (some i) n = ground arith

move_start_positive : (o : Option ℕ) (n : ℕ) → 0 < n → 0 < move_start o n
move_start_positive none n h = h
move_start_positive (some i) n h = ground arith

move_start_idx : (o : Option ℕ) (i n : ℕ) → o ≡ some (suc i) → move_start o n ≤ suc i
move_start_idx none i n h = absurd (ground arith)
move_start_idx (some j) i n h = ground arith

boundary_positive :
    (messages : List Message) (b : ℕ) → find_latest_tool_boundary_start messages ≡ some b → 0 < b
unfolding find_latest_tool_boundary_start
boundary_positive [] b h = absurd (ground arith)
boundary_positive (m ∷ ms) b h = ground arith

move_start_below : (o : Option ℕ) (n k : ℕ) → n ≤ k → move_start o n ≤ k
move_start_below o n k h = omega (arith, move_start_le o n)

at_least_one_lem : (n : ℕ) → 0 < at_least_one n
at_least_one_lem n = ground arith

earlier_positive : (a b : ℕ) → 0 < a → 0 < b → 0 < (if ltb a b then a else b)
earlier_positive a b h k = ground arith

module _ ⦃f : Float64⦄ where
  share_start_positive :
      (messages : List Message) (r : f.Ratio) (p : ℤ) → 0 < share_start messages r p
  unfolding share_start
  share_start_positive messages r p =
      let total = length messages in
      let keep_conversation =
        at_least_one (f.scale_up (total - 1) (in_unit_or (f.hundredths 60) r)) in
      let recent = total - amount (positive_or 6 p) in
      earlier_positive (at_least_one recent) (at_least_one (total - keep_conversation))
        (at_least_one_lem recent) (at_least_one_lem (total - keep_conversation))

  trim_start_positive :
      (messages : List Message) (r : f.Ratio) (p : ℤ) → 0 < trim_start messages r p
  unfolding trim_start
  trim_start_positive messages r p =
      let user = find_latest_user_message_index messages in
      let first = share_start messages r p in
      move_start_positive (find_latest_tool_boundary_start messages) (move_start user first)
        (move_start_positive user first (share_start_positive messages r p))

  trim_start_user :
      (messages : List Message) (r : f.Ratio) (p : ℤ) (i : ℕ)
      → find_latest_user_message_index messages ≡ some (suc i)
      → trim_start messages r p ≤ suc i
  unfolding trim_start
  trim_start_user messages r p i h =
      let user = find_latest_user_message_index messages in
      let first = share_start messages r p in
      move_start_below (find_latest_tool_boundary_start messages) (move_start user first) (suc i)
        (move_start_idx user i first h)

tail-IsKept :
    (system : Message) (ms : List Message) (start : ℕ)
    → is_user system ≡ false
    → 0 < start
    → ((i : ℕ) → find_latest_user_message_index (system ∷ ms) ≡ some (suc i) → start ≤ suc i)
    → IsKept ms (
        fix_boundary
          (system ∷ ms)
          start
          (drop start (system ∷ ms))
          (find_latest_tool_boundary_start (system ∷ ms)))
tail-IsKept system ms zero n h before = absurd (omega arith)
tail-IsKept system ms (suc s) n h before =
    fix_boundary-IsKept system s ms (find_latest_tool_boundary_start (system ∷ ms))
      (boundary_positive (system ∷ ms)) (IsTail-start system s ms n before)

module _ ⦃f : Float64⦄ ⦃u : Unicode⦄ where
  conversation-IsKept :
      (system : Message) (ms : List Message) (r : f.Ratio) (p : ℤ)
      → is_user system ≡ false
      → IsKept ms (trim_conversation (system ∷ ms) r p)
  unfolding trim_conversation
  conversation-IsKept system ms r p n =
      tail-IsKept system ms (trim_start (system ∷ ms) r p) n (trim_start_positive (system ∷ ms) r p)
        (trim_start_user (system ∷ ms) r p)

  sanitize-system :
      (system : Message) (l : List Message)
      → kind system ≡ system_kind
      → sanitize_history_for_provider (system ∷ l) ≡ sanitize_history_for_provider l
  unfolding sanitize_history_for_provider first_pass
  sanitize-system system l k = rw k refl

  with_system-IsCoherent :
      (b : Bool) (system : Message) (l : List Message)
      → IsCoherent b l
      → with_system system l ≡ system ∷ l
  unfolding kind
  with_system-IsCoherent b system _ (nil _) = refl
  with_system-IsCoherent b system _ (single _ m ms s c) = ground (arith, s)
  with_system-IsCoherent b system l (turn _ m results ms _ may k a c e) = rw e (ground (arith, k))

  sanitize-IsKept :
      (ms kept : List Message) → IsKept ms kept → IsKept ms (sanitize_history_for_provider kept)
  sanitize-IsKept ms kept k = record {
    sublist = Sublistᴰ.trans (sanitize_history_for_provider-sublist kept) k.sublist;
    user = ap last (sanitize_history_for_provider-users kept) ∙ k.user;
  }

  -- Of a system message and at least two more messages the emergency trim keeps the system message
  -- and, behind it, some of the others in their order: a coherent history, in which the latest
  -- message of the user is that of the conversation.
  pub emergency_trim_messages-IsKept :
      (system : Message) (ms : List Message) (r : f.Ratio) (p : ℤ)
      → kind system ≡ system_kind
      → 2 < length (system ∷ ms)
      → (kept : List Message) × (emergency_trim_messages (system ∷ ms) r p ≡ system ∷ kept)
        × IsCoherent false kept
        × IsKept ms kept
  unfolding emergency_trim_messages
  emergency_trim_messages-IsKept system ms r p k h =
      let conversation = trim_conversation (system ∷ ms) r p in
      let kept : List Message = sanitize_history_for_provider conversation in
      let coherent = sanitize_history_for_provider-IsCoherent conversation in
      let not_user = is_user-kind system ∙ ap is_user_kind k in
      let long : leb (length (system ∷ ms)) 2 ≡ false = ground arith in
      (
        kept,
        rw (emergency_trim_messages, long, sanitize-system system conversation k)
            (with_system-IsCoherent false system kept coherent),
        coherent,
        sanitize-IsKept ms conversation (conversation-IsKept system ms r p not_user),
      )
