-- ===== src/Bus/Late.antt =====
-- Publishers of pkg/bus/bus.go that come while `Close` runs.
use suprclaw_engine.Prelude.{ℕ, suc, ◌≤◌, ◌≡◌, refl, sym, ◌∙◌, ap, Bool, true, false, arith}
use mathlib.Core.Bool.{true≢false, false≢true}
use suprclaw_engine.Bus.{
  MessageBus, Phase, running, done_closed, flag_set, waited, channel_closed, drained, Step, load,
  check, refuse, refuse_cancelled, register, send, leave, leave_cancelled, panic, receive,
  close_done, set_flag, wait, close_channel, drain, finish, Reach, here, next, new_message_bus,
  has_waited, has_closed, has_begun, count_late,
}

fewer : (n registered late : ℕ) → registered ≡ suc n → registered ≤ late → n ≤ late
fewer n registered late h k = omega arith

late_awaited :
    (phase : Phase) (registered late : ℕ)
    → (has_waited phase ≡ true → registered ≤ late)
    → has_waited phase ≡ true
    → suc registered ≤ count_late phase late
late_awaited phase registered late h w = rw (w) (omega (arith, h w))

late_panic :
    (waits is_open : Bool) (n registered late : ℕ)
    → (waits ≡ true → registered ≤ late)
    → (waits ≡ false → is_open ≡ true)
    → is_open ≡ false
    → registered ≡ suc n
    → 1 ≤ late
late_panic true is_open n registered late h k o r = omega (arith, h refl)
late_panic false is_open n registered late h k o r = absurd (true≢false (sym (k refl) ∙ o))

at_least : {m n k : ℕ} → m ≤ n → n ≤ k → m ≤ k
at_least h k = omega arith

late_grows : (phase : Phase) (late : ℕ) → late ≤ count_late phase late
late_grows running late = omega arith
late_grows done_closed late = omega arith
late_grows flag_set late = omega arith
late_grows waited late = omega arith
late_grows channel_closed late = omega arith
late_grows drained late = omega arith

-- No message is dropped before the channel is closed, and only a publisher that joined the wait group
-- after `Close` had waited for it finds the channel closed.
module _ {M : Type 0} where
  record IsOrderly (b : MessageBus M) : Type 0 where
    kept : has_closed b.phase ≡ false → b.drained_count ≡ 0
    awaited : has_waited b.phase ≡ true → b.registered ≤ b.late
    opened : has_waited b.phase ≡ false → b.channel_open ≡ true
    orderly : b.panicked ≡ true → 1 ≤ b.late
    announced : has_begun b.phase ≡ true → b.done ≡ true

  Step-IsOrderly : {b c : MessageBus M} → Step b c → IsOrderly b → IsOrderly c
  Step-IsOrderly (load b h) i = record {
    kept = i.kept;
    awaited = i.awaited;
    opened = i.opened;
    orderly = i.orderly;
    announced = i.announced;
  }
  Step-IsOrderly (check b n h d) i = record {
    kept = i.kept;
    awaited = i.awaited;
    opened = i.opened;
    orderly = i.orderly;
    announced = i.announced;
  }
  Step-IsOrderly (refuse b n h d) i = record {
    kept = i.kept;
    awaited = i.awaited;
    opened = i.opened;
    orderly = i.orderly;
    announced = i.announced;
  }
  Step-IsOrderly (refuse_cancelled b n h) i = record {
    kept = i.kept;
    awaited = i.awaited;
    opened = i.opened;
    orderly = i.orderly;
    announced = i.announced;
  }
  Step-IsOrderly (register b n h) i = record {
    kept = i.kept;
    awaited = late_awaited b.phase b.registered b.late i.awaited;
    opened = i.opened;
    orderly = λ p. at_least (i.orderly p) (late_grows b.phase b.late);
    announced = i.announced;
  }
  Step-IsOrderly (send b n msg h o f) i = record {
    kept = i.kept;
    awaited = λ w. fewer n b.registered b.late h (i.awaited w);
    opened = i.opened;
    orderly = i.orderly;
    announced = i.announced;
  }
  Step-IsOrderly (leave b n h d) i = record {
    kept = i.kept;
    awaited = λ w. fewer n b.registered b.late h (i.awaited w);
    opened = i.opened;
    orderly = i.orderly;
    announced = i.announced;
  }
  Step-IsOrderly (leave_cancelled b n h) i = record {
    kept = i.kept;
    awaited = λ w. fewer n b.registered b.late h (i.awaited w);
    opened = i.opened;
    orderly = i.orderly;
    announced = i.announced;
  }
  Step-IsOrderly (panic b n h o) i = record {
    kept = i.kept;
    awaited = λ w. fewer n b.registered b.late h (i.awaited w);
    opened = i.opened;
    orderly = λ _.
        late_panic (has_waited b.phase) b.channel_open n b.registered b.late i.awaited i.opened o h;
    announced = i.announced;
  }
  Step-IsOrderly (receive b msg rest h) i = record {
    kept = i.kept;
    awaited = i.awaited;
    opened = i.opened;
    orderly = i.orderly;
    announced = i.announced;
  }
  Step-IsOrderly (close_done b h) i = record {
    kept = λ _. i.kept (ap has_closed h);
    awaited = λ w. absurd (false≢true w);
    opened = λ _. i.opened (ap has_waited h);
    orderly = i.orderly;
    announced = λ _. refl;
  }
  Step-IsOrderly (set_flag b h) i = record {
    kept = λ _. i.kept (ap has_closed h);
    awaited = λ w. absurd (false≢true w);
    opened = λ _. i.opened (ap has_waited h);
    orderly = i.orderly;
    announced = λ _. i.announced (ap has_begun h);
  }
  Step-IsOrderly (wait b h r) i = record {
    kept = λ _. i.kept (ap has_closed h);
    awaited = λ _. omega arith;
    opened = λ w. absurd (true≢false w);
    orderly = i.orderly;
    announced = λ _. i.announced (ap has_begun h);
  }
  Step-IsOrderly (close_channel b h) i = record {
    kept = λ w. absurd (true≢false w);
    awaited = λ _. i.awaited (ap has_waited h);
    opened = λ w. absurd (true≢false w);
    orderly = i.orderly;
    announced = λ _. i.announced (ap has_begun h);
  }
  Step-IsOrderly (drain b msg rest p h) i = record {
    kept = λ q. absurd (false≢true (sym q ∙ ap has_closed p));
    awaited = i.awaited;
    opened = i.opened;
    orderly = i.orderly;
    announced = i.announced;
  }
  Step-IsOrderly (finish b p h) i = record {
    kept = λ w. absurd (true≢false w);
    awaited = λ _. i.awaited (ap has_waited p);
    opened = λ w. absurd (true≢false w);
    orderly = i.orderly;
    announced = λ _. i.announced (ap has_begun p);
  }

  Reach-IsOrderly : {b c : MessageBus M} → Reach b c → IsOrderly b → IsOrderly c
  Reach-IsOrderly here i = i
  Reach-IsOrderly (next r s) i = Step-IsOrderly s (Reach-IsOrderly r i)

  new_message_bus-IsOrderly : IsOrderly new_message_bus
  new_message_bus-IsOrderly = record {
    kept = λ _. refl;
    awaited = λ w. absurd (false≢true w);
    opened = λ _. refl;
    orderly = λ p. absurd (false≢true p);
    announced = λ w. absurd (false≢true w);
  }

  -- In every state that a new bus reaches, `Close` has dropped no message unless it has closed the
  -- channel.
  close-kept :
      (b : MessageBus M)
      → Reach new_message_bus b
      → has_closed b.phase ≡ false
      → b.drained_count ≡ 0
  close-kept b r = (Reach-IsOrderly r new_message_bus-IsOrderly).kept

  -- In every state that a new bus reaches, `done` is closed if `Close` has begun.
  pub closing-done :
      (b : MessageBus M) → Reach new_message_bus b → has_begun b.phase ≡ true → b.done ≡ true
  closing-done b r = (Reach-IsOrderly r new_message_bus-IsOrderly).announced

  -- If a publisher panics in a state that a new bus reaches, then a publisher joined the wait group after
  -- `Close` had waited for it.
  pub panicked-late : (b : MessageBus M) → Reach new_message_bus b → b.panicked ≡ true → 1 ≤ b.late
  panicked-late b r = (Reach-IsOrderly r new_message_bus-IsOrderly).orderly
