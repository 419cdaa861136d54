-- ===== src/Bus/Race.antt =====
-- The race between pkg/bus/bus.go's `publish` and its `Close`.
use suprclaw_engine.Prelude.{ℕ, zero, suc, ◌≡◌, refl, true, false}
use suprclaw_engine.Bus.{
  MessageBus, running, flag_set, done_closed, waited, drained, channel_closed, register, leave,
  panic, close_done, set_flag, wait, close_channel, Reach, here, next,
}

module _ {M : Type 0} where
  Reach-append : {a b c : MessageBus M} → Reach a b → Reach b c → Reach a c
  Reach-append r here = r
  Reach-append r (next s step) = next (Reach-append r s) step

  -- Once `done` is closed, the publishers in the wait group leave one by one.
  leave_all :
      (b : MessageBus M) (n : ℕ)
      → b.done ≡ true
      → Reach (record b { registered = n }) (record b { registered = 0 })
  leave_all b zero d = here
  leave_all b (suc n) d =
      Reach-append (next here (leave (record b { registered = suc n }) n refl d)) (leave_all b n d)

  -- From every state where `Close` has not begun and a publisher is between its second test of the bus
  -- and its `wg.Add`, the goroutines can reach a state in which a publisher has sent on the closed
  -- channel, which panics.
  pub publish_panics :
      (b : MessageBus M) (n : ℕ)
      → b.phase ≡ running
      → b.checked ≡ suc n
      → (c : MessageBus M) × (Reach b c × (c.panicked ≡ true))
  publish_panics b n h k = (
    record gone { registered = 0; panicked = true },
    (
      next
          (next
            (next
              (next (Reach-append flagged (leave_all flag b.registered refl))
                (wait empty refl refl))
              (register waiting n k))
            (close_channel joined refl))
          (panic gone 0 refl refl),
      refl,
    ),
  )
    where
      done : MessageBus M
      done = record b { phase = done_closed; done = true }

      flag : MessageBus M
      flag = record done { phase = flag_set; closed = true }

      flagged : Reach b flag
      flagged = next (next here (close_done b h)) (set_flag done refl)

      empty : MessageBus M
      empty = record flag { registered = 0 }

      waiting : MessageBus M
      waiting = record empty { phase = waited }

      joined : MessageBus M
      joined = record waiting { checked = n; registered = 1; late = suc b.late }

      gone : MessageBus M
      gone = record joined { phase = channel_closed; channel_open = false }

  -- The end of `Close`, reached without a cancelled context and without a panic.
  abbrev pub Ending : MessageBus M → Type 0
  Ending b =
      (c : MessageBus M) × (Reach b c
        × (c.phase ≡ drained)
        × (c.cancelled ≡ b.cancelled)
        × (c.panicked ≡ b.panicked))
