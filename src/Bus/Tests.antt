-- ===== src/Bus/Tests.antt =====
-- Runs of pkg/bus/bus.go's steps.
use suprclaw_engine.Prelude.{ℕ, ◌≡◌, refl, true, false, [], ◌∷◌, ◌≤◌, arith}
use suprclaw_engine.Bus.{
  MessageBus, done_closed, flag_set, waited, channel_closed, load, check, register, send,
  close_done, set_flag, wait, close_channel, panic, Reach, here, next, new_message_bus,
}
use suprclaw_engine.Bus.Late.{panicked-late}
use suprclaw_engine.Bus.Race.{publish_panics}

abbrev empty_bus : MessageBus ℕ
empty_bus = new_message_bus

abbrev one_loaded : MessageBus ℕ
one_loaded = record empty_bus { loaded = 1 }

abbrev one_checked : MessageBus ℕ
one_checked = record empty_bus { checked = 1 }

abbrev one_registered : MessageBus ℕ
one_registered = record empty_bus { registered = 1 }

abbrev one_sent : MessageBus ℕ
one_sent = record empty_bus { buffer = 7 ∷ []; sent = 7 ∷ [] }

checked_run : Reach new_message_bus one_checked
checked_run = next (next here (load empty_bus refl)) (check one_loaded 0 refl refl)

sent_run : Reach new_message_bus one_sent
sent_run =
    next (next checked_run (register one_checked 0 refl))
      (send one_registered 0 7 refl refl (omega arith))

publish_panics_example : (c : MessageBus ℕ) × (Reach one_checked c × (c.panicked ≡ true))
publish_panics_example = publish_panics one_checked 0 refl refl

-- A publisher waits in its second `select` when `Close` begins.
abbrev waiting_bus : MessageBus ℕ
waiting_bus = record one_registered { phase = done_closed; done = true }

-- A publisher that joins the wait group when `Close` has already waited.
abbrev waited_bus : MessageBus ℕ
waited_bus = record one_checked { phase = waited; done = true; closed = true }

abbrev late_bus : MessageBus ℕ
late_bus = record waited_bus {
  checked = 0;
  registered = 1;
  late = 1;
  phase = channel_closed;
  channel_open = false;
}

abbrev panicked_bus : MessageBus ℕ
panicked_bus = record late_bus { registered = 0; panicked = true }

panicked_run : Reach new_message_bus panicked_bus
panicked_run =
    next
      (next
        (next
          (next
            (next (next checked_run (close_done one_checked refl))
              (set_flag (record one_checked { phase = done_closed; done = true }) refl))
            (wait (record waited_bus { phase = flag_set }) refl refl))
          (register waited_bus 0 refl))
        (close_channel (record waited_bus { checked = 0; registered = 1; late = 1 }) refl))
      (panic late_bus 0 refl refl)

panicked-late_example : 1 ≤ panicked_bus.late
panicked-late_example = panicked-late panicked_bus panicked_run refl
