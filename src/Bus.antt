-- ===== src/Bus.antt =====
-- pkg/bus/bus.go: publishing on a channel and closing the bus, as steps of the goroutines. One of
-- the five channels is modelled; the flag, the `done` channel and the wait group are shared by all,
-- so a publisher of another channel is one that registers and leaves. Publishers are counted by how
-- far they are. A `select` of which several cases are ready takes any of them; a context may be
-- cancelled at any time, and the steps that it allows are counted.
pub mod Late
pub mod Race
mod Tests
use suprclaw_engine.Prelude.{
  ℕ, zero, suc, ◌<◌, ◌≡◌, Bool, true, false, List, [], ◌∷◌, ◌++◌, length, if◌then◌else◌,
}

abbrev pub default_bus_buffer_size : ℕ
default_bus_buffer_size = 64

-- How far `Close` is.
pub data Phase : Type 0 where
  running : Phase
  done_closed : Phase
  flag_set : Phase
  waited : Phase
  channel_closed : Phase
  drained : Phase

pub record MessageBus (M : Type 0) : Type 0 where
  -- The buffer of the channel.
  pub buffer : List M
  pub done : Bool
  pub closed : Bool
  pub channel_open : Bool
  pub phase : Phase
  -- Publishers that saw the flag unset, that found `done` open, and that are in the wait group.
  pub loaded : ℕ
  pub checked : ℕ
  pub registered : ℕ
  -- What was sent, what receivers took off the channel, and how much `Close` dropped.
  pub sent : List M
  pub taken : List M
  pub drained_count : ℕ
  -- Publishers that joined the wait group after `Close` had waited for it.
  pub late : ℕ
  -- A publisher sent on the closed channel.
  pub panicked : Bool
  -- Publishers that returned because their context was cancelled.
  pub cancelled : ℕ

-- `Close` has passed `wg.Wait()`.
abbrev pub has_waited : Phase → Bool
has_waited running = false
has_waited done_closed = false
has_waited flag_set = false
has_waited waited = true
has_waited channel_closed = true
has_waited drained = true

-- `Close` has closed `done`.
abbrev pub has_begun : Phase → Bool
has_begun running = false
has_begun done_closed = true
has_begun flag_set = true
has_begun waited = true
has_begun channel_closed = true
has_begun drained = true

abbrev pub count_late : Phase → ℕ → ℕ
count_late phase n = if has_waited phase then suc n else n

-- `Close` has closed the channels.
abbrev pub has_closed : Phase → Bool
has_closed running = false
has_closed done_closed = false
has_closed flag_set = false
has_closed waited = false
has_closed channel_closed = true
has_closed drained = true

module _ {M : Type 0} where
  abbrev pub new_message_bus : MessageBus M
  new_message_bus = record {
    buffer = [];
    done = false;
    closed = false;
    channel_open = true;
    phase = running;
    loaded = 0;
    checked = 0;
    registered = 0;
    sent = [];
    taken = [];
    drained_count = 0;
    late = 0;
    panicked = false;
    cancelled = 0;
  }

  -- A step of a publisher, of `Close` or of a receiver.
  pub data Step : MessageBus M → MessageBus M → Type 0 where
    -- `mb.closed.Load()` is false.
    load : (b : MessageBus M) → b.closed ≡ false → Step b (record b { loaded = suc b.loaded })
    -- The first `select`: neither the context nor `done` is ready.
    check :
        (b : MessageBus M) (n : ℕ)
        → b.loaded ≡ suc n
        → b.done ≡ false
        → Step b (record b { loaded = n; checked = suc b.checked })
    -- The first `select` returns because `done` is ready, or the context.
    refuse :
        (b : MessageBus M) (n : ℕ)
        → b.loaded ≡ suc n
        → b.done ≡ true
        → Step b (record b { loaded = n })
    refuse_cancelled :
        (b : MessageBus M) (n : ℕ)
        → b.loaded ≡ suc n
        → Step b (record b { loaded = n; cancelled = suc b.cancelled })
    -- `mb.wg.Add(1)`.
    register :
        (b : MessageBus M) (n : ℕ)
        → b.checked ≡ suc n
        → Step b (record b {
          checked = n;
          registered = suc b.registered;
          late = count_late b.phase b.late;
        })
    -- The second `select` sends, and the publisher returns.
    send :
        (b : MessageBus M) (n : ℕ) (msg : M)
        → b.registered ≡ suc n
        → b.channel_open ≡ true
        → length b.buffer < default_bus_buffer_size
        → Step b (record b {
          registered = n;
          buffer = b.buffer ++ (msg ∷ []);
          sent = b.sent ++ (msg ∷ []);
        })
    -- The second `select` returns because `done` is ready, or the context.
    leave :
        (b : MessageBus M) (n : ℕ)
        → b.registered ≡ suc n
        → b.done ≡ true
        → Step b (record b { registered = n })
    leave_cancelled :
        (b : MessageBus M) (n : ℕ)
        → b.registered ≡ suc n
        → Step b (record b { registered = n; cancelled = suc b.cancelled })
    -- The second `select` takes the send on a closed channel.
    panic :
        (b : MessageBus M) (n : ℕ)
        → b.registered ≡ suc n
        → b.channel_open ≡ false
        → Step b (record b { registered = n; panicked = true })
    -- A receiver takes the oldest message.
    receive :
        (b : MessageBus M) (msg : M) (rest : List M)
        → b.buffer ≡ msg ∷ rest
        → Step b (record b { buffer = rest; taken = b.taken ++ (msg ∷ []) })
    -- The statements of `Close`, in order.
    close_done :
        (b : MessageBus M)
        → b.phase ≡ running
        → Step b (record b { phase = done_closed; done = true })
    set_flag :
        (b : MessageBus M)
        → b.phase ≡ done_closed
        → Step b (record b { phase = flag_set; closed = true })
    wait :
        (b : MessageBus M)
        → b.phase ≡ flag_set
        → b.registered ≡ 0
        → Step b (record b { phase = waited })
    close_channel :
        (b : MessageBus M)
        → b.phase ≡ waited
        → Step b (record b { phase = channel_closed; channel_open = false })
    drain :
        (b : MessageBus M) (msg : M) (rest : List M)
        → b.phase ≡ channel_closed
        → b.buffer ≡ msg ∷ rest
        → Step b (record b { buffer = rest; drained_count = suc b.drained_count })
    finish :
        (b : MessageBus M)
        → b.phase ≡ channel_closed
        → b.buffer ≡ []
        → Step b (record b { phase = drained })

  -- Any number of steps.
  pub data Reach (b : MessageBus M) : MessageBus M → Type 0 where
    here : Reach b b
    next : {c d : MessageBus M} → Reach b c → Step c d → Reach b d
