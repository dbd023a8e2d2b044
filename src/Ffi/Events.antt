-- ===== src/Ffi/Events.antt =====
-- ffi.rs: `FfiEmitter`, which hands a batch of events to the C callback.
pub mod Delivery
use research_ssh_next.Prelude.{
  ℕ, Text, Bytes, Bool, true, false, List, [], ◌∷◌, ◌++◌, length, map_all, Option, none, some,
  if◌then◌else◌,
}
use mathlib.Core.Option
use research_ssh_next.Core.{RsErrorCode}
use research_ssh_next.Event.{RsSessionState, SessionEvent}
use research_ssh_next.Ffi.Backing.{
  Backing, no_backing, push_bytes, push_string, bytes_at, string_at,
}

pub data RsEventKind : Type 0 where
  state_changed terminal_data error host_key_prompt : RsEventKind

-- `RsEvent`. A pointer is `none` where it is null, and otherwise what it points to.
pub record RsEvent : Type 0 where
  pub kind : RsEventKind
  pub state : RsSessionState
  pub error_code : RsErrorCode
  pub data_ptr : Option Bytes
  pub data_len : ℕ
  pub message : Option Text

-- `enum Record`
pub data Slot : Type 0 where
  state : RsSessionState → Slot
  terminal_data host_key : ℕ → Slot
  error : RsErrorCode → ℕ → Slot

unfoldable pub push_event : SessionEvent → Backing → Backing × Slot
unfolding push_bytes push_string
push_event (SessionEvent.state_changed s) st = (st, Slot.state s)
push_event (SessionEvent.terminal_data bytes) st =
    let (st', i) = push_bytes bytes st in (st', Slot.terminal_data i)
push_event (SessionEvent.error code message) st =
    let (st', i) = push_string message st in (st', Slot.error code i)
push_event (SessionEvent.host_key_prompt fingerprint) st =
    let (st', i) = push_string fingerprint st in (st', Slot.host_key i)

-- The first loop.
unfoldable pub push_events : List SessionEvent → Backing → Backing × List Slot
unfolding push_event
push_events [] st = (st, [])
push_events (e ∷ es) st =
    let (st1, slot) = push_event e st in
    let (st2, slots) = push_events es st1 in (st2, slot ∷ slots)

abbrev pub blank : RsEventKind → RsEvent
blank kind = record {
  kind = kind;
  state = RsSessionState.idle;
  error_code = RsErrorCode.ok;
  data_ptr = none;
  data_len = 0;
  message = none;
}

-- The second loop; `none` is a panic on an index out of range.
unfoldable pub c_event : Backing → Slot → Option RsEvent
c_event st (Slot.state s) = some (record (blank RsEventKind.state_changed) { state = s })
c_event st (Slot.terminal_data i) =
    Option.map
      (λ b. record (blank RsEventKind.terminal_data) { data_ptr = some b; data_len = length b })
      (bytes_at st i)
c_event st (Slot.error code i) =
    Option.map (λ s. record (blank RsEventKind.error) { error_code = code; message = some s })
      (string_at st i)
c_event st (Slot.host_key i) =
    Option.map (λ s. record (blank RsEventKind.host_key_prompt) { message = some s })
      (string_at st i)

unfoldable pub c_events : List SessionEvent → Option (List RsEvent)
unfolding push_events c_event
c_events events = let (st, slots) = push_events events no_backing in map_all (c_event st) slots

-- The emitter: its gate, and the calls that the callback has got. The three emitters share it.
pub record Emitter (E : Type 0) : Type 0 where
  pub active : Bool
  pub calls : List (List E)

module _ {E : Type 0} where
  -- What `rscore_session_create` and the `set_*_callback` calls make.
  abbrev pub new_emitter : Emitter E
  new_emitter = record { active = true; calls = [] }

  unfoldable pub deactivate : Emitter E → Emitter E
  deactivate em = record em { active = false }

  -- The end of every `emit_*`: the gate is held over the call.
  unfoldable pub call_back : List E → Emitter E → Emitter E
  call_back out em = if em.active then record em { calls = em.calls ++ out ∷ [] } else em

unfoldable pub emit_batch : List SessionEvent → Emitter RsEvent → Option (Emitter RsEvent)
unfolding c_events call_back
emit_batch [] em = some em
emit_batch (e ∷ es) em = Option.map (λ out. call_back out em) (c_events (e ∷ es))
