-- ===== src/Ffi/Events/Delivery.antt =====
-- ffi.rs: what the C side can read from a batch of events.
use research_ssh_next.Prelude.{
  true, List, [], ◌∷◌, ◌++◌, length, map_all, map_all_cons, Option, some, map, ◌≡◌, refl, take,
  take-length,
}
use mathlib.Core.Option
use research_ssh_next.Event.{SessionEvent}
use research_ssh_next.Ffi.Backing.{
  Backing, no_backing, push_bytes, push_string, to_cstring, Extends, Extends-refl, Extends-trans,
  push_bytes-Extends, push_string-Extends, bytes_at-push_bytes, string_at-push_string,
}
use research_ssh_next.Ffi.Events.{
  RsEventKind, RsEvent, blank, push_event, push_events, c_event, c_events, Emitter, call_back,
  emit_batch,
}

-- What a reader that follows the header makes of a record: the kind says which fields count, and a
-- null pointer where there should be none is not read.
unfoldable pub read_event : RsEvent → Option SessionEvent
read_event r = elim r.kind [
  | RsEventKind.state_changed ↦ some (SessionEvent.state_changed r.state)
  | RsEventKind.terminal_data ↦
      Option.map (λ b. SessionEvent.terminal_data (take r.data_len b)) r.data_ptr
  | RsEventKind.error ↦ Option.map (SessionEvent.error r.error_code) r.message
  | RsEventKind.host_key_prompt ↦ Option.map SessionEvent.host_key_prompt r.message
]

-- The event with the NULs of its text replaced.
unfoldable pub sanitized : SessionEvent → SessionEvent
unfolding to_cstring
sanitized (SessionEvent.state_changed s) = SessionEvent.state_changed s
sanitized (SessionEvent.terminal_data b) = SessionEvent.terminal_data b
sanitized (SessionEvent.error code m) = SessionEvent.error code (to_cstring m)
sanitized (SessionEvent.host_key_prompt f) = SessionEvent.host_key_prompt (to_cstring f)

-- The record of an event, with no indices.
abbrev pub direct : SessionEvent → RsEvent
direct (SessionEvent.state_changed s) = record (blank RsEventKind.state_changed) { state = s }
direct (SessionEvent.terminal_data b) = record (blank RsEventKind.terminal_data) {
  data_ptr = some b;
  data_len = length b;
}
direct (SessionEvent.error code m) = record (blank RsEventKind.error) {
  error_code = code;
  message = some (to_cstring m);
}
direct (SessionEvent.host_key_prompt f) = record (blank RsEventKind.host_key_prompt) {
  message = some (to_cstring f);
}

push_event-Extends : (e : SessionEvent) (st : Backing) → Extends st (push_event e st).0
unfolding push_event
push_event-Extends (SessionEvent.state_changed s) st = Extends-refl st
push_event-Extends (SessionEvent.terminal_data b) st = push_bytes-Extends b st
push_event-Extends (SessionEvent.error code m) st = push_string-Extends m st
push_event-Extends (SessionEvent.host_key_prompt f) st = push_string-Extends f st

push_events-Extends : (es : List SessionEvent) (st : Backing) → Extends st (push_events es st).0
unfolding push_events
push_events-Extends [] st = Extends-refl st
push_events-Extends (e ∷ es) st =
    Extends-trans st (push_event e st).0 (push_events es (push_event e st).0).0
      (push_event-Extends e st) (push_events-Extends es (push_event e st).0)

c_event-push_event :
    (e : SessionEvent) (st st' : Backing)
    → Extends (push_event e st).0 st'
    → c_event st' (push_event e st).1 ≡ some (direct e)
unfolding push_event c_event
c_event-push_event (SessionEvent.state_changed s) st st' x = refl
c_event-push_event (SessionEvent.terminal_data b) st st' x =
    rw (x.keeps_bytes (push_bytes b st).1 b (bytes_at-push_bytes b st)) refl
c_event-push_event (SessionEvent.error code m) st st' x =
    rw (x.keeps_strings (push_string m st).1 (to_cstring m) (string_at-push_string m st)) refl
c_event-push_event (SessionEvent.host_key_prompt f) st st' x =
    rw (x.keeps_strings (push_string f st).1 (to_cstring f) (string_at-push_string f st)) refl

map_all-push_events :
    (es : List SessionEvent) (st st' : Backing)
    → Extends (push_events es st).0 st'
    → map_all (c_event st') (push_events es st).1 ≡ some (map direct es)
unfolding push_events
map_all-push_events [] st st' x = refl
map_all-push_events (e ∷ es) st st' x =
    let st1 = (push_event e st).0 in
    let here : c_event st' (push_event e st).1 ≡ some (direct e) =
      c_event-push_event e st st'
        (Extends-trans st1 (push_events es st1).0 st' (push_events-Extends es st1) x) in
    map_all_cons (c_event st') (push_event e st).1 (push_events es st1).1 here
      (map_all-push_events es st1 st' x)

pub c_events_lem : (es : List SessionEvent) → c_events es ≡ some (map direct es)
unfolding c_events
c_events_lem es =
    map_all-push_events es no_backing (push_events es no_backing).0
      (Extends-refl (push_events es no_backing).0)

read_event-direct : (e : SessionEvent) → read_event (direct e) ≡ some (sanitized e)
unfolding read_event sanitized
read_event-direct (SessionEvent.state_changed s) = refl
read_event-direct (SessionEvent.terminal_data b) = rw (take-length b) refl
read_event-direct (SessionEvent.error code m) = refl
read_event-direct (SessionEvent.host_key_prompt f) = refl

map_all-direct :
    (es : List SessionEvent) → map_all read_event (map direct es) ≡ some (map sanitized es)
map_all-direct [] = refl
map_all-direct (e ∷ es) =
    map_all_cons read_event (direct e) (map direct es) (read_event-direct e) (map_all-direct es)

-- A batch that is not empty reaches an active callback as one call, and a reader of its records
-- finds the events in order, with the NULs of their texts replaced; no index panics.
pub emit_batch-read_event :
    (e : SessionEvent) (es : List SessionEvent) (em : Emitter RsEvent)
    → em.active ≡ true
    → (out : List RsEvent) × (emit_batch (e ∷ es) em
        ≡ some (record em { calls = em.calls ++ out ∷ [] }))
      × (map_all read_event out ≡ some (map sanitized (e ∷ es)))
unfolding emit_batch call_back
emit_batch-read_event e es em h =
    (map direct (e ∷ es), rw (c_events_lem (e ∷ es), h) refl, map_all-direct (e ∷ es))
