-- ===== src/System/Terminal.antt =====
-- ffi.rs with session.rs: the terminal bytes from the provider to the C callback.
use research_ssh_next.Prelude.{
  Bytes, true, ◌≡◌, refl, sym, ap, ◌∙◌, append_assoc, append-nil, flat_map-append, List, [], ◌∷◌,
  ◌++◌, map, take-length, none, some,
}
use mathlib.Core.List.{flat_map}
use research_ssh_next.Event.{SessionEvent}
use research_ssh_next.Fs.{FileProvider}
use research_ssh_next.Provider.{SshProvider}
use research_ssh_next.Session.Driver.{Input, start}
use research_ssh_next.Session.Handlers.{run}
use research_ssh_next.Session.Conserved.{shown_bytes, in_batch, emitted, queued}
use research_ssh_next.Session.Conserved.Runs.{pushed_during, drained-bytes}
use research_ssh_next.Ffi.Events.{RsEvent, Emitter, new_emitter, emit_batch, call_back}
use research_ssh_next.Ffi.Events.Delivery.{read_event, direct, c_events_lem}
use research_ssh_next.Ffi.InBounds.{emit_each}
use research_ssh_next.System.Delivered.{flatten, flatten-snoc}

-- The terminal bytes that a reader of a record finds.
unfoldable pub read_bytes : RsEvent → Bytes
unfolding read_event
read_bytes r = elim (read_event r) [ none ↦ [] | some e ↦ shown_bytes e ]

-- And those of all calls.
unfoldable pub callback_bytes : Emitter RsEvent → Bytes
unfolding flat_map read_bytes
callback_bytes em = flat_map read_bytes (flatten em.calls)

read_bytes-direct : (e : SessionEvent) → read_bytes (direct e) ≡ shown_bytes e
unfolding read_bytes read_event
read_bytes-direct (SessionEvent.state_changed s) = refl
read_bytes-direct (SessionEvent.terminal_data bytes) = rw (take-length bytes) refl
read_bytes-direct (SessionEvent.error code m) = refl
read_bytes-direct (SessionEvent.host_key_prompt f) = refl

read_bytes-batch :
    (batch : List SessionEvent) → flat_map read_bytes (map direct batch) ≡ in_batch batch
unfolding flat_map in_batch
read_bytes-batch [] = refl
read_bytes-batch (e ∷ es) =
    ap (λ bs. bs ++ flat_map read_bytes (map direct es)) (read_bytes-direct e)
    ∙ ap (λ bs. shown_bytes e ++ bs) (read_bytes-batch es)

module _ (em : Emitter RsEvent) (active : em.active ≡ true) where
  abbrev Emits : List SessionEvent → Emitter RsEvent → Type 0
  Emits batch em' =
      (emit_batch batch em ≡ some em')
      × (em'.active ≡ true)
      × (callback_bytes em' ≡ callback_bytes em ++ in_batch batch)

  emit_batch-Emits : (batch : List SessionEvent) → (em' : Emitter RsEvent) × Emits batch em'
  unfolding emit_batch call_back callback_bytes in_batch flat_map
  emit_batch-Emits [] = (em, (refl, active, sym (append-nil (callback_bytes em))))
  emit_batch-Emits (e ∷ es) =
      let out = map direct (e ∷ es) in
      let em' : Emitter RsEvent = record em { calls = em.calls ++ out ∷ [] } in
      (
        em',
        (
          rw (c_events_lem (e ∷ es), active) refl,
          active,
          ap (flat_map read_bytes) (flatten-snoc em.calls out)
              ∙ (flat_map-append read_bytes (flatten em.calls) out
                  ∙ ap (λ bs. callback_bytes em ++ bs) (read_bytes-batch (e ∷ es))),
        ),
      )

emit_batches-bytes :
    (batches : List (List SessionEvent)) (em : Emitter RsEvent)
    → em.active ≡ true
    → (em' : Emitter RsEvent) × (emit_each emit_batch batches em ≡ some em')
      × (callback_bytes em' ≡ callback_bytes em ++ emitted batches)
unfolding emit_each emitted flat_map
emit_batches-bytes [] em h = (em, refl, sym (append-nil (callback_bytes em)))
emit_batches-bytes (batch ∷ batches) em h =
    let (em', (e, h', bytes)) = emit_batch-Emits em h batch in
    let (last, f, more) = emit_batches-bytes batches em' h' in
    (
      last,
      rw (e, emit_each) f,
      more
          ∙ (ap (λ bs. bs ++ emitted batches) bytes
              ∙ append_assoc (callback_bytes em) (in_batch batch) (emitted batches)),
    )

-- Once the running driver has had a turn of its event queue, the records that the callback has got
-- hold exactly the terminal bytes that the provider pushed, each once and in order, whatever
-- commands, failures and cancellations there were; and no call of the emitter panics.
pub start-callback_bytes :
    {P S : Type 0} (ssh : SshProvider P S) (files : FileProvider S) (p : P) (is : List Input)
    → (run ssh files is (start p)).running ≡ true
    → (em : Emitter RsEvent) × (emit_each emit_batch
          (run ssh files (is ++ Input.drain ∷ []) (start p)).batches
          new_emitter
        ≡ some em)
      × (callback_bytes em ≡ queued (pushed_during ssh files is (start p)))
unfolding callback_bytes flat_map
start-callback_bytes ssh files p is h =
    let d = run ssh files (is ++ Input.drain ∷ []) (start p) in
    let (em, e, bytes) = emit_batches-bytes d.batches new_emitter refl in
    (em, e, bytes ∙ drained-bytes ssh files p is h)
