-- ===== src/Session/Conserved/Runs.antt =====
-- session.rs: no terminal byte is lost, added or moved on its way to the callback.
use research_ssh_next.Prelude.{
  Bytes, Bool, true, false, ◌≡◌, refl, sym, ap, ◌∙◌, append-nil, append_assoc, List, [], ◌∷◌, ◌++◌,
  flat_map-append, flat_map-snoc, Option, none, some, if◌then◌else◌, then_branch,
}
use mathlib.Core.List.{flat_map}
use research_ssh_next.Event.{RsSessionState, SessionEvent}
use research_ssh_next.Fs.{FileProvider}
use research_ssh_next.Provider.{ProviderEvent, SshProvider}
use research_ssh_next.Session.Driver.{Command, Race, Driver, Input, collect_all, start}
use research_ssh_next.Session.Handlers.{
  emit_if_any, deliver, on_drain, on_command, on_input, step, run,
}
use research_ssh_next.Session.Shutdown.{run-append}
use research_ssh_next.Session.Conserved.{
  HasBytes, same-HasBytes, emitted, queued, in_batch, collect_all-bytes,
}
use research_ssh_next.Session.Conserved.Arms.{
  pushed_by, quiet-HasBytes, on_connect-HasBytes, on_send-HasBytes, on_disconnect-HasBytes,
  on_shutdown-HasBytes, on_fs-HasBytes, on_exec-HasBytes,
}

module _ {P S : Type 0} where
  -- All that has been handed out, and what waits to be, in order.
  unfoldable pub bytes_of : Driver P S → Bytes
  unfolding emitted queued
  bytes_of d = emitted d.batches ++ queued d.queue

module _ {P S : Type 0} (ssh : SshProvider P S) (files : FileProvider S) where
  -- What the provider pushes while the driver runs.
  unfoldable pub pushed_during : List Input → Driver P S → List ProviderEvent
  unfolding pushed_by step
  pushed_during [] d = []
  pushed_during (i ∷ is) d =
      (if d.running then pushed_by ssh files i d else []) ++ pushed_during is (step ssh files i d)

  start-HasBytes : (d : Driver P S) → HasBytes (emitted d.batches) d.queue d
  start-HasBytes d = record { out_same = refl; queue_same = refl }

  HasBytes-kept :
      (evs : List ProviderEvent) (d d' : Driver P S)
      → HasBytes (emitted d.batches) (d.queue ++ evs) d'
      → bytes_of d' ≡ bytes_of d ++ queued evs
  unfolding bytes_of queued
  HasBytes-kept evs d d' h =
      ap (λ out. out ++ queued d'.queue) h.out_same
      ∙ (ap (λ q. emitted d.batches ++ queued q) h.queue_same
          ∙ (ap (λ bs. emitted d.batches ++ bs) (flat_map-append _ d.queue evs)
              ∙ sym (append_assoc (emitted d.batches) (queued d.queue) (queued evs))))

  emit_if_any-bytes :
      (batch : List SessionEvent) (d : Driver P S)
      → (emitted (emit_if_any ssh files batch d).batches ≡ emitted d.batches ++ in_batch batch)
        × ((emit_if_any ssh files batch d).queue ≡ d.queue)
  unfolding emit_if_any in_batch emitted flat_map
  emit_if_any-bytes [] d = (sym (append-nil (emitted d.batches)), refl)
  emit_if_any-bytes (e ∷ es) d = (flat_map-snoc in_batch d.batches (e ∷ es), refl)

  deliver-bytes :
      (batch : List SessionEvent) (t : Option RsSessionState) (d : Driver P S)
      → (emitted (deliver ssh files batch t d).batches ≡ emitted d.batches ++ in_batch batch)
        × ((deliver ssh files batch t d).queue ≡ d.queue)
  unfolding deliver in_batch flat_map
  deliver-bytes batch none d = emit_if_any-bytes batch d
  deliver-bytes batch (some s) d =
      let (h, k) =
        emit_if_any-bytes (batch ++ SessionEvent.state_changed s ∷ []) (record d { state = s }) in
      (
        h
            ∙ ap (λ bs. emitted d.batches ++ bs)
                (flat_map-snoc _ batch (SessionEvent.state_changed s)
                  ∙ append-nil (in_batch batch)),
        k,
      )

  on_drain-bytes :
      (d : Driver P S)
      → (emitted (on_drain ssh files d).batches ≡ emitted d.batches ++ queued d.queue)
        × ((on_drain ssh files d).queue ≡ [])
  unfolding on_drain in_batch flat_map
  on_drain-bytes d =
      let (batch, transition) = collect_all d.queue ([], none) in
      let (h, k) = deliver-bytes batch transition (record d { queue = [] }) in
      (h ∙ ap (λ bs. emitted d.batches ++ bs) (collect_all-bytes d.queue [] none), k)

  abbrev Conserves : Driver P S → List ProviderEvent → Driver P S → Type 0
  Conserves d evs d' = bytes_of d' ≡ bytes_of d ++ queued evs

  quiet-Conserves :
      (d d' : Driver P S) → HasBytes (emitted d.batches) d.queue d' → Conserves d [] d'
  quiet-Conserves d d' h = HasBytes-kept [] d d' (quiet-HasBytes ssh files d' h)

  on_command-Conserves :
      (c : Command) (race : Race) (d : Driver P S)
      → Conserves d (pushed_by ssh files (Input.command c race) d) (on_command ssh files c race d)
  unfolding on_command pushed_by
  on_command-Conserves Command.connect race d =
      HasBytes-kept _ d _ (on_connect-HasBytes ssh files race d (start-HasBytes d))
  on_command-Conserves (Command.send bytes) race d =
      HasBytes-kept _ d _ (on_send-HasBytes ssh files race bytes d (start-HasBytes d))
  on_command-Conserves Command.disconnect race d =
      quiet-Conserves d _ (on_disconnect-HasBytes ssh files d (start-HasBytes d))
  on_command-Conserves Command.shutdown race d =
      quiet-Conserves d _ (on_shutdown-HasBytes ssh files race d (start-HasBytes d))
  on_command-Conserves (Command.set_secret s) race d =
      quiet-Conserves d _ (same-HasBytes d _ refl refl (start-HasBytes d))
  on_command-Conserves (Command.set_private_key k s) race d =
      quiet-Conserves d _ (same-HasBytes d _ refl refl (start-HasBytes d))
  on_command-Conserves (Command.fs id op) race d =
      quiet-Conserves d _ (on_fs-HasBytes ssh files race id op d (start-HasBytes d))
  on_command-Conserves (Command.exec id line t) race d =
      quiet-Conserves d _ (on_exec-HasBytes ssh files race id line t d (start-HasBytes d))

  on_drain-Conserves : (d : Driver P S) → Conserves d [] (on_drain ssh files d)
  unfolding bytes_of queued flat_map
  on_drain-Conserves d =
      let (h, k) = on_drain-bytes d in
      ap (λ q. emitted (on_drain ssh files d).batches ++ queued q) k ∙ (ap (λ bs. bs ++ []) h)

  on_input-Conserves :
      (i : Input) (d : Driver P S) → Conserves d (pushed_by ssh files i d) (on_input ssh files i d)
  unfolding on_input pushed_by
  on_input-Conserves (Input.command c race) d = on_command-Conserves c race d
  on_input-Conserves (Input.pushes ev) d =
      HasBytes-kept (ev ∷ []) d _ (record { out_same = refl; queue_same = refl })
  on_input-Conserves Input.drain d = on_drain-Conserves d
  on_input-Conserves Input.register_file_emitter d =
      quiet-Conserves d _ (same-HasBytes d _ refl refl (start-HasBytes d))
  on_input-Conserves Input.register_task_emitter d =
      quiet-Conserves d _ (same-HasBytes d _ refl refl (start-HasBytes d))

  if-Conserves :
      (b : Bool) (d d' : Driver P S) (evs : List ProviderEvent)
      → Conserves d evs d'
      → Conserves d (if b then evs else []) (if b then d' else d)
  unfolding queued flat_map
  if-Conserves true d d' evs h = h
  if-Conserves false d d' evs h = sym (append-nil (bytes_of d))

  -- Over any inputs, the terminal bytes that were handed to the callback, and those that wait, are
  -- those of before and then those that the provider pushed, in that order: none is lost, added or
  -- moved, whatever fails, is cancelled or ends the session.
  pub run-bytes_of :
      (is : List Input) (d : Driver P S)
      → bytes_of (run ssh files is d) ≡ bytes_of d ++ queued (pushed_during is d)
  unfolding run pushed_during step queued flat_map
  run-bytes_of [] d = sym (append-nil (bytes_of d))
  run-bytes_of (i ∷ is) d =
      let first = if d.running then pushed_by ssh files i d else [] in
      let later = pushed_during is (step ssh files i d) in
      run-bytes_of is (step ssh files i d)
      ∙ (ap (λ bs. bs ++ queued later)
            (if-Conserves d.running d (on_input ssh files i d) (pushed_by ssh files i d)
              (on_input-Conserves i d))
          ∙ (append_assoc (bytes_of d) (queued first) (queued later)
              ∙ ap (λ bs. bytes_of d ++ bs) (sym (flat_map-append _ first later))))

  -- Once the running driver has had a turn of its event queue, the callback has got them all.
  pub drained-bytes :
      (p : P) (is : List Input)
      → (run ssh files is (start p)).running ≡ true
      → emitted (run ssh files (is ++ Input.drain ∷ []) (start p)).batches
        ≡ queued (pushed_during is (start p))
  unfolding run step on_input start bytes_of emitted queued flat_map
  drained-bytes p is h =
      let before = run ssh files is (start p) in
      ap (λ d. emitted d.batches)
        (run-append ssh files is (Input.drain ∷ []) (start p)
          ∙ then_branch before.running (on_drain ssh files before) before h)
      ∙ ((on_drain-bytes before).0 ∙ run-bytes_of is (start p))
