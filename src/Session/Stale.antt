-- ===== src/Session/Stale.antt =====
-- session.rs: an event of an old connection that is drained after a new one was made.
use research_ssh_next.Prelude.{
  Text, Bytes, true, ◌≡◌, refl, ◌∙◌, ap, List, [], ◌∷◌, ◌++◌, map, Option, none, some,
  if◌then◌else◌, arith,
}
use research_ssh_next.Core.{done}
use research_ssh_next.Event.{RsSessionState, SessionEvent, connected, disconnected}
use research_ssh_next.Fs.{FileProvider}
use research_ssh_next.Provider.{ProviderEvent, SshProvider}
use research_ssh_next.Session.Driver.{
  Driver, Input, Command, finishes, collect_all, collect_provider_event,
}
use research_ssh_next.Session.Handlers.{
  run, step, on_input, on_command, on_connect, on_disconnect, on_drain,
}

-- What the new connection receives, and then a turn of the queue and a disconnect.
abbrev pub later_inputs : List Bytes → List Input
later_inputs chunks =
    map (λ bytes. Input.pushes (ProviderEvent.terminal_data bytes)) chunks
    ++ Input.drain ∷ Input.command Command.disconnect finishes ∷ []

-- The server closes the old connection; before the driver has drained that event the user
-- disconnects and connects again; the new connection receives some bytes, the queue is drained, and
-- the user disconnects once more.
abbrev pub stale_inputs : Text → List Bytes → List Input
stale_inputs reason chunks =
    Input.pushes (ProviderEvent.disconnected reason)
    ∷ Input.command Command.disconnect finishes
    ∷ Input.command Command.connect finishes
    ∷ later_inputs chunks

-- The state that a queue leads to.
abbrev transition : List ProviderEvent → Option RsSessionState
transition queue = (collect_all queue ([], none)).1

collect_all-snoc :
    (evs : List ProviderEvent) (ev : ProviderEvent)
    (acc : List SessionEvent × Option RsSessionState)
    → collect_all (evs ++ ev ∷ []) acc ≡ collect_provider_event ev (collect_all evs acc)
unfolding collect_all
collect_all-snoc [] ev acc = refl
collect_all-snoc (e ∷ evs) ev acc = collect_all-snoc evs ev (collect_provider_event e acc)

data_transition :
    (bytes : Bytes) (acc : List SessionEvent × Option RsSessionState)
    → (collect_provider_event (ProviderEvent.terminal_data bytes) acc).1 ≡ acc.1
unfolding collect_provider_event
data_transition bytes acc = refl

transition-data :
    (queue : List ProviderEvent) (bytes : Bytes)
    → transition (queue ++ ProviderEvent.terminal_data bytes ∷ []) ≡ transition queue
transition-data queue bytes =
    ap (λ (r : List SessionEvent × Option RsSessionState). r.1)
      (collect_all-snoc queue (ProviderEvent.terminal_data bytes) ([], none))
    ∙ data_transition bytes (collect_all queue ([], none))

module _ {P S : Type 0} (ssh : SshProvider P S) (files : FileProvider S) where
  step-pushes :
      (ev : ProviderEvent) (d : Driver P S)
      → d.running ≡ true
      → step ssh files (Input.pushes ev) d ≡ record d { queue = d.queue ++ ev ∷ [] }
  unfolding step on_input
  step-pushes ev d on = ap (λ b. if b then record d { queue = d.queue ++ ev ∷ [] } else d) on

  run-later_inputs :
      (chunks : List Bytes) (d : Driver P S)
      → d.running ≡ true
      → transition d.queue ≡ some disconnected
      → ((run ssh files (later_inputs chunks) d).state ≡ disconnected)
        × ((run ssh files (later_inputs chunks) d).provider ≡ d.provider)
  unfolding run step on_input on_command on_disconnect on_drain
  run-later_inputs [] d on stale = ground arith
  run-later_inputs (bytes ∷ chunks) d on stale =
      let ev = ProviderEvent.terminal_data bytes in
      let e = step-pushes ev d on in
      let (shown, same) =
        run-later_inputs chunks (step ssh files (Input.pushes ev) d)
          (ap (λ (x : Driver P S). x.running) e ∙ on)
          (ap (λ (x : Driver P S). transition x.queue) e
            ∙ (transition-data d.queue bytes ∙ stale)) in
      (shown, same ∙ ap (λ (x : Driver P S). x.provider) e)

  -- The old event ends the new session: the driver shows `Disconnected`, and the disconnect that
  -- follows is ignored, so that the provider keeps the new connection.
  pub run-stale_inputs :
      (d : Driver P S) (reason : Text) (chunks : List Bytes) (p : P)
      → d.running ≡ true
      → d.state ≡ connected
      → d.queue ≡ []
      → ssh.connect (ssh.disconnect d.provider)
        ≡ record { result = done tt; provider = p; pushed = [] }
      → ((run ssh files (stale_inputs reason chunks) d).state ≡ disconnected)
        × ((run ssh files (stale_inputs reason chunks) d).provider ≡ (ssh.take_file_provider p).1)
  unfolding run step on_input on_command on_connect on_disconnect collect_all
  run-stale_inputs d reason chunks p on up empty new =
      let d1 = step ssh files (Input.pushes (ProviderEvent.disconnected reason)) d in
      let d2 = step ssh files (Input.command Command.disconnect finishes) d1 in
      let d3 = step ssh files (Input.command Command.connect finishes) d2 in
      let on3 : d3.running ≡ true = ground arith in
      let stale : transition d3.queue ≡ some disconnected = ground arith in
      let kept : d3.provider ≡ (ssh.take_file_provider p).1 = ground arith in
      let (shown, same) = run-later_inputs chunks d3 on3 stale in (shown, same ∙ kept)
