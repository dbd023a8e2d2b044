-- ===== src/Mock/Reconnect.antt =====
-- providers/mock.rs with session.rs: the mock's file provider over several connections.
use research_ssh_next.Prelude.{
  ℕ, Text, Bytes, codes, false, ◌≡◌, refl, List, [], ◌∷◌, ◌++◌, Option, none, some, arith, if_both,
}
use mathlib.Core.Option
use research_ssh_next.Core.{RsErrorCode, CoreResult, done, fail}
use research_ssh_next.Event.{RsSessionState, SessionEvent}
use research_ssh_next.Fs.{FilePayload, FileResult, FsOp}
use research_ssh_next.Provider.{ConnectionConfig, SshProvider}
use research_ssh_next.MockFs.{MockFs, mock_file_provider}
use research_ssh_next.Session.Driver.{
  Driver, Input, Command, Race, finishes, dropped, start, is_busy, set_state, run_fs_op,
}
use research_ssh_next.Session.Handlers.{
  run, step, on_input, on_command, on_connect, on_send, on_disconnect, on_shutdown, on_fs, on_exec,
  on_drain, connect_done, run_connect, emit_file_result, deliver,
}
use research_ssh_next.Mock.Provider.{
  MockProvider, mock_provider, new_mock, connect, send, exec, disconnect, take_file_provider,
  is_unreachable,
}

-- Neither the driver nor the provider has a file provider any more.
abbrev NoFiles : Driver MockProvider MockFs → Type 0
NoFiles d = (d.provider.file_provider ≡ none) × (d.file_provider ≡ none)

module _ (from_utf8_lossy : Bytes → Text) where
  abbrev ssh : SshProvider MockProvider MockFs
  ssh = mock_provider from_utf8_lossy

  connect_done-NoFiles :
      (r : CoreResult (Unit {0})) (d : Driver MockProvider MockFs)
      → NoFiles d
      → NoFiles (connect_done ssh mock_file_provider r d)
  unfolding connect_done take_file_provider
  connect_done-NoFiles (done _) d (p, f) = (refl, p)
  connect_done-NoFiles (fail e) d h = h

  connect-files :
      (p : MockProvider) → p.file_provider ≡ none → (connect p).provider.file_provider ≡ none
  unfolding connect
  connect-files p h = ground arith

  run_connect-NoFiles :
      (race : Race) (d : Driver MockProvider MockFs)
      → NoFiles d
      → NoFiles (run_connect ssh mock_file_provider race d)
  unfolding run_connect disconnect
  run_connect-NoFiles finishes d (p, f) =
      let c = connect d.provider in
      connect_done-NoFiles c.result
        (record d { provider = c.provider; queue = d.queue ++ c.pushed })
        (connect-files d.provider p, f)
  run_connect-NoFiles dropped d h = h

  on_send-NoFiles :
      (race : Race) (bytes : Bytes) (d : Driver MockProvider MockFs)
      → NoFiles d
      → NoFiles (on_send ssh mock_file_provider race bytes d)
  unfolding on_send send
  on_send-NoFiles finishes bytes d h = ground arith
  on_send-NoFiles dropped bytes d h = ground arith

  on_disconnect-NoFiles :
      (d : Driver MockProvider MockFs)
      → NoFiles d
      → NoFiles (on_disconnect ssh mock_file_provider d)
  unfolding on_disconnect disconnect
  on_disconnect-NoFiles d h = ground arith

  on_exec-NoFiles :
      (race : Race) (id : ℕ) (line : Text) (t : ℕ) (d : Driver MockProvider MockFs)
      → NoFiles d
      → NoFiles (on_exec ssh mock_file_provider race id line t d)
  unfolding on_exec exec
  on_exec-NoFiles finishes id line t d h = ground arith
  on_exec-NoFiles dropped id line t d h = ground arith

  emit_file_result-NoFiles :
      (r : FileResult) (d : Driver MockProvider MockFs)
      → NoFiles d
      → NoFiles (emit_file_result ssh mock_file_provider r d)
  unfolding emit_file_result
  emit_file_result-NoFiles r d h = ground arith

  run_fs_op-none :
      (f : Option MockFs) (id : ℕ) (op : FsOp)
      → f ≡ none
      → (run_fs_op mock_file_provider f id op).1 ≡ none
  unfolding run_fs_op
  run_fs_op-none none id op h = refl
  run_fs_op-none (some fs) id op h = cc

  on_fs-NoFiles :
      (race : Race) (id : ℕ) (op : FsOp) (d : Driver MockProvider MockFs)
      → NoFiles d
      → NoFiles (on_fs ssh mock_file_provider race id op d)
  unfolding on_fs
  on_fs-NoFiles finishes id op d (p, f) =
      emit_file_result-NoFiles (run_fs_op mock_file_provider d.file_provider id op).0
        (record d { file_provider = (run_fs_op mock_file_provider d.file_provider id op).1 })
        (p, run_fs_op-none d.file_provider id op f)
  on_fs-NoFiles dropped id op d (p, f) =
      emit_file_result-NoFiles _
        (record d { file_provider = Option.map (mock_file_provider.dropped op) d.file_provider })
        (p, rw f refl)

  deliver-NoFiles :
      (batch : List SessionEvent) (t : Option RsSessionState) (d : Driver MockProvider MockFs)
      → NoFiles d
      → NoFiles (deliver ssh mock_file_provider batch t d)
  unfolding deliver
  deliver-NoFiles [] none d h = h
  deliver-NoFiles (e ∷ es) none d h = h
  deliver-NoFiles [] (some s) d h = h
  deliver-NoFiles (e ∷ es) (some s) d h = h

  on_command-NoFiles :
      (c : Command) (race : Race) (d : Driver MockProvider MockFs)
      → NoFiles d
      → NoFiles (on_command ssh mock_file_provider c race d)
  unfolding on_command
  on_command-NoFiles Command.connect race d h =
      unfold on_connect in
      if_both NoFiles (is_busy d.state) h
        (run_connect-NoFiles race (set_state RsSessionState.connecting d) h)
  on_command-NoFiles Command.disconnect race d h = on_disconnect-NoFiles d h
  on_command-NoFiles Command.shutdown finishes d h = unfold on_shutdown disconnect in ground arith
  on_command-NoFiles Command.shutdown dropped d h = unfold on_shutdown in ground arith
  on_command-NoFiles (Command.send bytes) race d h = on_send-NoFiles race bytes d h
  on_command-NoFiles (Command.set_secret s) race d h = h
  on_command-NoFiles (Command.set_private_key k s) race d h = h
  on_command-NoFiles (Command.fs id op) race d h = on_fs-NoFiles race id op d h
  on_command-NoFiles (Command.exec id line t) race d h = on_exec-NoFiles race id line t d h

  on_input-NoFiles :
      (i : Input) (d : Driver MockProvider MockFs)
      → NoFiles d
      → NoFiles (on_input ssh mock_file_provider i d)
  unfolding on_input
  on_input-NoFiles (Input.command c race) d h = on_command-NoFiles c race d h
  on_input-NoFiles (Input.pushes ev) d h = h
  on_input-NoFiles Input.drain d h = unfold on_drain in deliver-NoFiles _ _ _ h
  on_input-NoFiles Input.register_file_emitter d h = h
  on_input-NoFiles Input.register_task_emitter d h = h

  run-NoFiles :
      (is : List Input) (d : Driver MockProvider MockFs)
      → NoFiles d
      → NoFiles (run ssh mock_file_provider is d)
  unfolding run step
  run-NoFiles [] d h = h
  run-NoFiles (i ∷ is) d h =
      run-NoFiles is (step ssh mock_file_provider i d)
        (if_both NoFiles d.running (on_input-NoFiles i d h) h)

  connect_disconnect : List Input
  connect_disconnect =
      Input.command Command.connect finishes ∷ Input.command Command.disconnect finishes ∷ []

  reconnect-files :
      (config : ConnectionConfig)
      → is_unreachable config.host ≡ false
      → NoFiles (run ssh mock_file_provider connect_disconnect (start (new_mock config)))
  unfolding connect_disconnect run start on_connect on_disconnect new_mock connect disconnect
      take_file_provider on_input on_command
  reconnect-files config h = ground arith

  -- After one connection and a disconnect, whatever follows, a new connection included, every file
  -- request over the mock is answered by `ProviderUnavailable`.
  pub no_files_after_reconnect :
      (config : ConnectionConfig) (is : List Input) (id : ℕ) (op : FsOp)
      → is_unreachable config.host ≡ false
      → (run_fs_op mock_file_provider
          (run ssh mock_file_provider
            (Input.command Command.connect finishes
              ∷ Input.command Command.disconnect finishes
              ∷ is)
            (start (new_mock config))).file_provider
          id
          op).0
        ≡ record {
          request_id = id;
          payload =
              FilePayload.error RsErrorCode.provider_unavailable (
                codes
                  "file transfer unavailable: SFTP subsystem is not available for this session");
        }
  unfolding run connect_disconnect
  no_files_after_reconnect config is id op h =
      rw
        (run-NoFiles is (run ssh mock_file_provider connect_disconnect (start (new_mock config)))
          (reconnect-files config h)).1
        (unfold run_fs_op in refl)
