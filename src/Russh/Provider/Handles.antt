-- ===== src/Russh/Provider/Handles.antt =====
-- providers/russh.rs with session.rs: the connection that the backend holds, and the state that the
-- session shows over it.
use research_ssh_next.Prelude.{
  ℕ, Text, Bytes, Bool, true, false, not, ◌&&◌, ◌≡◌, refl, List, [], ◌∷◌, ◌++◌, Option, none, some,
  is_some, ◌||◌, if_both, if◌then◌else◌, arith,
}
use research_ssh_next.Core.{error_message, CoreResult, done, fail}
use research_ssh_next.Event.{RsSessionState, SessionEvent, connecting, disconnected, failed}
use research_ssh_next.Fs.{FileProvider, FsOp}
use research_ssh_next.Provider.{ConnectionConfig, ProviderEvent, SshProvider}
use research_ssh_next.Russh.Keys.{Platform}
use research_ssh_next.Russh.Sftp.{Sftp}
use research_ssh_next.Russh.Network.{Network, Opened, open_connection}
use research_ssh_next.Russh.Provider.{
  RusshProvider, new_russh, keep_opened, connect, send, exec, disconnect, take_file_provider,
  set_secret, set_private_key, russh_provider,
}
use research_ssh_next.Session.Driver.{
  Command, Race, finishes, dropped, Driver, Input, start, is_connected, is_busy, collect_all,
  collect_provider_event, run_exec_op, set_state,
}
use research_ssh_next.Session.Handlers.{
  run, step, on_input, on_command, on_drain, on_connect, run_connect, connect_done, on_send,
  run_send, send_done, on_disconnect, on_shutdown, on_fs, on_exec, run_exec, deliver, emit_if_any,
  after_call, emit_file_result, emit_task_result,
}

module _ {N S C T F K : Type 0} (net : Network N S C T F K) (os : Platform)
    (files : FileProvider (Sftp F)) where
  -- The session, the writer and the reader task are held together.
  abbrev pub is_whole : RusshProvider N S C T F → Bool
  is_whole p =
      if is_some p.session
      then is_some p.writer && is_some p.read_task
      else not (is_some p.writer) && not (is_some p.read_task)

  -- A running session holds a whole connection or none, and one where it shows Connected.
  abbrev pub is_backed : Driver (RusshProvider N S C T F) (Sftp F) → Bool
  is_backed d =
      not d.running
      || (is_whole d.provider && (not (is_connected d.state) || is_some d.provider.session))

  abbrev ssh : SshProvider (RusshProvider N S C T F) (Sftp F)
  ssh = russh_provider net os

  abbrev Backed : Driver (RusshProvider N S C T F) (Sftp F) → Type 0
  Backed d = is_backed d ≡ true

  kept-Backed :
      (r : CoreResult (Opened S C T F) × N) (d : Driver (RusshProvider N S C T F) (Sftp F))
      → is_connected d.state ≡ false
      → Backed d
      → Backed (
          connect_done ssh files (keep_opened net os r d.provider).result (
            after_call ssh files
              (keep_opened net os r d.provider).provider
              (keep_opened net os r d.provider).pushed
              d))
  unfolding connect_done keep_opened after_call is_connected take_file_provider
  kept-Backed (done o, n) d c h = ground arith
  kept-Backed (fail e, n) d c h = ground arith

  run_connect-Backed :
      (race : Race) (d : Driver (RusshProvider N S C T F) (Sftp F))
      → is_connected d.state ≡ false
      → Backed d
      → Backed (run_connect ssh files race d)
  unfolding run_connect connect is_connected disconnect
  run_connect-Backed finishes d c h =
      let p = d.provider in
      kept-Backed (open_connection net os p.config p.key_path p.key_passphrase p.secret p.network) d
        c h
  run_connect-Backed dropped d c h = ground arith

  is_connecting-Backed :
      (d : Driver (RusshProvider N S C T F) (Sftp F)) → Backed d → Backed (set_state connecting d)
  unfolding set_state is_connected
  is_connecting-Backed d h = ground arith

  on_connect-Backed :
      (race : Race) (d : Driver (RusshProvider N S C T F) (Sftp F))
      → Backed d
      → Backed (on_connect ssh files race d)
  unfolding on_connect
  on_connect-Backed race d h = if_both Backed (is_busy d.state) h (
      run_connect-Backed race (set_state connecting d) (unfold set_state is_connected in refl)
        (is_connecting-Backed d h))

  on_send-Backed :
      (race : Race) (bytes : Bytes) (d : Driver (RusshProvider N S C T F) (Sftp F))
      → Backed d
      → Backed (on_send ssh files race bytes d)
  unfolding on_send run_send send send_done
  on_send-Backed finishes bytes d h = ground arith
  on_send-Backed dropped bytes d h = ground arith

  on_disconnect-Backed :
      (d : Driver (RusshProvider N S C T F) (Sftp F))
      → Backed d
      → Backed (on_disconnect ssh files d)
  unfolding on_disconnect disconnect is_connected
  on_disconnect-Backed d h = ground arith

  on_shutdown-Backed :
      (race : Race) (d : Driver (RusshProvider N S C T F) (Sftp F))
      → Backed (on_shutdown ssh files race d)
  unfolding on_shutdown
  on_shutdown-Backed race d = ground arith

  on_fs-Backed :
      (race : Race) (id : ℕ) (op : FsOp) (d : Driver (RusshProvider N S C T F) (Sftp F))
      → Backed d
      → Backed (on_fs ssh files race id op d)
  unfolding on_fs emit_file_result
  on_fs-Backed finishes id op d h = ground arith
  on_fs-Backed dropped id op d h = ground arith

  on_exec-Backed :
      (race : Race) (id : ℕ) (line : Text) (t : ℕ) (d : Driver (RusshProvider N S C T F) (Sftp F))
      → Backed d
      → Backed (on_exec ssh files race id line t d)
  unfolding on_exec run_exec run_exec_op exec emit_task_result
  on_exec-Backed finishes id line t d h = ground arith
  on_exec-Backed dropped id line t d h = ground arith

  -- Only an ending is ever collected.
  abbrev IsEnding : Option RsSessionState → Type 0
  IsEnding none = Unit {0}
  IsEnding (some s) = is_connected s ≡ false

  collect_all-IsEnding :
      (evs : List ProviderEvent) (acc : List SessionEvent × Option RsSessionState)
      → IsEnding acc.1
      → IsEnding (collect_all evs acc).1
  unfolding collect_all collect_provider_event is_connected
  collect_all-IsEnding [] acc h = h
  collect_all-IsEnding (ProviderEvent.terminal_data bytes ∷ evs) acc h =
      collect_all-IsEnding evs _ h
  collect_all-IsEnding (ProviderEvent.disconnected reason ∷ evs) acc h =
      collect_all-IsEnding evs (acc.0, some disconnected) refl
  collect_all-IsEnding (ProviderEvent.error e ∷ evs) acc h =
      collect_all-IsEnding evs
        (acc.0 ++ SessionEvent.error e.code (error_message e) ∷ [], some failed) refl

  emit_if_any-Backed :
      (es : List SessionEvent) (d : Driver (RusshProvider N S C T F) (Sftp F))
      → Backed d
      → Backed (emit_if_any ssh files es d)
  unfolding emit_if_any
  emit_if_any-Backed [] d h = h
  emit_if_any-Backed (e ∷ es) d h = h

  is_ended-Backed :
      (s : RsSessionState) (d : Driver (RusshProvider N S C T F) (Sftp F))
      → is_connected s ≡ false
      → Backed d
      → Backed (record d { state = s })
  is_ended-Backed s d c h = ground arith

  deliver-Backed :
      (batch : List SessionEvent) (t : Option RsSessionState)
      (d : Driver (RusshProvider N S C T F) (Sftp F))
      → IsEnding t
      → Backed d
      → Backed (deliver ssh files batch t d)
  unfolding deliver
  deliver-Backed batch none d c h = emit_if_any-Backed batch d h
  deliver-Backed batch (some s) d c h =
      emit_if_any-Backed _ (record d { state = s }) (is_ended-Backed s d c h)

  on_command-Backed :
      (c : Command) (race : Race) (d : Driver (RusshProvider N S C T F) (Sftp F))
      → Backed d
      → Backed (on_command ssh files c race d)
  unfolding on_command set_secret set_private_key
  on_command-Backed Command.connect race d h = on_connect-Backed race d h
  on_command-Backed Command.disconnect race d h = on_disconnect-Backed d h
  on_command-Backed Command.shutdown race d h = on_shutdown-Backed race d
  on_command-Backed (Command.send bytes) race d h = on_send-Backed race bytes d h
  on_command-Backed (Command.set_secret s) race d h = h
  on_command-Backed (Command.set_private_key k s) race d h = h
  on_command-Backed (Command.fs id op) race d h = on_fs-Backed race id op d h
  on_command-Backed (Command.exec id line t) race d h = on_exec-Backed race id line t d h

  on_input-Backed :
      (i : Input) (d : Driver (RusshProvider N S C T F) (Sftp F))
      → Backed d
      → Backed (on_input ssh files i d)
  unfolding on_input on_drain
  on_input-Backed (Input.command c race) d h = on_command-Backed c race d h
  on_input-Backed (Input.pushes ev) d h = h
  on_input-Backed Input.drain d h =
      deliver-Backed _ _ (record d { queue = [] }) (collect_all-IsEnding d.queue ([], none) tt) h
  on_input-Backed Input.register_file_emitter d h = h
  on_input-Backed Input.register_task_emitter d h = h

  run-Backed :
      (is : List Input) (d : Driver (RusshProvider N S C T F) (Sftp F))
      → Backed d
      → Backed (run ssh files is d)
  unfolding run step
  run-Backed [] d h = h
  run-Backed (i ∷ is) d h =
      run-Backed is (step ssh files i d) (if_both Backed d.running (on_input-Backed i d h) h)

  -- After any inputs from the start, a session that has not been shut down holds the SSH session,
  -- the shell's writer and its reader task together or none of them, and holds them where it shows
  -- Connected.
  pub run-new_russh :
      (n : N) (config : ConnectionConfig) (is : List Input)
      → is_backed (run (russh_provider net os) files is (start (new_russh net os n config))) ≡ true
  unfolding start new_russh is_connected
  run-new_russh n config is = run-Backed is (start (new_russh net os n config)) refl
