-- ===== src/Session/Handlers.antt =====
-- session.rs: the arms of the loop of `drive`, one function for each command.
use research_ssh_next.Prelude.{
  ℕ, Text, Bytes, true, false, not, List, [], ◌∷◌, ◌++◌, Option, none, some, codes, if◌then◌else◌,
}
use mathlib.Core.Option
use research_ssh_next.Core.{RsErrorCode, CoreResult, done, fail}
use research_ssh_next.Event.{RsSessionState, SessionEvent, ExecPayload, ExecResult}
use research_ssh_next.Event.{connecting, connected, disconnecting, disconnected, failed}
use research_ssh_next.Fs.{FilePayload, FileResult, FileProvider, FsOp}
use research_ssh_next.Provider.{ProviderEvent, SshProvider}
use research_ssh_next.Session.Driver.{
  Command, Race, finishes, dropped, Driver, Input, is_connected, is_busy, emit_batch, set_state,
  emit_error, emit_core_error, collect_all, run_fs_op, run_exec_op,
}

module _ {P S : Type 0} (ssh : SshProvider P S) (files : FileProvider S) where
  -- What a call to the provider leaves behind.
  unfoldable pub after_call : P → List ProviderEvent → Driver P S → Driver P S
  after_call p pushed d = record d { provider = p; queue = d.queue ++ pushed }

  unfoldable pub take_files : Driver P S → Driver P S
  take_files d =
      let (f, p) = ssh.take_file_provider d.provider in record d { provider = p; file_provider = f }

  unfoldable pub connect_done : CoreResult (Unit {0}) → Driver P S → Driver P S
  unfolding set_state emit_core_error take_files
  connect_done (done _) d = set_state connected (take_files d)
  connect_done (fail e) d = set_state failed (emit_core_error e d)

  unfoldable pub run_connect : Race → Driver P S → Driver P S
  unfolding set_state emit_error connect_done after_call
  run_connect finishes d =
      let c = ssh.connect d.provider in connect_done c.result (after_call c.provider c.pushed d)
  run_connect dropped d =
      let c = ssh.connect_dropped d.provider in
      set_state disconnected (
        emit_error RsErrorCode.cancelled (codes "connection cancelled")
          (after_call (ssh.disconnect c.provider) c.pushed d))

  unfoldable pub on_connect : Race → Driver P S → Driver P S
  unfolding run_connect is_busy
  on_connect race d =
      if is_busy d.state
      then emit_error RsErrorCode.invalid_state (codes "already connecting or connected") d
      else run_connect race (set_state connecting d)

  unfoldable pub send_done : CoreResult (Unit {0}) → Driver P S → Driver P S
  unfolding emit_core_error
  send_done (done _) d = d
  send_done (fail e) d = emit_core_error e d

  unfoldable pub run_send : Race → Bytes → Driver P S → Driver P S
  unfolding send_done emit_error after_call
  run_send finishes bytes d =
      let c = ssh.send bytes d.provider in send_done c.result (after_call c.provider c.pushed d)
  run_send dropped bytes d =
      let c = ssh.send_dropped bytes d.provider in
      emit_error RsErrorCode.cancelled (codes "send cancelled") (after_call c.provider c.pushed d)

  unfoldable pub on_send : Race → Bytes → Driver P S → Driver P S
  unfolding run_send is_connected
  on_send race bytes d =
      if not (is_connected d.state)
      then emit_error RsErrorCode.not_connected (codes "cannot send while not connected") d
      else run_send race bytes d

  unfoldable pub on_disconnect : Driver P S → Driver P S
  unfolding is_busy set_state
  on_disconnect d =
      if not (is_busy d.state)
      then d
      else (let d' = set_state disconnecting d in
          set_state disconnected
            (record d' { file_provider = none; provider = ssh.disconnect d'.provider }))

  -- The disconnect of a shutdown has two seconds; `dropped` is the timeout.
  unfoldable pub on_shutdown : Race → Driver P S → Driver P S
  unfolding is_busy
  on_shutdown race d =
      if is_busy d.state
      then record d {
        provider = elim race [
          | finishes ↦ ssh.disconnect d.provider
          | dropped ↦ ssh.disconnect_dropped d.provider
        ];
        running = false;
      }
      else record d { running = false }

  unfoldable pub emit_file_result : FileResult → Driver P S → Driver P S
  emit_file_result r d =
      if d.has_file_emitter then record d { file_results = d.file_results ++ r ∷ [] } else d

  unfoldable pub emit_task_result : ExecResult → Driver P S → Driver P S
  emit_task_result r d =
      if d.has_task_emitter then record d { task_results = d.task_results ++ r ∷ [] } else d

  unfoldable pub on_fs : Race → ℕ → FsOp → Driver P S → Driver P S
  unfolding emit_file_result run_fs_op
  on_fs finishes id op d =
      let (r, f) = run_fs_op files d.file_provider id op in
      emit_file_result r (record d { file_provider = f })
  on_fs dropped id op d =
      emit_file_result
        (record {
          request_id = id;
          payload = FilePayload.error RsErrorCode.cancelled (codes "file operation cancelled");
        })
        (record d { file_provider = Option.map (files.dropped op) d.file_provider })

  unfoldable pub exec_error : ℕ → RsErrorCode → Text → ExecResult
  exec_error id code message = record { request_id = id; payload = ExecPayload.error code message }

  unfoldable pub run_exec : Race → ℕ → Text → ℕ → Driver P S → Driver P S
  unfolding emit_task_result run_exec_op exec_error
  run_exec finishes id line timeout_ms d =
      let (r, p) = run_exec_op ssh d.provider id line timeout_ms in
      emit_task_result r (record d { provider = p })
  run_exec dropped id line timeout_ms d =
      emit_task_result (exec_error id RsErrorCode.cancelled (codes "command cancelled"))
        (record d { provider = ssh.exec_dropped line timeout_ms d.provider })

  unfoldable pub on_exec : Race → ℕ → Text → ℕ → Driver P S → Driver P S
  unfolding run_exec is_connected
  on_exec race id line timeout_ms d =
      if not (is_connected d.state)
      then emit_task_result
          (exec_error id RsErrorCode.not_connected (codes "cannot execute while not connected")) d
      else run_exec race id line timeout_ms d

  -- The arm of the event queue: all that is there, as one batch.
  unfoldable pub emit_if_any : List SessionEvent → Driver P S → Driver P S
  emit_if_any [] d = d
  emit_if_any (e ∷ es) d = emit_batch (e ∷ es) d

  unfoldable pub deliver : List SessionEvent → Option RsSessionState → Driver P S → Driver P S
  unfolding emit_if_any
  deliver batch none d = emit_if_any batch d
  deliver batch (some s) d =
      emit_if_any (batch ++ SessionEvent.state_changed s ∷ []) (record d { state = s })

  unfoldable pub on_drain : Driver P S → Driver P S
  unfolding collect_all deliver
  on_drain d =
      let (batch, transition) = collect_all d.queue ([], none) in
      deliver batch transition (record d { queue = [] })

  unfoldable pub on_command : Command → Race → Driver P S → Driver P S
  unfolding on_connect on_send on_disconnect on_shutdown on_fs on_exec
  on_command Command.connect race d = on_connect race d
  on_command (Command.send bytes) race d = on_send race bytes d
  on_command Command.disconnect race d = on_disconnect d
  on_command (Command.set_secret secret) race d = record d {
    provider = ssh.set_secret secret d.provider;
  }
  on_command (Command.set_private_key key_path passphrase) race d = record d {
    provider = ssh.set_private_key key_path passphrase d.provider;
  }
  on_command (Command.fs id op) race d = on_fs race id op d
  on_command (Command.exec id line timeout_ms) race d = on_exec race id line timeout_ms d
  on_command Command.shutdown race d = on_shutdown race d

  -- The two slots, filled.
  unfoldable pub set_file_emitter : Driver P S → Driver P S
  set_file_emitter d = record d { has_file_emitter = true }

  unfoldable pub set_task_emitter : Driver P S → Driver P S
  set_task_emitter d = record d { has_task_emitter = true }

  unfoldable pub on_input : Input → Driver P S → Driver P S
  unfolding on_command on_drain set_file_emitter set_task_emitter
  on_input (Input.command c race) d = on_command c race d
  on_input (Input.pushes ev) d = record d { queue = d.queue ++ ev ∷ [] }
  on_input Input.drain d = on_drain d
  on_input Input.register_file_emitter d = set_file_emitter d
  on_input Input.register_task_emitter d = set_task_emitter d

  -- One turn of the loop; after `break` the driver does nothing more.
  unfoldable pub step : Input → Driver P S → Driver P S
  unfolding on_input
  step i d = if d.running then on_input i d else d

  unfoldable pub run : List Input → Driver P S → Driver P S
  unfolding step
  run [] d = d
  run (i ∷ is) d = run is (step i d)
