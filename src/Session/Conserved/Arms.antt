-- ===== src/Session/Conserved/Arms.antt =====
-- session.rs: each arm of the loop of `drive` keeps the terminal bytes that were there.
use research_ssh_next.Prelude.{
  Text, Bytes, Bool, true, false, not, refl, sym, ap, ◌∙◌, append-nil, List, [], ◌∷◌, ◌++◌, none,
  if◌then◌else◌, if_both, ℕ, arith,
}
use research_ssh_next.Core.{RsErrorCode, CoreResult, done, fail}
use research_ssh_next.Event.{connecting, connected, disconnecting, disconnected, failed}
use research_ssh_next.Fs.{FileProvider, FsOp}
use research_ssh_next.Provider.{ProviderEvent, SshProvider}
use research_ssh_next.Session.Driver.{
  Command, Race, finishes, dropped, Driver, Input, is_connected, is_busy, set_state,
  emit_core_error,
}
use research_ssh_next.Session.Handlers.{
  after_call, take_files, connect_done, run_connect, on_connect, send_done, run_send, on_send,
  on_disconnect, on_shutdown, emit_file_result, emit_task_result, on_fs, run_exec, on_exec,
}
use research_ssh_next.Session.Conserved.{
  HasBytes, same-HasBytes, set_state-HasBytes, emit_error-HasBytes, emit_core_error-HasBytes,
}

module _ {P S : Type 0} (ssh : SshProvider P S) (files : FileProvider S) where
  -- What the call of an arm pushes, were the arm to make it.
  unfoldable pub connect_pushed : Race → P → List ProviderEvent
  connect_pushed finishes p = (ssh.connect p).pushed
  connect_pushed dropped p = (ssh.connect_dropped p).pushed

  unfoldable pub send_pushed : Race → Bytes → P → List ProviderEvent
  send_pushed finishes bytes p = (ssh.send bytes p).pushed
  send_pushed dropped bytes p = (ssh.send_dropped bytes p).pushed

  -- What an input adds to the event queue.
  unfoldable pub pushed_by : Input → Driver P S → List ProviderEvent
  unfolding connect_pushed send_pushed is_busy is_connected
  pushed_by (Input.command Command.connect race) d =
      if is_busy d.state then [] else connect_pushed race d.provider
  pushed_by (Input.command (Command.send bytes) race) d =
      if not (is_connected d.state) then [] else send_pushed race bytes d.provider
  pushed_by (Input.pushes ev) d = ev ∷ []
  pushed_by i d = []

  after_call-HasBytes :
      {out : Bytes} {q : List ProviderEvent} (p : P) (evs : List ProviderEvent) (d : Driver P S)
      → HasBytes out q d
      → HasBytes out (q ++ evs) (after_call ssh files p evs d)
  unfolding after_call
  after_call-HasBytes p evs d h = record {
    out_same = h.out_same;
    queue_same = ap (λ q. q ++ evs) h.queue_same;
  }

  take_files-HasBytes :
      {out : Bytes} {q : List ProviderEvent} (d : Driver P S)
      → HasBytes out q d
      → HasBytes out q (take_files ssh files d)
  unfolding take_files
  take_files-HasBytes d h = same-HasBytes d (take_files ssh files d) refl refl h

  connect_done-HasBytes :
      {out : Bytes} {q : List ProviderEvent} (r : CoreResult (Unit {0})) (d : Driver P S)
      → HasBytes out q d
      → HasBytes out q (connect_done ssh files r d)
  unfolding connect_done take_files
  connect_done-HasBytes (done _) d h =
      set_state-HasBytes connected (take_files ssh files d) (take_files-HasBytes d h)
  connect_done-HasBytes (fail e) d h =
      set_state-HasBytes failed (emit_core_error e d) (emit_core_error-HasBytes e d h)

  run_connect-HasBytes :
      {out : Bytes} {q : List ProviderEvent} (race : Race) (d : Driver P S)
      → HasBytes out q d
      → HasBytes out (q ++ connect_pushed race d.provider) (run_connect ssh files race d)
  unfolding run_connect connect_pushed
  run_connect-HasBytes finishes d h =
      let c = ssh.connect d.provider in
      connect_done-HasBytes c.result (after_call ssh files c.provider c.pushed d)
        (after_call-HasBytes c.provider c.pushed d h)
  run_connect-HasBytes dropped d h =
      let c = ssh.connect_dropped d.provider in
      let left = after_call ssh files (ssh.disconnect c.provider) c.pushed d in
      set_state-HasBytes disconnected _ (
        emit_error-HasBytes RsErrorCode.cancelled _ left
          (after_call-HasBytes (ssh.disconnect c.provider) c.pushed d h))

  pub quiet-HasBytes :
      {out : Bytes} {q : List ProviderEvent} (d : Driver P S)
      → HasBytes out q d
      → HasBytes out (q ++ []) d
  quiet-HasBytes {q = q} d h = record {
    out_same = h.out_same;
    queue_same = h.queue_same ∙ sym (append-nil q);
  }

  branch-HasBytes :
      {out : Bytes} (q : List ProviderEvent) (b : Bool) (x y : Driver P S)
      (evs more : List ProviderEvent)
      → HasBytes out (q ++ evs) x
      → HasBytes out (q ++ more) y
      → HasBytes out (q ++ (if b then evs else more)) (if b then x else y)
  branch-HasBytes q true x y evs more h k = h
  branch-HasBytes q false x y evs more h k = k

  pub on_connect-HasBytes :
      {out : Bytes} {q : List ProviderEvent} (race : Race) (d : Driver P S)
      → HasBytes out q d
      → HasBytes out
          (q ++ pushed_by (Input.command Command.connect race) d)
          (on_connect ssh files race d)
  unfolding on_connect pushed_by set_state
  on_connect-HasBytes {q = q} race d h =
      branch-HasBytes q (is_busy d.state) _ _ [] (connect_pushed race d.provider)
        (quiet-HasBytes _ (emit_error-HasBytes RsErrorCode.invalid_state _ d h))
        (run_connect-HasBytes race (set_state connecting d) (set_state-HasBytes connecting d h))

  send_done-HasBytes :
      {out : Bytes} {q : List ProviderEvent} (r : CoreResult (Unit {0})) (d : Driver P S)
      → HasBytes out q d
      → HasBytes out q (send_done ssh files r d)
  unfolding send_done
  send_done-HasBytes (done _) d h = h
  send_done-HasBytes (fail e) d h = emit_core_error-HasBytes e d h

  run_send-HasBytes :
      {out : Bytes} {q : List ProviderEvent} (race : Race) (bytes : Bytes) (d : Driver P S)
      → HasBytes out q d
      → HasBytes out (q ++ send_pushed race bytes d.provider) (run_send ssh files race bytes d)
  unfolding run_send send_pushed
  run_send-HasBytes finishes bytes d h =
      let c = ssh.send bytes d.provider in
      send_done-HasBytes c.result (after_call ssh files c.provider c.pushed d)
        (after_call-HasBytes c.provider c.pushed d h)
  run_send-HasBytes dropped bytes d h =
      let c = ssh.send_dropped bytes d.provider in
      emit_error-HasBytes RsErrorCode.cancelled _ (after_call ssh files c.provider c.pushed d)
        (after_call-HasBytes c.provider c.pushed d h)

  pub on_send-HasBytes :
      {out : Bytes} {q : List ProviderEvent} (race : Race) (bytes : Bytes) (d : Driver P S)
      → HasBytes out q d
      → HasBytes out
          (q ++ pushed_by (Input.command (Command.send bytes) race) d)
          (on_send ssh files race bytes d)
  unfolding on_send pushed_by
  on_send-HasBytes {q = q} race bytes d h =
      branch-HasBytes q (not (is_connected d.state)) _ _ [] (send_pushed race bytes d.provider)
        (quiet-HasBytes _ (emit_error-HasBytes RsErrorCode.not_connected _ d h))
        (run_send-HasBytes race bytes d h)

  pub on_disconnect-HasBytes :
      {out : Bytes} {q : List ProviderEvent} (d : Driver P S)
      → HasBytes out q d
      → HasBytes out q (on_disconnect ssh files d)
  unfolding on_disconnect
  on_disconnect-HasBytes {out = out} {q = q} d h =
      let d' = set_state disconnecting d in
      let left = record d' { file_provider = none; provider = ssh.disconnect d'.provider } in
      if_both (HasBytes out q) (not (is_busy d.state)) h (
        set_state-HasBytes disconnected left
          (same-HasBytes d' left refl refl (set_state-HasBytes disconnecting d h)))

  pub on_shutdown-HasBytes :
      {out : Bytes} {q : List ProviderEvent} (race : Race) (d : Driver P S)
      → HasBytes out q d
      → HasBytes out q (on_shutdown ssh files race d)
  unfolding on_shutdown
  on_shutdown-HasBytes race d h =
      same-HasBytes d (on_shutdown ssh files race d) (ground arith) (ground arith) h

  pub on_fs-HasBytes :
      {out : Bytes} {q : List ProviderEvent} (race : Race) (id : ℕ) (op : FsOp) (d : Driver P S)
      → HasBytes out q d
      → HasBytes out q (on_fs ssh files race id op d)
  unfolding on_fs emit_file_result
  on_fs-HasBytes finishes id op d h =
      same-HasBytes d (on_fs ssh files finishes id op d) (ground arith) (ground arith) h
  on_fs-HasBytes dropped id op d h =
      same-HasBytes d (on_fs ssh files dropped id op d) (ground arith) (ground arith) h

  run_exec-HasBytes :
      {out : Bytes} {q : List ProviderEvent} (race : Race) (id : ℕ) (line : Text) (t : ℕ)
      (d : Driver P S)
      → HasBytes out q d
      → HasBytes out q (run_exec ssh files race id line t d)
  unfolding run_exec emit_task_result
  run_exec-HasBytes finishes id line t d h =
      same-HasBytes d (run_exec ssh files finishes id line t d) (ground arith) (ground arith) h
  run_exec-HasBytes dropped id line t d h =
      same-HasBytes d (run_exec ssh files dropped id line t d) (ground arith) (ground arith) h

  pub on_exec-HasBytes :
      {out : Bytes} {q : List ProviderEvent} (race : Race) (id : ℕ) (line : Text) (t : ℕ)
      (d : Driver P S)
      → HasBytes out q d
      → HasBytes out q (on_exec ssh files race id line t d)
  unfolding on_exec emit_task_result
  on_exec-HasBytes {out = out} {q = q} race id line t d h =
      if_both (HasBytes out q) (not (is_connected d.state))
        (same-HasBytes d _ (ground arith) (ground arith) h) (run_exec-HasBytes race id line t d h)
