-- ===== src/Session/Answers/Keeps.antt =====
-- What each arm of the driver's loop does to the answers.
use research_ssh_next.Prelude.{
  ℕ, Text, Bytes, codes, Bool, false, ◌≡◌, refl, List, [], ◌∷◌, ◌++◌, map, if◌then◌else◌, Option,
  none, some, arith, inl, inr, Bool-cases,
}
use mathlib.Core.List.{map-append}
use mathlib.Core.Option
use research_ssh_next.Core.{RsErrorCode, CoreResult, done, fail}
use research_ssh_next.Event.{RsSessionState, SessionEvent, ExecPayload, ExecResult}
use research_ssh_next.Fs.{FilePayload, FileResult, FileProvider, FsOp}
use research_ssh_next.Provider.{SshProvider}
use research_ssh_next.Session.Driver.{
  Race, Driver, finishes, dropped, set_state, is_busy, is_connected, run_fs_op, run_exec_op,
}
use research_ssh_next.Session.Handlers.{
  connect_done, run_connect, send_done, run_send, on_connect, on_send, on_disconnect, on_shutdown,
  on_fs, on_exec, run_exec, emit_file_result, emit_task_result, deliver, on_drain,
}

-- Who is answered: the registered emitters, and the ids of the answers so far, in order.
pub record View : Type 0 where
  pub has_file_emitter : Bool
  pub has_task_emitter : Bool
  pub running : Bool
  pub file_ids : List ℕ
  pub task_ids : List ℕ

abbrev file_id : FileResult → ℕ
file_id r = r.request_id

abbrev task_id : ExecResult → ℕ
task_id r = r.request_id

abbrev pub view : {P S : Type 0} → Driver P S → View
view d = record {
  has_file_emitter = d.has_file_emitter;
  has_task_emitter = d.has_task_emitter;
  running = d.running;
  file_ids = map (λ r. r.request_id) d.file_results;
  task_ids = map (λ r. r.request_id) d.task_results;
}

module _ {P S : Type 0} (ssh : SshProvider P S) (files : FileProvider S) where
  connect_done-view :
      (r : CoreResult (Unit {0})) (d : Driver P S) → view (connect_done ssh files r d) ≡ view d
  unfolding connect_done
  connect_done-view (done _) d = refl
  connect_done-view (fail e) d = refl

  run_connect-view : (race : Race) (d : Driver P S) → view (run_connect ssh files race d) ≡ view d
  unfolding run_connect
  run_connect-view finishes d = connect_done-view _ _
  run_connect-view dropped d = refl

  pub on_connect-view : (race : Race) (d : Driver P S) → view (on_connect ssh files race d) ≡ view d
  unfolding on_connect
  on_connect-view race d = elim (Bool-cases (is_busy d.state)) [
    | inl busy ↦ rw busy refl
    | inr free ↦ rw free (run_connect-view race (set_state RsSessionState.connecting d))
  ]

  send_done-view :
      (r : CoreResult (Unit {0})) (d : Driver P S) → view (send_done ssh files r d) ≡ view d
  unfolding send_done
  send_done-view (done _) d = refl
  send_done-view (fail e) d = refl

  run_send-view :
      (race : Race) (bytes : Bytes) (d : Driver P S)
      → view (run_send ssh files race bytes d) ≡ view d
  unfolding run_send
  run_send-view finishes bytes d = send_done-view _ _
  run_send-view dropped bytes d = refl

  pub on_send-view :
      (race : Race) (bytes : Bytes) (d : Driver P S)
      → view (on_send ssh files race bytes d) ≡ view d
  unfolding on_send
  on_send-view race bytes d = elim (Bool-cases (is_connected d.state)) [
    | inl there ↦ rw there (run_send-view race bytes d)
    | inr gone ↦ rw gone refl
  ]

  pub on_disconnect-view : (d : Driver P S) → view (on_disconnect ssh files d) ≡ view d
  unfolding on_disconnect
  on_disconnect-view d = elim (Bool-cases (is_busy d.state)) [
    | inl busy ↦ rw busy refl
    | inr free ↦ rw free refl
  ]

  pub on_shutdown-view :
      (race : Race) (d : Driver P S)
      → view (on_shutdown ssh files race d) ≡ record (view d) { running = false }
  unfolding on_shutdown
  on_shutdown-view race d = elim (Bool-cases (is_busy d.state)) [
    | inl busy ↦ rw busy refl
    | inr free ↦ rw free refl
  ]

  deliver-view :
      (batch : List SessionEvent) (t : Option RsSessionState) (d : Driver P S)
      → view (deliver ssh files batch t d) ≡ view d
  unfolding deliver
  deliver-view [] none d = refl
  deliver-view (e ∷ es) none d = refl
  deliver-view [] (some s) d = refl
  deliver-view (e ∷ es) (some s) d = refl

  pub on_drain-view : (d : Driver P S) → view (on_drain ssh files d) ≡ view d
  unfolding on_drain
  on_drain-view d = deliver-view _ _ _

  emit_file_result-view :
      (r : FileResult) (d : Driver P S)
      → view (emit_file_result ssh files r d) ≡ (
          if d.has_file_emitter
          then record (view d) {
            file_ids = map (λ x. x.request_id) d.file_results ++ r.request_id ∷ [];
          }
          else view d)
  unfolding emit_file_result
  emit_file_result-view r d =
      ground (arith, map-append (λ (x : FileResult). x.request_id) d.file_results (r ∷ []))

  emit_task_result-view :
      (r : ExecResult) (d : Driver P S)
      → view (emit_task_result ssh files r d) ≡ (
          if d.has_task_emitter
          then record (view d) {
            task_ids = map (λ x. x.request_id) d.task_results ++ r.request_id ∷ [];
          }
          else view d)
  unfolding emit_task_result
  emit_task_result-view r d =
      ground (arith, map-append (λ (x : ExecResult). x.request_id) d.task_results (r ∷ []))

  -- The answer to a request carries its id.
  request_id-run_fs_op :
      (f : Option S) (id : ℕ) (op : FsOp) → (run_fs_op files f id op).0.request_id ≡ id
  unfolding run_fs_op
  request_id-run_fs_op none id op = refl
  request_id-run_fs_op (some s) id op = refl

  pub on_fs-view :
      (race : Race) (id : ℕ) (op : FsOp) (d : Driver P S)
      → view (on_fs ssh files race id op d) ≡ (
          if d.has_file_emitter
          then record (view d) { file_ids = map (λ x. x.request_id) d.file_results ++ id ∷ [] }
          else view d)
  unfolding on_fs
  on_fs-view finishes id op d = cc (
    emit_file_result-view _
        (record d { file_provider = (run_fs_op files d.file_provider id op).1 }),
    request_id-run_fs_op d.file_provider id op,
  )
  on_fs-view dropped id op d =
      emit_file_result-view
        (record {
          request_id = id;
          payload = FilePayload.error RsErrorCode.cancelled (codes "file operation cancelled");
        })
        (record d { file_provider = Option.map (files.dropped op) d.file_provider })

  run_exec-view :
      (race : Race) (id : ℕ) (line : Text) (timeout_ms : ℕ) (d : Driver P S)
      → view (run_exec ssh files race id line timeout_ms d) ≡ (
          if d.has_task_emitter
          then record (view d) { task_ids = map (λ x. x.request_id) d.task_results ++ id ∷ [] }
          else view d)
  unfolding run_exec
  run_exec-view finishes id line timeout_ms d =
      let (r, p) = run_exec_op ssh d.provider id line timeout_ms in
      emit_task_result-view r (record d { provider = p })
  run_exec-view dropped id line timeout_ms d =
      emit_task_result-view
        (record {
          request_id = id;
          payload = ExecPayload.error RsErrorCode.cancelled (codes "command cancelled");
        })
        (record d { provider = ssh.exec_dropped line timeout_ms d.provider })

  pub on_exec-view :
      (race : Race) (id : ℕ) (line : Text) (timeout_ms : ℕ) (d : Driver P S)
      → view (on_exec ssh files race id line timeout_ms d) ≡ (
          if d.has_task_emitter
          then record (view d) { task_ids = map (λ x. x.request_id) d.task_results ++ id ∷ [] }
          else view d)
  unfolding on_exec
  on_exec-view race id line timeout_ms d = elim (Bool-cases (is_connected d.state)) [
    | inl there ↦ rw there (run_exec-view race id line timeout_ms d)
    | inr gone ↦ rw gone (emit_task_result-view _ d)
  ]
