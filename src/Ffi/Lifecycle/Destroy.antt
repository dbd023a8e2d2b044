-- ===== src/Ffi/Lifecycle/Destroy.antt =====
-- ffi.rs: what the destruction of a session leaves behind.
use research_ssh_next.Prelude.{◌≡◌, refl, List, [], Option, none, some}
use mathlib.Core.Option
use research_ssh_next.Event.{SessionEvent, ExecResult}
use research_ssh_next.Fs.{FileResult}
use research_ssh_next.Session.Driver.{Command}
use research_ssh_next.Session.Handle.{send_cmd}
use research_ssh_next.Ffi.Events.{RsEvent, Emitter, new_emitter, deactivate, emit_batch}
use research_ssh_next.Ffi.Files.{RsFsResult, emit_file_results}
use research_ssh_next.Ffi.Tasks.{RsExecResult, emit_task_results}
use research_ssh_next.Ffi.Teardown.{emit-deactivate}
use research_ssh_next.Ffi.Lifecycle.{
  RsSession, Sinks, join_driver, shutdown_and_join, session_destroy,
}

-- A slot whose emitter never calls back, whatever it is given, and never panics.
abbrev pub IsMute :
    {E R : Type 0} → (List R → Emitter E → Option (Emitter E)) → Option (Emitter E) → Type 0
IsMute emit none = Unit {0}
IsMute {R = R} emit (some em) = (rs : List R) → emit rs em ≡ some em

-- So are all three.
abbrev pub IsSilent : Sinks → Type 0
IsSilent sinks =
    ((es : List SessionEvent) → emit_batch es sinks.emitter ≡ some sinks.emitter)
    × IsMute emit_file_results sinks.file_emitter
    × IsMute emit_task_results sinks.task_emitter

deactivate-IsMute :
    {E R : Type 0} (emit : List R → Emitter E → Option (Emitter E))
    → ((rs : List R) (em : Emitter E) → emit rs (deactivate em) ≡ some (deactivate em))
    → (o : Option (Emitter E)) → IsMute emit (Option.map deactivate o)
deactivate-IsMute emit h none = tt
deactivate-IsMute emit h (some em) = λ rs. h rs em

events_mute :
    (es : List SessionEvent) (em : Emitter RsEvent)
    → emit_batch es (deactivate em) ≡ some (deactivate em)
events_mute es em = (emit-deactivate es [] [] em new_emitter new_emitter).0

files_mute :
    (rs : List FileResult) (em : Emitter RsFsResult)
    → emit_file_results rs (deactivate em) ≡ some (deactivate em)
files_mute rs em = (emit-deactivate [] rs [] new_emitter em new_emitter).1

tasks_mute :
    (rs : List ExecResult) (em : Emitter RsExecResult)
    → emit_task_results rs (deactivate em) ≡ some (deactivate em)
tasks_mute rs em = (emit-deactivate [] [] rs new_emitter new_emitter em).2

module _ (await : RsSession → RsSession) where
  silent : (s : RsSession) → IsSilent (shutdown_and_join await s).1
  unfolding shutdown_and_join
  silent s =
      let s1 = join_driver await (record s { session = (send_cmd Command.shutdown s.session).1 }) in
      (
        λ es. events_mute es s1.emitter,
        deactivate-IsMute emit_file_results files_mute s1.file_emitter,
        deactivate-IsMute emit_task_results tasks_mute s1.task_emitter,
      )

  -- Destroying a session leaves emitters that never call back again, whatever the driver did until it
  -- ended or the wait for it was over, and whatever it still does.
  pub session_destroy-IsSilent :
      (s : RsSession)
      → (sinks : Sinks) × (session_destroy await (some s) ≡ some sinks) × IsSilent sinks
  unfolding session_destroy
  session_destroy-IsSilent s = ((shutdown_and_join await s).1, refl, silent s)
