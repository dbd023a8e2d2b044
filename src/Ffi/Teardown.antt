-- ===== src/Ffi/Teardown.antt =====
-- ffi.rs: the gate of the emitters, and the table of messages.
use research_ssh_next.Prelude.{Text, List, [], ◌∷◌, some, ◌≡◌, refl, codes}
use research_ssh_next.Core.{RsErrorCode, message_of}
use research_ssh_next.Event.{SessionEvent, ExecResult}
use research_ssh_next.Fs.{FileResult}
use research_ssh_next.Ffi.Events.{RsEvent, Emitter, deactivate, call_back, emit_batch}
use research_ssh_next.Ffi.Events.Delivery.{c_events_lem}
use research_ssh_next.Ffi.Files.{RsFsResult, emit_file_results}
use research_ssh_next.Ffi.Files.Delivery
use research_ssh_next.Ffi.Tasks.{RsExecResult, emit_task_results}
use research_ssh_next.Ffi.Tasks.Delivery as Tasks

unfoldable pub rscore_error_message : RsErrorCode → Text
rscore_error_message RsErrorCode.ok = codes "ok"
rscore_error_message RsErrorCode.null_argument = codes "a required pointer argument was null"
rscore_error_message RsErrorCode.invalid_utf8 = codes "argument was not valid UTF-8"
rscore_error_message RsErrorCode.invalid_state = codes "operation invalid in current session state"
rscore_error_message RsErrorCode.provider_unavailable =
    codes "requested provider or capability is unavailable"
rscore_error_message RsErrorCode.connect_failed = codes "failed to establish the connection"
rscore_error_message RsErrorCode.not_connected = codes "session is not connected"
rscore_error_message RsErrorCode.cancelled = codes "operation was cancelled"
rscore_error_message RsErrorCode.runtime_error = codes "async runtime error"
rscore_error_message RsErrorCode.panic = codes "a panic was caught at the FFI boundary"
rscore_error_message RsErrorCode.internal = codes "internal error"

-- The C ABI gives each error code the message that the core gives it.
pub rscore_error_message_lem : (code : RsErrorCode) → rscore_error_message code ≡ message_of code
unfolding rscore_error_message message_of
rscore_error_message_lem RsErrorCode.ok = refl
rscore_error_message_lem RsErrorCode.null_argument = refl
rscore_error_message_lem RsErrorCode.invalid_utf8 = refl
rscore_error_message_lem RsErrorCode.invalid_state = refl
rscore_error_message_lem RsErrorCode.provider_unavailable = refl
rscore_error_message_lem RsErrorCode.connect_failed = refl
rscore_error_message_lem RsErrorCode.not_connected = refl
rscore_error_message_lem RsErrorCode.cancelled = refl
rscore_error_message_lem RsErrorCode.runtime_error = refl
rscore_error_message_lem RsErrorCode.panic = refl
rscore_error_message_lem RsErrorCode.internal = refl

events_silent :
    (es : List SessionEvent) (em : Emitter RsEvent)
    → emit_batch es (deactivate em) ≡ some (deactivate em)
unfolding emit_batch call_back deactivate
events_silent [] em = refl
events_silent (e ∷ es) em = rw (c_events_lem (e ∷ es)) refl

files_silent :
    (rs : List FileResult) (em : Emitter RsFsResult)
    → emit_file_results rs (deactivate em) ≡ some (deactivate em)
unfolding emit_file_results call_back deactivate
files_silent [] em = refl
files_silent (r ∷ rs) em = rw (Delivery.c_results_lem (r ∷ rs)) refl

tasks_silent :
    (rs : List ExecResult) (em : Emitter RsExecResult)
    → emit_task_results rs (deactivate em) ≡ some (deactivate em)
unfolding emit_task_results call_back deactivate
tasks_silent [] em = refl
tasks_silent (r ∷ rs) em = rw (Tasks.c_results_lem (r ∷ rs)) refl

-- After its deactivation, none of the three emitters calls its callback again, whatever it is given,
-- and none of them panics.
pub emit-deactivate :
    (es : List SessionEvent) (fs : List FileResult) (ts : List ExecResult)
    (events : Emitter RsEvent) (files : Emitter RsFsResult) (tasks : Emitter RsExecResult)
    → (emit_batch es (deactivate events) ≡ some (deactivate events))
      × (emit_file_results fs (deactivate files) ≡ some (deactivate files))
      × (emit_task_results ts (deactivate tasks) ≡ some (deactivate tasks))
emit-deactivate es fs ts events files tasks =
    (events_silent es events, files_silent fs files, tasks_silent ts tasks)
