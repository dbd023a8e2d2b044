-- ===== src/Examples/Abi.antt =====
-- The theorems on the C ABI, the session handle and the host-key gate, at concrete inputs.
use research_ssh_next.Prelude.{
  All, ◌+◌, ◌≤◌, Text, Bytes, true, false, ◌≡◌, refl, ◌⊎◌, List, [], ◌∷◌, ◌++◌, map, map_all,
  Option, none, some, codes, arith,
}
use research_ssh_next.Core.{RsErrorCode}
use research_ssh_next.Event.{SessionEvent, ExecPayload, ExecResult, connected, no_status}
use research_ssh_next.Fs.{FsOp, FileKind, Modified, FilePayload, FileResult}
use research_ssh_next.Session.Handle.{Session, Request}
use research_ssh_next.Session.Handle.Ids.{command_of}
use research_ssh_next.Session.Gate.{GateInput, new_gate, run_gate}
use research_ssh_next.Session.Gate.Order.{InOrder, accepts, decisions, run_gate-InOrder}
use research_ssh_next.Ffi.Events.{RsEvent, Emitter, new_emitter, emit_batch}
use research_ssh_next.Ffi.Events.Delivery.{read_event, sanitized, emit_batch-read_event}
use research_ssh_next.Ffi.Files.{RsFsResult, emit_file_results}
use research_ssh_next.Ffi.Files.Delivery as Files
use research_ssh_next.Ffi.Tasks.{RsExecResult, emit_task_results}
use research_ssh_next.Ffi.InBounds.{
  EventInBounds, FileInBounds, TaskInBounds, emit_each, emit_each-InBounds,
}
use research_ssh_next.Ffi.Calls.Requests.{Call, meaning, perform, perform_lem}

abbrev gone : SessionEvent
gone = SessionEvent.error RsErrorCode.connect_failed (codes "bad" ++ 0 ∷ [])

abbrev later : List SessionEvent
later = SessionEvent.terminal_data (1 ∷ 2 ∷ []) ∷ SessionEvent.state_changed connected ∷ []

abbrev events : Emitter RsEvent
events = new_emitter

emit_batch-read_event_example :
    (out : List RsEvent) × (emit_batch (gone ∷ later) events
      ≡ some (record events { calls = events.calls ++ out ∷ [] }))
    × (map_all read_event out ≡ some (map sanitized (gone ∷ later)))
emit_batch-read_event_example = emit_batch-read_event gone later events refl

abbrev list_result : FileResult
list_result = record {
  request_id = 1;
  payload = FilePayload.listing (
      record {
        name = codes "a";
        path = codes "/a";
        kind = FileKind.file;
        size = 3;
        modified_unix = Modified.unknown;
        mode = 420;
        editable_text = true;
      }
      ∷ []);
}

abbrev read_result : FileResult
read_result = record { request_id = 2; payload = FilePayload.content (7 ∷ []) }

abbrev files : Emitter RsFsResult
files = new_emitter

emit_file_results-read_result_example :
    (out : List RsFsResult) × (emit_file_results (list_result ∷ read_result ∷ []) files
      ≡ some (record files { calls = files.calls ++ out ∷ [] }))
    × (map_all Files.read_result out ≡ some (map Files.sanitized (list_result ∷ read_result ∷ [])))
emit_file_results-read_result_example =
    Files.emit_file_results-read_result list_result (read_result ∷ []) files refl

abbrev printed : ExecResult
printed = record {
  request_id = 3;
  payload = ExecPayload.output record { stdout = 1 ∷ []; stderr = []; exit_status = no_status };
}

abbrev tasks : Emitter RsExecResult
tasks = new_emitter

abbrev open_session : Session
open_session = record { receiving = true; sent = []; next_request_id = 0 }

abbrev closed_session : Session
closed_session = record { receiving = false; sent = []; next_request_id = 4 }

abbrev asked : List Request
asked = Request.file_op (FsOp.list []) ∷ Request.command_line (codes "ls") 1000 ∷ []

-- The strings of this run are ASCII.
abbrev ascii : Bytes → Option Text
ascii bytes = some bytes

abbrev call : Call
call = Call.fs_write (some (codes "/x")) (some (1 ∷ 2 ∷ 3 ∷ [])) 2

perform_lem_example :
    ((meaning ascii call ≡ none)
      × (perform ascii call (some open_session) ≡ (0, some open_session)))
    ⊎ ((q : Request) × (meaning ascii call ≡ some q)
        × (perform ascii call (some open_session) ≡ (
          open_session.next_request_id + 1,
          some (record open_session {
            sent = open_session.sent ++ command_of (open_session.next_request_id + 1) q ∷ [];
            next_request_id = open_session.next_request_id + 1;
          }),
        )))
perform_lem_example = perform_lem ascii call open_session refl (omega arith)

abbrev dialog : List GateInput
dialog =
    GateInput.ask (codes "a")
    ∷ GateInput.ask (codes "b")
    ∷ GateInput.decide true
    ∷ GateInput.decide true
    ∷ []

run_gate-InOrder_example :
    InOrder (run_gate dialog new_gate)
    × (accepts (run_gate dialog new_gate).answers ≤ decisions dialog)
run_gate-InOrder_example = run_gate-InOrder dialog

abbrev failed_result : FileResult
failed_result = record {
  request_id = 3;
  payload = FilePayload.error RsErrorCode.internal (0 ∷ 65 ∷ []);
}

emit_each-InBounds_example :
    ((em : Emitter RsEvent) × (emit_each emit_batch ((gone ∷ later) ∷ [] ∷ later ∷ []) new_emitter
        ≡ some em)
      × All (All EventInBounds) em.calls)
    × ((em : Emitter RsFsResult) × (emit_each emit_file_results
            ((list_result ∷ read_result ∷ []) ∷ (failed_result ∷ []) ∷ [])
            new_emitter
          ≡ some em)
        × All (All FileInBounds) em.calls)
    × ((em : Emitter RsExecResult) × (emit_each emit_task_results [] new_emitter ≡ some em)
        × All (All TaskInBounds) em.calls)
emit_each-InBounds_example =
    emit_each-InBounds ((gone ∷ later) ∷ [] ∷ later ∷ [])
      ((list_result ∷ read_result ∷ []) ∷ (failed_result ∷ []) ∷ []) []
