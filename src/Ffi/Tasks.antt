-- ===== src/Ffi/Tasks.antt =====
-- ffi.rs: `FfiTaskEmitter`, which hands results of side-channel commands to the C callback.
pub mod Delivery
use research_ssh_next.Prelude.{ℕ, Text, Bytes, List, [], ◌∷◌, length, map_all, Option, none, some}
use mathlib.Core.Option
use research_ssh_next.Core.{RsErrorCode}
use research_ssh_next.Event.{ExecOutput, ExecPayload, ExecResult, no_status}
use research_ssh_next.Ffi.Backing.{
  Backing, no_backing, push_bytes, push_string, bytes_at, string_at,
}
use research_ssh_next.Ffi.Events.{Emitter, call_back}

pub data RsExecResultKind : Type 0 where
  output error : RsExecResultKind

-- `RsExecResult`, with pointers as in `RsEvent`.
pub record RsExecResult : Type 0 where
  pub request_id : ℕ
  pub kind : RsExecResultKind
  pub stdout_ptr : Option Bytes
  pub stdout_len : ℕ
  pub stderr_ptr : Option Bytes
  pub stderr_len : ℕ
  pub exit_status : ℕ
  pub error_code : RsErrorCode
  pub message : Option Text

-- `enum Rec`
pub data Slot : Type 0 where
  output : ℕ → ℕ → ℕ → Slot
  error : RsErrorCode → ℕ → Slot

unfoldable pub push_payload : ExecPayload → Backing → Backing × Slot
unfolding push_bytes push_string
push_payload (ExecPayload.output out) st =
    let (st1, stdout) = push_bytes out.stdout st in
    let (st2, stderr) = push_bytes out.stderr st1 in
    (st2, Slot.output stdout stderr out.exit_status)
push_payload (ExecPayload.error code message) st =
    let (st', i) = push_string message st in (st', Slot.error code i)

unfoldable pub push_results : List ExecResult → Backing → Backing × List (ℕ × Slot)
unfolding push_payload
push_results [] st = (st, [])
push_results (r ∷ rs) st =
    let (st1, slot) = push_payload r.payload st in
    let (st2, slots) = push_results rs st1 in (st2, (r.request_id, slot) ∷ slots)

unfoldable pub c_result : Backing → ℕ × Slot → Option RsExecResult
c_result st (id, Slot.output stdout stderr exit_status) = Option.bind (bytes_at st stdout) (λ out.
    Option.bind (bytes_at st stderr) (λ err. some record {
      request_id = id;
      kind = RsExecResultKind.output;
      stdout_ptr = some out;
      stdout_len = length out;
      stderr_ptr = some err;
      stderr_len = length err;
      exit_status = exit_status;
      error_code = RsErrorCode.ok;
      message = none;
    }))
c_result st (id, Slot.error code i) = Option.bind (string_at st i) (λ s. some record {
  request_id = id;
  kind = RsExecResultKind.error;
  stdout_ptr = none;
  stdout_len = 0;
  stderr_ptr = none;
  stderr_len = 0;
  exit_status = no_status;
  error_code = code;
  message = some s;
})

unfoldable pub c_results : List ExecResult → Option (List RsExecResult)
unfolding push_results c_result
c_results results = let (st, slots) = push_results results no_backing in map_all (c_result st) slots

unfoldable pub emit_task_results :
    List ExecResult → Emitter RsExecResult → Option (Emitter RsExecResult)
unfolding c_results call_back
emit_task_results [] em = some em
emit_task_results (r ∷ rs) em = Option.map (λ out. call_back out em) (c_results (r ∷ rs))
