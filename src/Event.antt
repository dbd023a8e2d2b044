-- ===== src/Event.antt =====
-- rust-core/src/event.rs and the result types of rust-core/src/task.rs.
use research_ssh_next.Prelude.{ℕ, ◌^◌, ◌-◌, Text, Bytes}
use research_ssh_next.Core.{RsErrorCode}

pub data RsSessionState : Type 0 where
  idle connecting connected disconnecting disconnected failed : RsSessionState

pub data SessionEvent : Type 0 where
  state_changed : RsSessionState → SessionEvent
  terminal_data : Bytes → SessionEvent
  error : RsErrorCode → Text → SessionEvent
  host_key_prompt : Text → SessionEvent

-- An `i32` exit status is kept as its 32-bit pattern: -1, where the backend could not observe one,
-- is 2^32 - 1.
abbrev pub no_status : ℕ
no_status = 2 ^ 32 - 1

pub record ExecOutput : Type 0 where
  pub stdout : Bytes
  pub stderr : Bytes
  pub exit_status : ℕ

pub data ExecPayload : Type 0 where
  output : ExecOutput → ExecPayload
  error : RsErrorCode → Text → ExecPayload

pub record ExecResult : Type 0 where
  pub request_id : ℕ
  pub payload : ExecPayload
