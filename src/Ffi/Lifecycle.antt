-- ===== src/Ffi/Lifecycle.antt =====
-- ffi.rs with session.rs: how a session is made, given its callbacks, and destroyed.
pub mod Create
pub mod Destroy
use research_ssh_next.Prelude.{
  ℕ, Text, Bytes, Bool, true, false, List, [], ◌∷◌, Option, none, some, if◌then◌else◌,
}
use mathlib.Core.Option
use research_ssh_next.Core.{RsErrorCode}
use research_ssh_next.Provider.{RsProviderKind, ConnectionConfig}
use research_ssh_next.Session.Driver.{Command}
use research_ssh_next.Session.Handle.{Session, send_cmd}
use research_ssh_next.Session.Gate.{Gate, new_gate, confirm_host_key}
use research_ssh_next.Ffi.Events.{RsEvent, Emitter, new_emitter, deactivate}
use research_ssh_next.Ffi.Files.{RsFsResult}
use research_ssh_next.Ffi.Tasks.{RsExecResult}
use research_ssh_next.Ffi.Calls.{Checked, good, bad, cstr_to_string}

-- `RsSessionConfig`, with pointers as in `RsEvent`.
pub record RsSessionConfig : Type 0 where
  pub host : Option Bytes
  pub port : ℕ
  pub username : Option Bytes
  pub provider : RsProviderKind

-- `RsSession`: the handle's calls, the host-key gate, the sink of events, the two slots, and whether
-- the driver's task is still to be joined.
pub record RsSession : Type 0 where
  pub config : ConnectionConfig
  pub session : Session
  pub gate : Gate
  pub emitter : Emitter RsEvent
  pub file_emitter : Option (Emitter RsFsResult)
  pub task_emitter : Option (Emitter RsExecResult)
  pub join : Bool

-- `Session::spawn`, but for the task.
unfoldable pub spawn : ConnectionConfig → Emitter RsEvent → RsSession
spawn config emitter = record {
  config = config;
  session = record { receiving = true; sent = []; next_request_id = 0 };
  gate = new_gate;
  emitter = emitter;
  file_emitter = none;
  task_emitter = none;
  join = true;
}

-- The pointer that is returned, and the code for `out_err`.
abbrev pub Created : Type 0
Created = Option RsSession × RsErrorCode

module _ (from_utf8 : Bytes → Option Text) where
  -- The checks after those for null, in their order.
  unfoldable pub create_with : RsSessionConfig → Created
  unfolding cstr_to_string spawn
  create_with config = elim (cstr_to_string from_utf8 config.host) [
    | bad code ↦ (none, code)
    | good host ↦ elim (cstr_to_string from_utf8 config.username) [
      | bad code ↦ (none, code)
      | good username ↦ (
        some (
            spawn
              (record {
                host = host;
                port = config.port;
                username = username;
                kind = config.provider;
              })
              new_emitter),
        RsErrorCode.ok,
      )
    ]
  ]

  -- `rscore_session_create`, where the first and the last argument say whether the core and the
  -- callback are given.
  unfoldable pub session_create : Bool → Option RsSessionConfig → Bool → Created
  unfolding create_with
  session_create false config cb = (none, RsErrorCode.null_argument)
  session_create true none cb = (none, RsErrorCode.null_argument)
  session_create true (some config) false = (none, RsErrorCode.null_argument)
  session_create true (some config) true = create_with config

-- A change of the session that a pointer leads to, if it leads to one.
with_live : Option RsSession → (RsSession → RsSession) → RsErrorCode × Option RsSession
with_live none f = (RsErrorCode.null_argument, none)
with_live (some s) f = (RsErrorCode.ok, some (f s))

-- The Boolean says whether the callback is given.
unfoldable pub session_set_file_callback : Bool → Option RsSession → RsErrorCode × Option RsSession
unfolding with_live
session_set_file_callback false session = (RsErrorCode.null_argument, session)
session_set_file_callback true session =
    with_live session (λ s. record s { file_emitter = some new_emitter })

unfoldable pub session_set_exec_callback : Bool → Option RsSession → RsErrorCode × Option RsSession
unfolding with_live
session_set_exec_callback false session = (RsErrorCode.null_argument, session)
session_set_exec_callback true session =
    with_live session (λ s. record s { task_emitter = some new_emitter })

unfoldable pub session_confirm_host_key : Bool → Option RsSession → RsErrorCode × Option RsSession
unfolding with_live confirm_host_key
session_confirm_host_key accept session =
    with_live session (λ s. record s { gate = confirm_host_key accept s.gate })

-- The emitters that the driver's task may still hold after a teardown.
pub record Sinks : Type 0 where
  pub emitter : Emitter RsEvent
  pub file_emitter : Option (Emitter RsFsResult)
  pub task_emitter : Option (Emitter RsExecResult)

-- What the driver makes of the emitters until it ends, or until the three seconds are over, is
-- `await`.
module _ (await : RsSession → RsSession) where
  unfoldable pub join_driver : RsSession → RsSession
  join_driver s = if s.join then await (record s { join = false }) else s

  unfoldable pub shutdown_and_join : RsSession → RsSession × Sinks
  unfolding join_driver send_cmd deactivate
  shutdown_and_join s =
      let s1 = join_driver (record s { session = (send_cmd Command.shutdown s.session).1 }) in
      let sinks : Sinks = record {
        emitter = deactivate s1.emitter;
        file_emitter = Option.map deactivate s1.file_emitter;
        task_emitter = Option.map deactivate s1.task_emitter;
      } in
      (record s1 { emitter = sinks.emitter; file_emitter = none; task_emitter = none }, sinks)

  -- `rscore_session_destroy`: what is left of the session, if there was one.
  unfoldable pub session_destroy : Option RsSession → Option Sinks
  unfolding shutdown_and_join
  session_destroy none = none
  session_destroy (some s) = some (shutdown_and_join s).1
