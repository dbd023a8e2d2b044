-- ===== src/Session/Driver.antt =====
-- session.rs: `drive`, the task that owns the provider and the state machine, and its helpers.
use research_ssh_next.Prelude.{
  ℕ, Text, Bytes, Bool, true, false, ◌⊎◌, inl, inr, List, [], ◌∷◌, ◌++◌, Option, none, some, codes,
}
use research_ssh_next.Core.{RsErrorCode, CoreError, CoreResult, done, fail, error_message}
use research_ssh_next.Event.{RsSessionState, SessionEvent, ExecPayload, ExecResult, ExecOutput}
use research_ssh_next.Event.{idle, connecting, connected, disconnecting, disconnected, failed}
use research_ssh_next.Fs.{FilePayload, FileResult, FileProvider, FsOp}
use research_ssh_next.Provider.{ProviderEvent, SshProvider}

-- `enum Command`
pub data Command : Type 0 where
  connect disconnect shutdown : Command
  send set_secret : Bytes → Command
  set_private_key : Option Text → Option Bytes → Command
  fs : ℕ → FsOp → Command
  exec : ℕ → Text → ℕ → Command

-- How an awaited call ends: by itself, or because `cancel` (or a timeout) drops it first.
pub data Race : Type 0 where
  finishes dropped : Race

-- The variables of `drive`, the two emitter slots, the queue of provider events, and all that was
-- handed to the three emitters, in order.
pub record Driver (P S : Type 0) : Type 0 where
  pub state : RsSessionState
  pub provider : P
  pub file_provider : Option S
  pub queue : List ProviderEvent
  pub has_file_emitter : Bool
  pub has_task_emitter : Bool
  pub running : Bool
  pub batches : List (List SessionEvent)
  pub file_results : List FileResult
  pub task_results : List ExecResult

-- What the driver meets next: a command, with the end of the call that it makes; an event that the
-- provider pushes from a task of its own; the turn of the event queue; a registered emitter.
pub data Input : Type 0 where
  command : Command → Race → Input
  pushes : ProviderEvent → Input
  drain register_file_emitter register_task_emitter : Input

unfoldable pub is_connected : RsSessionState → Bool
is_connected connected = true
is_connected idle = false
is_connected connecting = false
is_connected disconnecting = false
is_connected disconnected = false
is_connected failed = false

-- `matches!(state, Connecting | Connected)`
unfoldable pub is_busy : RsSessionState → Bool
is_busy connecting = true
is_busy connected = true
is_busy idle = false
is_busy disconnecting = false
is_busy disconnected = false
is_busy failed = false

module _ {P S : Type 0} where
  abbrev pub emit_batch : List SessionEvent → Driver P S → Driver P S
  emit_batch batch d = record d { batches = d.batches ++ batch ∷ [] }

  unfoldable pub set_state : RsSessionState → Driver P S → Driver P S
  set_state s d = emit_batch (SessionEvent.state_changed s ∷ []) (record d { state = s })

  unfoldable pub emit_error : RsErrorCode → Text → Driver P S → Driver P S
  emit_error code message d = emit_batch (SessionEvent.error code message ∷ []) d

  unfoldable pub emit_core_error : CoreError → Driver P S → Driver P S
  unfolding emit_error error_message
  emit_core_error e d = emit_error e.code (error_message e) d

  -- `drive` up to its loop, where the provider could be made.
  unfoldable pub start : P → Driver P S
  start p = record {
    state = idle;
    provider = p;
    file_provider = none;
    queue = [];
    has_file_emitter = false;
    has_task_emitter = false;
    running = true;
    batches = [];
    file_results = [];
    task_results = [];
  }

  -- Where it could not, the driver emits one batch and returns.
  unfoldable pub launch : CoreResult P → Driver P S ⊎ List (List SessionEvent)
  unfolding start error_message
  launch (done p) = inl (start p)
  launch (fail e) =
      inr (
        (SessionEvent.error e.code (error_message e) ∷ SessionEvent.state_changed failed ∷ []) ∷ [])

-- The batch, and the transition to make after it.
unfoldable pub collect_provider_event :
    ProviderEvent
    → List SessionEvent × Option RsSessionState
    → List SessionEvent × Option RsSessionState
unfolding error_message
collect_provider_event (ProviderEvent.terminal_data bytes) (batch, transition) =
    (batch ++ SessionEvent.terminal_data bytes ∷ [], transition)
collect_provider_event (ProviderEvent.disconnected reason) (batch, transition) =
    (batch, some disconnected)
collect_provider_event (ProviderEvent.error e) (batch, transition) =
    (batch ++ SessionEvent.error e.code (error_message e) ∷ [], some failed)

unfoldable pub collect_all :
    List ProviderEvent
    → List SessionEvent × Option RsSessionState
    → List SessionEvent × Option RsSessionState
unfolding collect_provider_event
collect_all [] acc = acc
collect_all (ev ∷ evs) acc = collect_all evs (collect_provider_event ev acc)

-- `ok_or_err`, and the same match for a result that has a value.
unfoldable pub payload_of {ℓ} : {A : Type ℓ} → (A → FilePayload) → CoreResult A → FilePayload
unfolding error_message
payload_of make (done a) = make a
payload_of make (fail e) = FilePayload.error e.code (error_message e)

module _ {S : Type 0} (files : FileProvider S) where
  unfoldable pub perform : FsOp → S → FilePayload × S
  unfolding payload_of
  perform (FsOp.list path) s =
      let (r, s') = files.list_dir path s in (payload_of FilePayload.listing r, s')
  perform (FsOp.stat path) s =
      let (r, s') = files.stat path s in (payload_of (λ e. FilePayload.listing (e ∷ [])) r, s')
  perform (FsOp.read path max_len) s =
      let (r, s') = files.read_file path max_len s in (payload_of FilePayload.content r, s')
  perform (FsOp.write path bytes) s =
      let (r, s') = files.write_file path bytes s in (payload_of (λ _. FilePayload.ok) r, s')
  perform (FsOp.rename from to) s =
      let (r, s') = files.rename from to s in (payload_of (λ _. FilePayload.ok) r, s')
  perform (FsOp.remove path recursive) s =
      let (r, s') = files.remove path recursive s in (payload_of (λ _. FilePayload.ok) r, s')
  perform (FsOp.mkdir path) s =
      let (r, s') = files.mkdir path s in (payload_of (λ _. FilePayload.ok) r, s')
  perform (FsOp.copy from to) s =
      let (r, s') = files.copy from to s in (payload_of (λ _. FilePayload.ok) r, s')

  no_file_provider : FilePayload
  no_file_provider =
      FilePayload.error RsErrorCode.provider_unavailable
        (codes "file transfer unavailable: SFTP subsystem is not available for this session")

  -- `run_fs_op`
  unfoldable pub run_fs_op : Option S → ℕ → FsOp → FileResult × Option S
  unfolding perform no_file_provider
  run_fs_op none id op = (record { request_id = id; payload = no_file_provider }, none)
  run_fs_op (some s) id op =
      let (payload, s') = perform op s in (record { request_id = id; payload = payload }, some s')

-- `run_exec_op`
module _ {P S : Type 0} (ssh : SshProvider P S) where
  exec_payload : CoreResult ExecOutput → ExecPayload
  unfolding error_message
  exec_payload (done output) = ExecPayload.output output
  exec_payload (fail e) = ExecPayload.error e.code (error_message e)

  unfoldable pub run_exec_op : P → ℕ → Text → ℕ → ExecResult × P
  unfolding exec_payload
  run_exec_op p id line timeout_ms =
      let (r, p') = ssh.exec line timeout_ms p in
      (record { request_id = id; payload = exec_payload r }, p')
