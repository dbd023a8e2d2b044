-- ===== src/Session/Conserved.antt =====
-- session.rs: what becomes of the bytes that the provider pushes for the terminal.
pub mod Arms
pub mod Runs
use research_ssh_next.Prelude.{
  Text, Bytes, Bool, true, false, not, ◌≡◌, refl, sym, ap, ◌∙◌, append-nil, append_assoc, List, [],
  ◌∷◌, ◌++◌, flat_map-append, flat_map-snoc, Option, none, some, if◌then◌else◌, Bool-cases, if_both,
  ℕ, inl, inr, arith, then_branch, else_branch,
}
use mathlib.Core.List.{flat_map}
use research_ssh_next.Core.{RsErrorCode, CoreError, CoreResult, done, fail, error_message}
use research_ssh_next.Event.{RsSessionState, SessionEvent, ExecResult}
use research_ssh_next.Event.{connecting, connected, disconnecting, disconnected, failed}
use research_ssh_next.Fs.{FileResult, FileProvider, FsOp}
use research_ssh_next.Provider.{ProviderEvent, SshProvider}
use research_ssh_next.Session.Driver.{
  Command, Race, finishes, dropped, Driver, Input, is_connected, is_busy, emit_batch, set_state,
  emit_error, emit_core_error, collect_all, collect_provider_event, start,
}
use research_ssh_next.Session.Handlers.{
  after_call, take_files, connect_done, run_connect, on_connect, send_done, run_send, on_send,
  on_disconnect, on_shutdown, emit_file_result, emit_task_result, on_fs, run_exec, on_exec,
  emit_if_any, deliver, on_drain, on_command, on_input, step, run,
}

abbrev pub pushed_bytes : ProviderEvent → Bytes
pushed_bytes (ProviderEvent.terminal_data bytes) = bytes
pushed_bytes (ProviderEvent.disconnected reason) = []
pushed_bytes (ProviderEvent.error e) = []

abbrev pub shown_bytes : SessionEvent → Bytes
shown_bytes (SessionEvent.terminal_data bytes) = bytes
shown_bytes (SessionEvent.state_changed s) = []
shown_bytes (SessionEvent.error code message) = []
shown_bytes (SessionEvent.host_key_prompt fingerprint) = []

-- The terminal bytes of a queue, and of all batches.
unfoldable pub queued : List ProviderEvent → Bytes
unfolding flat_map
queued evs = flat_map pushed_bytes evs

unfoldable pub in_batch : List SessionEvent → Bytes
unfolding flat_map
in_batch batch = flat_map shown_bytes batch

unfoldable pub emitted : List (List SessionEvent) → Bytes
unfolding flat_map in_batch
emitted batches = flat_map in_batch batches

pub collect_all-bytes :
    (evs : List ProviderEvent) (batch : List SessionEvent) (t : Option RsSessionState)
    → in_batch (collect_all evs (batch, t)).0 ≡ in_batch batch ++ queued evs
unfolding collect_all collect_provider_event in_batch queued flat_map error_message
collect_all-bytes [] batch t = sym (append-nil (in_batch batch))
collect_all-bytes (ProviderEvent.terminal_data bytes ∷ evs) batch t =
    collect_all-bytes evs (batch ++ SessionEvent.terminal_data bytes ∷ []) t
    ∙ (ap (λ bs. bs ++ queued evs)
          (flat_map-snoc shown_bytes batch (SessionEvent.terminal_data bytes))
        ∙ append_assoc (in_batch batch) bytes (queued evs))
collect_all-bytes (ProviderEvent.disconnected reason ∷ evs) batch t =
    collect_all-bytes evs batch (some disconnected)
collect_all-bytes (ProviderEvent.error e ∷ evs) batch t =
    collect_all-bytes evs (batch ++ SessionEvent.error e.code (error_message e) ∷ []) (some failed)
    ∙ ap (λ bs. bs ++ queued evs)
        (flat_map-snoc shown_bytes batch (SessionEvent.error e.code (error_message e))
          ∙ append-nil (in_batch batch))

emitted-quiet :
    (batches : List (List SessionEvent)) (batch : List SessionEvent)
    → in_batch batch ≡ []
    → emitted (batches ++ batch ∷ []) ≡ emitted batches
unfolding emitted
emitted-quiet batches batch h =
    flat_map-snoc in_batch batches batch
    ∙ (ap (λ bs. emitted batches ++ bs) h ∙ append-nil (emitted batches))

module _ {P S : Type 0} where
  -- The bytes that the driver has handed out, and the events that it has still to take up.
  pub record HasBytes (out : Bytes) (waiting : List ProviderEvent) (d : Driver P S) : Type 0 where
    pub out_same : emitted d.batches ≡ out
    pub queue_same : d.queue ≡ waiting

  pub same-HasBytes :
      {out : Bytes} {q : List ProviderEvent} (d d' : Driver P S)
      → d'.batches ≡ d.batches
      → d'.queue ≡ d.queue
      → HasBytes out q d
      → HasBytes out q d'
  same-HasBytes d d' e f h = record {
    out_same = ap emitted e ∙ h.out_same;
    queue_same = f ∙ h.queue_same;
  }

  pub set_state-HasBytes :
      {out : Bytes} {q : List ProviderEvent} (s : RsSessionState) (d : Driver P S)
      → HasBytes out q d
      → HasBytes out q (set_state s d)
  unfolding set_state in_batch flat_map
  set_state-HasBytes s d h = record {
    out_same = emitted-quiet d.batches (SessionEvent.state_changed s ∷ []) refl ∙ h.out_same;
    queue_same = h.queue_same;
  }

  pub emit_error-HasBytes :
      {out : Bytes} {q : List ProviderEvent} (code : RsErrorCode) (t : Text) (d : Driver P S)
      → HasBytes out q d
      → HasBytes out q (emit_error code t d)
  unfolding emit_error in_batch flat_map
  emit_error-HasBytes code t d h = record {
    out_same = emitted-quiet d.batches (SessionEvent.error code t ∷ []) refl ∙ h.out_same;
    queue_same = h.queue_same;
  }

  pub emit_core_error-HasBytes :
      {out : Bytes} {q : List ProviderEvent} (e : CoreError) (d : Driver P S)
      → HasBytes out q d
      → HasBytes out q (emit_core_error e d)
  unfolding emit_core_error
  emit_core_error-HasBytes e d h = emit_error-HasBytes e.code (error_message e) d h
