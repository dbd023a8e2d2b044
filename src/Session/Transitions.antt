-- ===== src/Session/Transitions.antt =====
-- session.rs: the state transitions that a session shows.
mod Commands
pub mod Life
use research_ssh_next.Prelude.{
  append-nil, append_assoc, ℕ, Text, Bytes, Bool, true, false, not, ◌||◌, ◌&&◌, ◌≡◌, refl, ◌≢◌, ◌⊎◌,
  inl, inr, List, [], ◌∷◌, ◌++◌, Option, none, some, Bool-cases, All, sym, ◌∙◌, arith,
}
use research_ssh_next.Core.{RsErrorCode, CoreError, CoreResult, done, fail}
use research_ssh_next.Event.{RsSessionState, SessionEvent}
use research_ssh_next.Event.{idle, connecting, connected, disconnecting, disconnected, failed}
use research_ssh_next.Fs.{FileProvider}
use research_ssh_next.Provider.{ProviderEvent, SshProvider}
use research_ssh_next.Session.Driver.{
  Command, Race, finishes, dropped, Driver, Input, is_connected, is_busy, emit_batch, set_state,
  emit_error, emit_core_error, collect_provider_event, collect_all, start,
}
use research_ssh_next.Session.Handlers.{
  take_files, connect_done, run_connect, send_done, run_send, after_call, emit_file_result,
  emit_task_result, run_exec, emit_if_any, deliver, on_input, on_connect, on_send, on_disconnect,
  on_shutdown, on_fs, on_exec, on_drain, on_command, step, run,
}

-- The states that a batch, and a list of batches, show, in order.
abbrev pub states_of : List SessionEvent → List RsSessionState
states_of [] = []
states_of (SessionEvent.state_changed s ∷ es) = s ∷ states_of es
states_of (SessionEvent.terminal_data bytes ∷ es) = states_of es
states_of (SessionEvent.error code message ∷ es) = states_of es
states_of (SessionEvent.host_key_prompt fingerprint ∷ es) = states_of es

abbrev pub shown : List (List SessionEvent) → List RsSessionState
shown [] = []
shown (b ∷ bs) = states_of b ++ shown bs

abbrev pub last_or : RsSessionState → List RsSessionState → RsSessionState
last_or s [] = s
last_or s (t ∷ ts) = last_or t ts

-- Between commands a session rests in one of these.
abbrev pub is_settled : RsSessionState → Bool
is_settled connecting = false
is_settled disconnecting = false
is_settled idle = true
is_settled connected = true
is_settled disconnected = true
is_settled failed = true

-- The life cycle: a connection attempt starts where there is no connection, `Connected` follows
-- `Connecting` alone, and a disconnect that was asked for starts from `Connected`. Losing the
-- connection, by its end or by an error, may be shown in any settled state.
abbrev pub allowed : RsSessionState → RsSessionState → Bool
allowed connecting connected = true
allowed connecting disconnected = true
allowed connecting failed = true
allowed connected disconnecting = true
allowed disconnecting disconnected = true
allowed idle connecting = true
allowed disconnected connecting = true
allowed failed connecting = true
allowed idle disconnected = true
allowed idle failed = true
allowed connected disconnected = true
allowed connected failed = true
allowed disconnected disconnected = true
allowed disconnected failed = true
allowed failed disconnected = true
allowed failed failed = true
allowed s t = false

abbrev pub IsPath : RsSessionState → List RsSessionState → Type 0
IsPath s [] = Unit {0}
IsPath s (t ∷ ts) = (allowed s t ≡ true) × IsPath t ts

pub last_or-append :
    (s : RsSessionState) (xs ys : List RsSessionState)
    → last_or s (xs ++ ys) ≡ last_or (last_or s xs) ys
last_or-append s [] ys = refl
last_or-append s (x ∷ xs) ys = last_or-append x xs ys

pub IsPath-append :
    (s : RsSessionState) (xs ys : List RsSessionState)
    → IsPath s xs
    → IsPath (last_or s xs) ys
    → IsPath s (xs ++ ys)
IsPath-append s [] ys h k = k
IsPath-append s (x ∷ xs) ys h k = (h.0, IsPath-append x xs ys h.1 k)

shown-append :
    (bs : List (List SessionEvent)) (b : List SessionEvent)
    → shown (bs ++ b ∷ []) ≡ shown bs ++ states_of b
shown-append [] b = append-nil (states_of b)
shown-append (c ∷ bs) b =
    rw (shown-append bs b) (sym (append_assoc (states_of c) (shown bs) (states_of b)))

-- What the session has shown so far is a path of the life cycle, and ends in the driver's state.
pub record Shows {P S : Type 0} (d : Driver P S) : Type 0 where
  pub path : IsPath idle (shown d.batches)
  pub current : last_or idle (shown d.batches) ≡ d.state

module _ {P S : Type 0} where
  -- Emitting a batch whose states lead from the old state to the new one.
  pub emit-Shows :
      (d : Driver P S) (s : RsSessionState) (b : List SessionEvent)
      → Shows d
      → IsPath d.state (states_of b)
      → last_or d.state (states_of b) ≡ s
      → Shows (emit_batch b (record d { state = s }))
  emit-Shows d s b v p l = record {
    path =
        rw (shown-append d.batches b)
          (IsPath-append idle (shown d.batches) (states_of b) v.path (rw v.current p));
    current =
        rw (shown-append d.batches b)
          (last_or-append idle (shown d.batches) (states_of b) ∙ rw v.current l);
  }

  pub set_state-Shows :
      (s : RsSessionState) (d : Driver P S)
      → allowed d.state s ≡ true
      → Shows d
      → Shows (set_state s d)
  unfolding set_state
  set_state-Shows s d a v = emit-Shows d s (SessionEvent.state_changed s ∷ []) v (a, tt) refl

  pub emit_error-Shows :
      (code : RsErrorCode) (message : Text) (d : Driver P S)
      → Shows d
      → Shows (emit_error code message d)
  unfolding emit_error
  emit_error-Shows code message d v =
      emit-Shows d d.state (SessionEvent.error code message ∷ []) v tt refl

  pub emit_core_error-Shows :
      (e : CoreError) (d : Driver P S) → Shows d → Shows (emit_core_error e d)
  unfolding emit_core_error
  emit_core_error-Shows e d v = emit-Shows d d.state (SessionEvent.error _ _ ∷ []) v tt refl

  -- A driver that differs only elsewhere.
  pub same-Shows :
      (d d' : Driver P S) → d'.batches ≡ d.batches → d'.state ≡ d.state → Shows d → Shows d'
  same-Shows d d' b s v = record { path = rw b v.path; current = rw (b, s) v.current }

-- Between two inputs a session has shown a path of the life cycle, which ends in its state, and
-- rests in a settled state.
pub record IsConsistent {P S : Type 0} (d : Driver P S) : Type 0 where
  pub shows : Shows d
  pub settled : is_settled d.state ≡ true
