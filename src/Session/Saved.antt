-- ===== src/Session/Saved.antt =====
-- session.rs: a file that is saved and read again, with the terminal in use between.
pub mod Loaded
use research_ssh_next.Prelude.{
  ℕ, Text, Bytes, true, ◌≡◌, refl, sym, ap, ◌∙◌, append_assoc, List, [], ◌∷◌, ◌++◌, Option, none,
  some, All, Bool-cases, inl, inr, arith, then_branch,
}
use mathlib.Core.Path.{subst}
use research_ssh_next.Core.{CoreResult, done, fail}
use research_ssh_next.Event.{RsSessionState, SessionEvent, ExecResult}
use research_ssh_next.Fs.{FilePayload, FileResult, FileProvider, FsOp}
use research_ssh_next.Fs.ReadsBack.{capped, ReadsBack}
use research_ssh_next.Provider.{SshProvider}
use research_ssh_next.Session.Driver.{
  Command, Race, Driver, Input, finishes, dropped, is_connected, collect_all, payload_of, perform,
  run_fs_op, run_exec_op,
}
use research_ssh_next.Session.Handlers.{
  send_done, run_send, on_send, run_exec, on_exec, emit_file_result, emit_task_result, on_fs,
  deliver, on_drain, on_command, on_input, step, run,
}
use research_ssh_next.Session.Shutdown.{run-append}

-- An input that neither asks for a file nor begins or ends a connection.
abbrev pub IsTerminal : Input → Type 0
IsTerminal (Input.command (Command.send bytes) race) = Unit {0}
IsTerminal (Input.command (Command.exec id line t) race) = Unit {0}
IsTerminal (Input.command (Command.set_secret s) race) = Unit {0}
IsTerminal (Input.command (Command.set_private_key k s) race) = Unit {0}
IsTerminal (Input.command c race) = ⊥
IsTerminal i = Unit {0}

module _ {P S : Type 0} where
  -- A driver that runs, answers file requests and has a file provider, and its answers so far.
  pub record Serves (s : S) (results : List FileResult) (d : Driver P S) : Type 0 where
    pub runs : d.running ≡ true
    pub answers : d.has_file_emitter ≡ true
    pub has_files : d.file_provider ≡ some s
    pub so_far : d.file_results ≡ results

  -- A change of the other fields.
  same-Serves :
      {s : S} {results : List FileResult} (d d' : Driver P S)
      → d'.running ≡ d.running
      → (d.has_file_emitter ≡ true → d'.has_file_emitter ≡ true)
      → d'.file_provider ≡ d.file_provider
      → d'.file_results ≡ d.file_results
      → Serves s results d
      → Serves s results d'
  same-Serves d d' r e f g v = record {
    runs = r ∙ v.runs;
    answers = e v.answers;
    has_files = f ∙ v.has_files;
    so_far = g ∙ v.so_far;
  }

module _ {P S : Type 0} (ssh : SshProvider P S) (files : FileProvider S) where
  send_done-Serves :
      {s : S} {results : List FileResult} (r : CoreResult (Unit {0})) (d : Driver P S)
      → Serves s results d
      → Serves s results (send_done ssh files r d)
  unfolding send_done
  send_done-Serves (done _) d v = v
  send_done-Serves (fail e) d v = same-Serves d _ refl (λ x. x) refl refl v

  run_send-Serves :
      {s : S} {results : List FileResult} (race : Race) (bytes : Bytes) (d : Driver P S)
      → Serves s results d
      → Serves s results (run_send ssh files race bytes d)
  unfolding run_send
  run_send-Serves finishes bytes d v =
      send_done-Serves (ssh.send bytes d.provider).result _
        (same-Serves d _ refl (λ x. x) refl refl v)
  run_send-Serves dropped bytes d v = same-Serves d _ refl (λ x. x) refl refl v

  on_send-Serves :
      {s : S} {results : List FileResult} (race : Race) (bytes : Bytes) (d : Driver P S)
      → Serves s results d
      → Serves s results (on_send ssh files race bytes d)
  unfolding on_send
  on_send-Serves {s = s} {results = results} race bytes d v =
      elim (Bool-cases (is_connected d.state)) [
        | inr gone ↦ rw gone (same-Serves d _ refl (λ x. x) refl refl v)
        | inl there ↦ rw there (run_send-Serves race bytes d v)
      ]

  emit_task_result-Serves :
      {s : S} {results : List FileResult} (r : ExecResult) (d : Driver P S)
      → Serves s results d
      → Serves s results (emit_task_result ssh files r d)
  unfolding emit_task_result
  emit_task_result-Serves r d v =
      same-Serves d (emit_task_result ssh files r d) (ground arith) (λ x. ground (arith, x))
        (ground arith) (ground arith) v

  run_exec-Serves :
      {s : S} {results : List FileResult} (race : Race) (id : ℕ) (line : Text) (t : ℕ)
      (d : Driver P S)
      → Serves s results d
      → Serves s results (run_exec ssh files race id line t d)
  unfolding run_exec
  run_exec-Serves finishes id line t d v =
      emit_task_result-Serves (run_exec_op ssh d.provider id line t).0
        (record d { provider = (run_exec_op ssh d.provider id line t).1 })
        (same-Serves d _ refl (λ x. x) refl refl v)
  run_exec-Serves dropped id line t d v =
      emit_task_result-Serves _ (record d { provider = ssh.exec_dropped line t d.provider })
        (same-Serves d _ refl (λ x. x) refl refl v)

  on_exec-Serves :
      {s : S} {results : List FileResult} (race : Race) (id : ℕ) (line : Text) (t : ℕ)
      (d : Driver P S)
      → Serves s results d
      → Serves s results (on_exec ssh files race id line t d)
  unfolding on_exec
  on_exec-Serves race id line t d v = elim (Bool-cases (is_connected d.state)) [
    | inr gone ↦ rw gone (emit_task_result-Serves _ d v)
    | inl there ↦ rw there (run_exec-Serves race id line t d v)
  ]

  deliver-Serves :
      {s : S} {results : List FileResult} (batch : List SessionEvent) (t : Option RsSessionState)
      (d : Driver P S)
      → Serves s results d
      → Serves s results (deliver ssh files batch t d)
  unfolding deliver
  deliver-Serves [] none d v = v
  deliver-Serves (e ∷ es) none d v = same-Serves d _ refl (λ x. x) refl refl v
  deliver-Serves [] (some st) d v = same-Serves d _ refl (λ x. x) refl refl v
  deliver-Serves (e ∷ es) (some st) d v = same-Serves d _ refl (λ x. x) refl refl v

  on_input-Serves :
      {s : S} {results : List FileResult} (i : Input) (d : Driver P S)
      → IsTerminal i
      → Serves s results d
      → Serves s results (on_input ssh files i d)
  unfolding on_input on_command on_drain
  on_input-Serves (Input.command (Command.send bytes) race) d ok v = on_send-Serves race bytes d v
  on_input-Serves (Input.command (Command.exec id line t) race) d ok v =
      on_exec-Serves race id line t d v
  on_input-Serves (Input.command (Command.set_secret x) race) d ok v =
      same-Serves d _ refl (λ x. x) refl refl v
  on_input-Serves (Input.command (Command.set_private_key k x) race) d ok v =
      same-Serves d _ refl (λ x. x) refl refl v
  on_input-Serves (Input.command Command.connect race) d ok v = absurd ok
  on_input-Serves (Input.command Command.disconnect race) d ok v = absurd ok
  on_input-Serves (Input.command Command.shutdown race) d ok v = absurd ok
  on_input-Serves (Input.command (Command.fs id op) race) d ok v = absurd ok
  on_input-Serves (Input.pushes ev) d ok v = same-Serves d _ refl (λ x. x) refl refl v
  on_input-Serves Input.drain d ok v =
      deliver-Serves (collect_all d.queue ([], none)).0 (collect_all d.queue ([], none)).1
        (record d { queue = [] }) (same-Serves d _ refl (λ x. x) refl refl v)
  on_input-Serves Input.register_file_emitter d ok v = same-Serves d _ refl (λ x. refl) refl refl v
  on_input-Serves Input.register_task_emitter d ok v = same-Serves d _ refl (λ x. x) refl refl v

  step-Serves :
      {s : S} {results : List FileResult} (i : Input) (d : Driver P S)
      → IsTerminal i
      → Serves s results d
      → Serves s results (step ssh files i d)
  unfolding step
  step-Serves {s = s} {results = results} i d ok v =
      subst (Serves s results) (sym (then_branch d.running (on_input ssh files i d) d v.runs))
        (on_input-Serves i d ok v)

  pub run-Serves :
      {s : S} {results : List FileResult} (is : List Input) (d : Driver P S)
      → All IsTerminal is
      → Serves s results d
      → Serves s results (run ssh files is d)
  unfolding run
  run-Serves [] d ok v = v
  run-Serves (i ∷ is) d ok v = run-Serves is (step ssh files i d) ok.1 (step-Serves i d ok.0 v)
