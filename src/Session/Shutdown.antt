-- ===== src/Session/Shutdown.antt =====
-- session.rs: how `shutdown_and_join` ends the driver.
use research_ssh_next.Prelude.{
  then_branch, else_branch, false, ◌≡◌, refl, ap, ◌∙◌, sym, List, [], ◌∷◌, ◌++◌, Bool-cases, inl,
  inr, arith,
}
use mathlib.Core.Path.{subst}
use research_ssh_next.Fs.{FileProvider}
use research_ssh_next.Provider.{SshProvider}
use research_ssh_next.Session.Driver.{Command, Race, Driver, Input}
use research_ssh_next.Session.Handlers.{run, step, on_input, on_command, on_shutdown}

module _ {P S : Type 0} (ssh : SshProvider P S) (files : FileProvider S) where
  pub run_stopped : (is : List Input) (d : Driver P S) → d.running ≡ false → run ssh files is d ≡ d
  unfolding run step
  run_stopped [] d h = refl
  run_stopped (i ∷ is) d h =
      ap (run ssh files is) (else_branch d.running (on_input ssh files i d) d h)
      ∙ run_stopped is d h

  pub run-append :
      (is js : List Input) (d : Driver P S)
      → run ssh files (is ++ js) d ≡ run ssh files js (run ssh files is d)
  unfolding run
  run-append [] js d = refl
  run-append (i ∷ is) js d = run-append is js (step ssh files i d)

  -- The driver has stopped, and has emitted what another had.
  abbrev pub IsStopOf : Driver P S → Driver P S → Type 0
  IsStopOf before after =
      (after.running ≡ false)
      × (after.batches ≡ before.batches)
      × (after.file_results ≡ before.file_results)
      × (after.task_results ≡ before.task_results)

  on_shutdown-IsStopOf : (race : Race) (d : Driver P S) → IsStopOf d (on_shutdown ssh files race d)
  unfolding on_shutdown
  on_shutdown-IsStopOf race d = (ground arith, ground arith, ground arith, ground arith)

  step-IsStopOf :
      (race : Race) (d : Driver P S)
      → IsStopOf d (step ssh files (Input.command Command.shutdown race) d)
  unfolding step on_input on_command
  step-IsStopOf race d = elim (Bool-cases d.running) [
    | inl h ↦
        subst (IsStopOf d) (sym (then_branch d.running (on_shutdown ssh files race d) d h))
          (on_shutdown-IsStopOf race d)
    | inr h ↦
        subst (IsStopOf d) (sym (else_branch d.running (on_shutdown ssh files race d) d h))
          (h, refl, refl, refl)
  ]

  -- Whatever came before, a shutdown stops the driver, be its disconnect in time or not: nothing is
  -- emitted for it, and nothing for what comes later.
  pub run_shutdown :
      (is : List Input) (race : Race) (js : List Input) (d : Driver P S)
      → IsStopOf
          (run ssh files is d)
          (run ssh files (is ++ Input.command Command.shutdown race ∷ js) d)
  unfolding run
  run_shutdown is race js d =
      let before = run ssh files is d in
      let stop = step-IsStopOf race before in
      subst (IsStopOf before)
        (sym (
          run-append is (Input.command Command.shutdown race ∷ js) d
          ∙ run_stopped js (step ssh files (Input.command Command.shutdown race) before) stop.0))
        stop
