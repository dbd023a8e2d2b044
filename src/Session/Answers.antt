-- ===== src/Session/Answers.antt =====
-- session.rs: the answers to file requests and to commands for the side channel.
pub mod Keeps
use research_ssh_next.Prelude.{
  ℕ, Bool, true, false, ◌≡◌, refl, List, [], ◌∷◌, ◌++◌, map, if◌then◌else◌, ◌∙◌, ap, arith,
}
use mathlib.Core.List.{map-append}
use research_ssh_next.Event.{ExecResult}
use research_ssh_next.Fs.{FileResult, FileProvider}
use research_ssh_next.Provider.{SshProvider}
use research_ssh_next.Session.Driver.{Command, Race, Driver, Input, finishes, dropped, start}
use research_ssh_next.Session.Handlers.{
  on_fs, on_exec, run_exec, emit_file_result, emit_task_result, on_command, on_input, step, run,
}
use Keeps.{
  View, view, on_connect-view, on_send-view, on_disconnect-view, on_drain-view, on_shutdown-view,
  on_fs-view, on_exec-view,
}

-- The service as a client sees it: a request is answered under its own id, where an emitter for
-- the answer is registered, and a shutdown ends the service. Nothing else answers.
abbrev pub serve_input : Input → View → View
serve_input (Input.command (Command.fs id op) race) v =
    if v.has_file_emitter then record v { file_ids = v.file_ids ++ id ∷ [] } else v
serve_input (Input.command (Command.exec id line timeout_ms) race) v =
    if v.has_task_emitter then record v { task_ids = v.task_ids ++ id ∷ [] } else v
serve_input (Input.command Command.shutdown race) v = record v { running = false }
serve_input Input.register_file_emitter v = record v { has_file_emitter = true }
serve_input Input.register_task_emitter v = record v { has_task_emitter = true }
serve_input i v = v

abbrev pub serve : List Input → View → View
serve [] v = v
serve (i ∷ is) v = serve is (if v.running then serve_input i v else v)

module _ {P S : Type 0} (ssh : SshProvider P S) (files : FileProvider S) where
  on_command-view :
      (c : Command) (race : Race) (d : Driver P S)
      → view (on_command ssh files c race d) ≡ serve_input (Input.command c race) (view d)
  unfolding on_command
  on_command-view Command.connect race d = on_connect-view ssh files race d
  on_command-view Command.disconnect race d = on_disconnect-view ssh files d
  on_command-view Command.shutdown race d = on_shutdown-view ssh files race d
  on_command-view (Command.send bytes) race d = on_send-view ssh files race bytes d
  on_command-view (Command.set_secret s) race d = refl
  on_command-view (Command.set_private_key k s) race d = refl
  on_command-view (Command.fs id op) race d = on_fs-view ssh files race id op d
  on_command-view (Command.exec id line t) race d = on_exec-view ssh files race id line t d

  on_input-view :
      (i : Input) (d : Driver P S) → view (on_input ssh files i d) ≡ serve_input i (view d)
  unfolding on_input
  on_input-view (Input.command c race) d = on_command-view c race d
  on_input-view (Input.pushes ev) d = refl
  on_input-view Input.drain d = on_drain-view ssh files d
  on_input-view Input.register_file_emitter d = refl
  on_input-view Input.register_task_emitter d = refl

  pub step-view :
      (i : Input) (d : Driver P S)
      → view (step ssh files i d) ≡ (if d.running then serve_input i (view d) else view d)
  unfolding step
  step-view i d = ground (arith, on_input-view i d)

  -- Over any inputs the driver answers as the service does: each file request and each side-channel
  -- command that it takes up has exactly one answer, under its own id and in the order of the
  -- requests, whether it succeeds, fails, is cancelled or is refused; and nothing else is answered.
  pub view-run : (is : List Input) (d : Driver P S) → view (run ssh files is d) ≡ serve is (view d)
  unfolding run
  view-run [] d = refl
  view-run (i ∷ is) d = view-run is (step ssh files i d) ∙ ap (serve is) (step-view i d)
