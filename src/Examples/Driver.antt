-- ===== src/Examples/Driver.antt =====
-- Runs of the session driver over the mock provider.
use research_ssh_next.Prelude.{Text, Bytes, ◌≡◌, refl, List, [], ◌∷◌, codes, starts_with, text_eq}
use research_ssh_next.Core.{RsErrorCode}
use research_ssh_next.Fs.{FsOp, FilePayload}
use research_ssh_next.Provider.{ConnectionConfig, RsProviderKind, ProviderEvent}
use research_ssh_next.MockFs.{MockFs, mock_file_provider}
use research_ssh_next.Mock.Provider.{MockProvider, mock_provider, new_mock, is_unreachable}
use research_ssh_next.Mock.Reconnect.{no_files_after_reconnect}
use research_ssh_next.Session.Driver.{Driver, Input, Command, finishes, dropped, start, run_fs_op}
use research_ssh_next.Session.Handlers.{run}
use research_ssh_next.Session.Transitions.{IsConsistent}
use research_ssh_next.Session.Transitions.Life.{run-start-IsConsistent}
use research_ssh_next.Session.Answers.{serve, view-run}
use research_ssh_next.Session.Answers.Keeps.{view}

-- The typed bytes of these runs are ASCII.
abbrev ascii : Bytes → Text
ascii bytes = bytes

abbrev config : ConnectionConfig
config = record {
  host = codes "gpu";
  port = 22;
  username = codes "ada";
  kind = RsProviderKind.mock;
}

abbrev session : List Input
session =
    Input.register_file_emitter
    ∷ Input.command Command.connect finishes
    ∷ Input.drain
    ∷ Input.command (Command.fs 1 (FsOp.list [])) finishes
    ∷ Input.command (Command.fs 2 (FsOp.mkdir (codes "/x"))) dropped
    ∷ Input.pushes (ProviderEvent.disconnected (codes "closed"))
    ∷ Input.drain
    ∷ Input.command (Command.fs 3 (FsOp.stat [])) finishes
    ∷ []

run-start-IsConsistent_example :
    IsConsistent (run (mock_provider ascii) mock_file_provider session (start (new_mock config)))
run-start-IsConsistent_example =
    run-start-IsConsistent (mock_provider ascii) mock_file_provider session (new_mock config)

abbrev first : Driver MockProvider MockFs
unfolding start
first = start (new_mock config)

view-run_example :
    view (run (mock_provider ascii) mock_file_provider session first) ≡ serve session (view first)
view-run_example = view-run (mock_provider ascii) mock_file_provider session first

no_files_after_reconnect_example :
    (run_fs_op mock_file_provider
      (run
        (mock_provider ascii)
        mock_file_provider
        (Input.command Command.connect finishes
          ∷ Input.command Command.disconnect finishes
          ∷ Input.command Command.connect finishes
          ∷ [])
        (start (new_mock config))).file_provider
      7
      (FsOp.list [])).0
    ≡ record {
      request_id = 7;
      payload =
          FilePayload.error RsErrorCode.provider_unavailable
            (codes "file transfer unavailable: SFTP subsystem is not available for this session");
    }
unfolding is_unreachable starts_with text_eq
no_files_after_reconnect_example =
    no_files_after_reconnect ascii config (Input.command Command.connect finishes ∷ []) 7
      (FsOp.list []) refl
