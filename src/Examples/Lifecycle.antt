-- ===== src/Examples/Lifecycle.antt =====
-- The theorems on the life of a session, at one over the mock.
use research_ssh_next.Prelude.{
  Text, Bytes, true, ◌≡◌, refl, List, [], ◌∷◌, ◌++◌, Option, some, codes,
}
use research_ssh_next.Core.{RsErrorCode}
use research_ssh_next.Provider.{ConnectionConfig, RsProviderKind, ProviderEvent}
use research_ssh_next.MockFs.{MockFs, mock_file_provider}
use research_ssh_next.Mock.Provider.{MockProvider, mock_provider, new_mock}
use research_ssh_next.Session.Driver.{Driver, Input, Command, finishes, dropped, start}
use research_ssh_next.Session.Handlers.{run}
use research_ssh_next.Session.Shutdown.{IsStopOf, run_shutdown}
use research_ssh_next.Ffi.Events.{new_emitter}
use research_ssh_next.Ffi.Lifecycle.{
  RsSessionConfig, RsSession, Sinks, spawn, session_create, session_destroy,
}
use research_ssh_next.Ffi.Lifecycle.Create.{IsOutcome, described, session_create_lem}
use research_ssh_next.Ffi.Lifecycle.Destroy.{IsSilent, session_destroy-IsSilent}

-- The strings of these runs are ASCII.
abbrev ascii : Bytes → Text
ascii bytes = bytes

abbrev from_utf8 : Bytes → Option Text
from_utf8 bytes = some bytes

abbrev config : ConnectionConfig
config = record {
  host = codes "gpu";
  port = 22;
  username = codes "ada";
  kind = RsProviderKind.mock;
}

abbrev before : List Input
before = Input.command Command.connect finishes ∷ Input.drain ∷ []

abbrev later : List Input
later =
    Input.pushes (ProviderEvent.disconnected (codes "closed"))
    ∷ Input.drain
    ∷ Input.command Command.connect finishes
    ∷ []

abbrev first : Driver MockProvider MockFs
unfolding start
first = start (new_mock config)

run_shutdown_example :
    IsStopOf
      (mock_provider ascii)
      mock_file_provider
      (run (mock_provider ascii) mock_file_provider before first)
      (run
        (mock_provider ascii)
        mock_file_provider
        (before ++ Input.command Command.shutdown dropped ∷ later)
        first)
run_shutdown_example =
    run_shutdown (mock_provider ascii) mock_file_provider before dropped later first

abbrev c_config : RsSessionConfig
c_config = record {
  host = some (codes "gpu");
  port = 22;
  username = some (codes "ada");
  provider = RsProviderKind.mock;
}

session_create_lem_example :
    IsOutcome
      (described from_utf8 true (some c_config) true)
      (session_create from_utf8 true (some c_config) true)
session_create_lem_example = session_create_lem from_utf8 true (some c_config) true

created :
    session_create from_utf8 true (some c_config) true
    ≡ (some (spawn config new_emitter), RsErrorCode.ok)
unfolding session_create
created = refl

-- While the driver is awaited, it emits two batches.
abbrev awaited : RsSession → RsSession
awaited s = record s { emitter = record s.emitter { calls = s.emitter.calls ++ [] ∷ [] ∷ [] } }

abbrev new_session : RsSession
unfolding spawn
new_session = spawn config new_emitter

session_destroy-IsSilent_example :
    (sinks : Sinks) × (session_destroy awaited (some new_session) ≡ some sinks) × IsSilent sinks
session_destroy-IsSilent_example = session_destroy-IsSilent awaited new_session
