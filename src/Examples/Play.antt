-- ===== src/Examples/Play.antt =====
-- The theorems on a handle beside its driver, at sessions over the mock.
use research_ssh_next.Prelude.{
  map_all, Text, Bytes, true, ap, insert, erase, ◌≡◌, refl, List, [], ◌∷◌, ◌++◌, map, Option, none,
  some, codes, contains, ◌↔◌, ◌⊎◌, arith, lookup, text_eq,
}
use research_ssh_next.Fs.{FsOp, FileEntry, FilePayload}
use research_ssh_next.Provider.{ConnectionConfig, RsProviderKind, ProviderEvent}
use research_ssh_next.MockFs.{
  mkdir, write_file, remove, MockFs, mock_file_provider, seeded, dir_prefix, resolve,
}
use research_ssh_next.MockFs.Contents.Children.{In, IsChildDir, IsChildFile}
use research_ssh_next.MockFs.Reached.{IsMap, run_ops, run_ops-listing}
use research_ssh_next.Mock.Provider.{MockProvider, mock_provider, new_mock}
use research_ssh_next.Session.Driver.{
  Driver, Input, Command, Race, finishes, dropped, start, run_fs_op,
}
use research_ssh_next.Session.Handlers.{run}
use research_ssh_next.Session.Answers.{view-run}
use research_ssh_next.Session.Answers.Keeps.{View}
use research_ssh_next.Session.Conserved.{queued}
use research_ssh_next.Session.Conserved.Runs.{pushed_during}
use research_ssh_next.Ffi.Calls.Requests.{Call}
use research_ssh_next.Ffi.InBounds.{emit_each}
use research_ssh_next.Ffi.Events.{emit_batch, RsEvent, Emitter, new_emitter}
use research_ssh_next.Event.{connected}
use research_ssh_next.MockFs.Contents.Files.{mock_file_provider-ReadsBack}
use research_ssh_next.Fs.ReadsBack.{capped}
use research_ssh_next.Session.Saved.Loaded.{save_and_read, saved_results}
use research_ssh_next.Ffi.Files.{RsFsResult, emit_file_results}
use research_ssh_next.Ffi.Files.Delivery.{read_result, sanitized}
use research_ssh_next.System.Delivered.{flatten}
use research_ssh_next.System.Saved.{save_and_read-callback}
use research_ssh_next.System.{hand_over, Action, registered, play}
use research_ssh_next.System.Answered.{IsAnswered, play-IsAnswered}
use research_ssh_next.System.Terminal.{callback_bytes, start-callback_bytes}

-- The strings of these runs are ASCII.
abbrev ascii : Bytes → Text
ascii bytes = bytes

abbrev from_utf8 : Bytes → Option Text
from_utf8 bytes = some bytes

abbrev config : ConnectionConfig
config = record {
  host = codes "gpu";
  port = 22;
  username = codes "ada";
  kind = RsProviderKind.mock;
}

-- The third request has a null path, and so no id.
abbrev todo : List Action
todo =
    Action.connect
    ∷ Action.turn finishes
    ∷ Action.request (Call.fs_list (some []))
    ∷ Action.request (Call.run (some (codes "df")) 1000)
    ∷ Action.request (Call.fs_stat none)
    ∷ Action.turn dropped
    ∷ Action.drain
    ∷ Action.disconnect
    ∷ Action.request (Call.fs_mkdir (some (codes "/x")))
    ∷ []

abbrev races : List Race
races =
    finishes ∷ dropped ∷ finishes ∷ finishes ∷ finishes ∷ dropped ∷ finishes ∷ dropped ∷ finishes
    ∷ []

play-IsAnswered_example : IsAnswered (
    play
      (mock_provider ascii)
      mock_file_provider
      from_utf8
      (todo ++ map Action.turn races)
      (registered (new_mock config)))
play-IsAnswered_example =
    play-IsAnswered (mock_provider ascii) mock_file_provider from_utf8 (new_mock config) todo races
      (omega arith) (omega arith)

ids_returned :
    (play
      (mock_provider ascii)
      mock_file_provider
      from_utf8
      todo
      (registered (new_mock config))).returned
    ≡ 1 ∷ 2 ∷ 0 ∷ 3 ∷ []
unfolding play registered
ids_returned = refl

-- Terminal bytes come from the banner, the echo, and the network.
abbrev inputs : List Input
inputs =
    Input.command Command.connect finishes
    ∷ Input.command (Command.send (codes "df")) finishes
    ∷ Input.drain
    ∷ Input.pushes (ProviderEvent.terminal_data (7 ∷ 8 ∷ []))
    ∷ Input.command (Command.send (codes "squeue")) dropped
    ∷ Input.pushes (ProviderEvent.disconnected (codes "closed"))
    ∷ Input.pushes (ProviderEvent.terminal_data (9 ∷ []))
    ∷ []

start-callback_bytes_example :
    (em : Emitter RsEvent) × (emit_each emit_batch
        (run
          (mock_provider ascii)
          mock_file_provider
          (inputs ++ Input.drain ∷ [])
          (start (new_mock config))).batches
        new_emitter
      ≡ some em)
    × (callback_bytes em
        ≡ queued (
            pushed_during
              (mock_provider ascii)
              mock_file_provider
              inputs
              (start (new_mock config))))
unfolding start
start-callback_bytes_example =
    start-callback_bytes (mock_provider ascii) mock_file_provider (new_mock config) inputs (
      ap (λ (v : View). v.running)
        (view-run (mock_provider ascii) mock_file_provider inputs (start (new_mock config))))

-- Some of these requests fail.
abbrev requests : List FsOp
requests =
    FsOp.mkdir (codes "/home/researcher/new")
    ∷ FsOp.write (codes "/home/researcher/new/a.txt") (1 ∷ [])
    ∷ FsOp.remove (codes "/missing") true
    ∷ []

abbrev reached : MockFs
unfolding run_ops
reached = run_ops requests seeded

abbrev new : Text
new = codes "/home/researcher/new"

run_ops-listing_example :
    (es : List FileEntry) × (run_fs_op mock_file_provider (some reached) 4 (FsOp.list new)
      ≡ (record { request_id = 4; payload = FilePayload.listing es }, some reached))
    × IsMap reached
    × ((e : FileEntry)
        → In e es ↔ (
            IsChildDir (dir_prefix new) reached.dirs e
            ⊎ IsChildFile (dir_prefix new) reached.files e))
unfolding run_ops seeded contains lookup text_eq resolve mkdir write_file remove insert erase
run_ops-listing_example = run_ops-listing requests new 4 refl

abbrev path : Text
path = codes "/home/researcher/notes.md"

-- A session over the mock that is connected and has answered one request.
abbrev connected_driver : Driver MockProvider MockFs
connected_driver = record {
  state = connected;
  provider = record { config = config; has_sink = true; connected = true; file_provider = none };
  file_provider = some seeded;
  queue = [];
  has_file_emitter = true;
  has_task_emitter = true;
  running = true;
  batches = [];
  file_results = record { request_id = 4; payload = FilePayload.ok } ∷ [];
  task_results = [];
}

abbrev typing : List Input
typing =
    Input.command (Command.send (codes "df")) finishes
    ∷ Input.pushes (ProviderEvent.terminal_data (7 ∷ []))
    ∷ Input.command (Command.exec 6 (codes "nvidia-smi") 1000) dropped
    ∷ Input.drain
    ∷ []

save_and_read-callback_example :
    (em : Emitter RsFsResult) × (hand_over emit_file_results
        (run
          (mock_provider ascii)
          mock_file_provider
          (save_and_read 5 7 path (1 ∷ 2 ∷ 3 ∷ []) 2 typing)
          connected_driver).file_results
        new_emitter
      ≡ some em)
    × (map_all read_result (flatten em.calls)
        ≡ some (
            map sanitized (record { request_id = 4; payload = FilePayload.ok } ∷ [])
            ++ saved_results 5 7 (capped 2 (1 ∷ 2 ∷ 3 ∷ []))))
unfolding write_file
save_and_read-callback_example =
    save_and_read-callback (mock_provider ascii) mock_file_provider mock_file_provider-ReadsBack 5 7
      path (1 ∷ 2 ∷ 3 ∷ []) 2 typing connected_driver (write_file path (1 ∷ 2 ∷ 3 ∷ []) seeded).1
      (record { runs = refl; answers = refl; has_files = refl; so_far = refl }) refl
      (tt, (tt, (tt, (tt, tt))))
