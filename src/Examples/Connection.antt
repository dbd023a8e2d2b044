-- ===== src/Examples/Connection.antt =====
-- The theorems on connections over russh, at a network that grants all it is asked for.
use research_ssh_next.Prelude.{
  text_eq, is_some, ℕ, suc, Text, true, false, ◌≡◌, refl, List, [], ◌∷◌, ◌++◌, none, some, codes,
  starts_with,
}
use research_ssh_next.Core.{RsErrorCode, CoreResult, done, fail, new_error}
use research_ssh_next.Event.{connected, disconnected, no_status}
use research_ssh_next.Fs.{FileProvider}
use research_ssh_next.Provider.{ConnectionConfig, RsProviderKind, ProviderEvent}
use research_ssh_next.Session.Driver.{Driver, Input, Command, finishes, start}
use research_ssh_next.Session.Handlers.{run}
use research_ssh_next.Russh.Auth.{Server, try_publickey_auth, load_error, accepts}
use research_ssh_next.Russh.Keys.{Platform}
use research_ssh_next.Russh.Sftp.{Sftp}
use research_ssh_next.Russh.Sftp.Server.{Reply, answer, refusal}
use research_ssh_next.Russh.Exec.{ChannelMsg, collect, no_output}
use research_ssh_next.Russh.Exec.Output.{
  until_close, stdout_of, stderr_of, stream, last_status, collect_lem,
}
use research_ssh_next.Russh.Network.{Network}
use research_ssh_next.Russh.Provider.{
  RusshProvider, new_russh, russh_provider, connect, disconnect, set_secret, send,
  take_file_provider,
}
use research_ssh_next.Russh.Provider.Accepted.{IsLoggedIn, connect-IsLoggedIn}
use research_ssh_next.Russh.Provider.Stale.{stale_event_orphans}
use research_ssh_next.Session.Stale.{stale_inputs}
use research_ssh_next.Russh.Provider.Handles.{is_backed, run-new_russh}

abbrev messages : List ChannelMsg
messages =
    ChannelMsg.bytes (codes "a")
    ∷ ChannelMsg.extended_data 1 (codes "e")
    ∷ ChannelMsg.exit_status 3
    ∷ ChannelMsg.bytes (codes "b")
    ∷ ChannelMsg.close
    ∷ ChannelMsg.bytes (codes "c")
    ∷ []

collect_lem_example : collect messages no_output ≡ record {
  stdout = stream stdout_of (until_close messages);
  stderr = stream stderr_of (until_close messages);
  exit_status = last_status no_status (until_close messages);
}
collect_lem_example = collect_lem messages

collected :
    collect messages no_output ≡ record { stdout = codes "ab"; stderr = codes "e"; exit_status = 3 }
unfolding collect
collected = refl

-- A machine without a home directory.
abbrev os : Platform
os = record {
  same_path = text_eq;
  home_dir = none;
  join = λ a b. a ++ b;
  is_absolute = starts_with (codes "/");
  is_file = λ p. false;
  read_to_string = λ p. none;
}

abbrev auth : Server Text ℕ
auth = record {
  load_secret_key = λ path phrase. load_error (codes "no file");
  authenticate_publickey = λ user key n. (accepts, suc n);
  authenticate_password = λ user password n. (accepts, suc n);
  from_utf8 = λ bytes. some bytes;
}

-- A request that is granted; the state counts them, and handles are numbers.
abbrev granted : {A : Type 0} → A → ℕ → Reply A × ℕ
granted a n = (answer a, suc n)

abbrev network : Network ℕ ℕ ℕ ℕ ℕ Text
network = record {
  client_connect = λ config n. granted n n;
  auth = λ session. auth;
  channel_open_session = λ session n. granted n n;
  request_pty = λ channel. granted tt;
  request_shell = λ channel. granted tt;
  spawn_reader = λ channel n. (n, suc n);
  request_sftp = λ channel n. (refusal (codes "no subsystem"), suc n);
  new_sftp = λ channel n. granted n n;
  sftp_in_time = λ session n. true;
  sftp_dropped = λ session n. n;
  write_all = λ channel bytes. granted tt;
  flush = λ channel. granted tt;
  exec = λ channel line. granted tt;
  messages = λ channel n. (messages, n);
  exec_in_time = λ session line timeout_ms n. true;
  exec_dropped = λ session line n. n;
  shutdown = λ channel n. n;
  abort = λ task n. n;
  disconnect = λ session n. n;
  connect_dropped = λ n. n;
  send_dropped = λ n. n;
  stops_at_shutdown = λ n. false;
  shutdown_dropped = λ channel n. n;
  disconnect_dropped = λ session n. n;
}

abbrev config : ConnectionConfig
config = record {
  host = codes "gpu";
  port = 22;
  username = codes "ada";
  kind = RsProviderKind.russh;
}

abbrev log_in : List Input
log_in =
    Input.command (Command.set_secret (codes "pw")) finishes
    ∷ Input.command Command.connect finishes
    ∷ Input.command (Command.send (codes "ls")) finishes
    ∷ []

abbrev no_files : {A : Type 0} → Sftp ℕ → CoreResult A × Sftp ℕ
no_files s = (fail (new_error RsErrorCode.internal), s)

abbrev files : FileProvider (Sftp ℕ)
files = record {
  list_dir = λ p. no_files;
  stat = λ p. no_files;
  read_file = λ p n. no_files;
  write_file = λ p bytes. no_files;
  rename = λ p q. no_files;
  remove = λ p recursive. no_files;
  mkdir = λ p. no_files;
  dropped = λ op s. s;
  copy = λ p q. no_files;
}

run-new_russh_example :
    is_backed network os files
      (run (russh_provider network os) files log_in (start (new_russh network os 0 config)))
    ≡ true
run-new_russh_example = run-new_russh network os files 0 config log_in

logged_in :
    (run (russh_provider network os) files log_in (start (new_russh network os 0 config))).state
    ≡ connected
unfolding run start new_russh connect set_secret send take_file_provider try_publickey_auth
logged_in = refl

abbrev waiting : RusshProvider ℕ ℕ ℕ ℕ ℕ
unfolding new_russh set_secret
waiting = set_secret network os (codes "pw") (new_russh network os 0 config)

connects : (connect network os waiting).result ≡ done tt
unfolding connect try_publickey_auth waiting
connects = refl

connect-IsLoggedIn_example :
    (session : ℕ) × (n : ℕ) × (n' : ℕ) × (network.client_connect config 0 ≡ (answer session, n))
    × IsLoggedIn network os waiting session n n'
    × ((connect network os waiting).provider.session ≡ some session)
unfolding waiting
connect-IsLoggedIn_example = connect-IsLoggedIn network os waiting connects

-- The shell ends, the session shows Disconnected, and a disconnect then leaves the connection open.
abbrev shell_exits : List Input
shell_exits =
    Input.pushes (ProviderEvent.disconnected (codes "connection closed"))
    ∷ Input.drain
    ∷ Input.command Command.disconnect finishes
    ∷ []

left_open :
    (run
      (russh_provider network os)
      files
      (log_in ++ shell_exits)
      (start (new_russh network os 0 config))).provider.session
    ≡ some 0
unfolding run start new_russh connect set_secret send take_file_provider try_publickey_auth
left_open = refl

-- The same over an event of the connection before.
abbrev open_driver : Driver (RusshProvider ℕ ℕ ℕ ℕ ℕ) (Sftp ℕ)
open_driver = record {
  state = connected;
  provider = waiting;
  file_provider = none;
  queue = [];
  has_file_emitter = false;
  has_task_emitter = false;
  running = true;
  batches = [];
  file_results = [];
  task_results = [];
}

connects_again : (connect network os (disconnect network os waiting)).result ≡ done tt
unfolding connect disconnect try_publickey_auth waiting
connects_again = refl

stale_event_orphans_example :
    ((run
        (russh_provider network os)
        files
        (stale_inputs (codes "connection closed") (codes "$ " ∷ []))
        open_driver).state
      ≡ disconnected)
    × (is_some
          (run
            (russh_provider network os)
            files
            (stale_inputs (codes "connection closed") (codes "$ " ∷ []))
            open_driver).provider.session
        ≡ true)
stale_event_orphans_example =
    stale_event_orphans network os files open_driver (codes "connection closed") (codes "$ " ∷ [])
      refl refl refl connects_again
