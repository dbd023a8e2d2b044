-- ===== src/Russh/Network.antt =====
-- providers/russh.rs: what russh, tokio and the server do for the backend, a parameter, and the
-- steps of `RusshProvider` over it.
use research_ssh_next.Prelude.{
  ℕ, Text, Bytes, Bool, List, [], ◌∷◌, ◌++◌, ◌==◌, Option, none, some, codes, is_some, decimal,
  if◌then◌else◌,
}
use research_ssh_next.Core.{RsErrorCode, CoreError, CoreResult, done, fail, with_detail}
use research_ssh_next.Event.{ExecOutput}
use research_ssh_next.Provider.{ConnectionConfig, ProviderEvent}
use research_ssh_next.Russh.Keys.{Platform, keys_in_dir}
use research_ssh_next.Russh.Auth.{Server, authenticate}
use research_ssh_next.Russh.Sftp.{Sftp}
use research_ssh_next.Russh.Sftp.Server.{Reply, answer, refusal}
use research_ssh_next.Russh.Exec.{ChannelMsg, connect_err, collect, no_output}

-- Sessions `S`, channels `C`, reader tasks `T`, SFTP sessions `F` and keys `K`, over a network in a
-- state `N`. Each `…_in_time` says whether a bounded call ends before its timeout, and each
-- `…_dropped` is the state where its future is dropped.
pub record Network (N S C T F K : Type 0) : Type 0 where
  pub client_connect : ConnectionConfig → N → Reply S × N
  pub auth : S → Server K N
  pub channel_open_session : S → N → Reply C × N
  pub request_pty : C → N → Reply (Unit {0}) × N
  pub request_shell : C → N → Reply (Unit {0}) × N
  pub spawn_reader : C → N → T × N
  pub request_sftp : C → N → Reply (Unit {0}) × N
  pub new_sftp : C → N → Reply F × N
  pub sftp_in_time : S → N → Bool
  pub sftp_dropped : S → N → N
  pub write_all : C → Bytes → N → Reply (Unit {0}) × N
  pub flush : C → N → Reply (Unit {0}) × N
  pub exec : C → Text → N → Reply (Unit {0}) × N
  pub messages : C → N → List ChannelMsg × N
  pub exec_in_time : S → Text → ℕ → N → Bool
  pub exec_dropped : S → Text → N → N
  pub shutdown : C → N → N
  pub abort : T → N → N
  pub disconnect : S → N → N
  pub connect_dropped : N → N
  pub send_dropped : N → N
  pub stops_at_shutdown : N → Bool
  pub shutdown_dropped : C → N → N
  pub disconnect_dropped : S → N → N

-- A step fails or returns a value, and leaves the network in a state.
abbrev pub Step : Type 0 → Type 0 → Type 0
Step N A = N → CoreResult A × N

infixl 5 ◌>>=◌ ◌>>◌
abbrev pub ◌>>=◌ : {N A B : Type 0} → Step N A → (A → Step N B) → Step N B
◌>>=◌ m f n = let (r, n') = m n in elim r [ done a ↦ f a n' | fail e ↦ (fail e, n') ]

abbrev pub ◌>>◌ : {N B : Type 0} → Step N (Unit {0}) → Step N B → Step N B
◌>>◌ m k = m >>= λ _. k

abbrev pub pure : {N A : Type 0} → A → Step N A
pure a n = (done a, n)

-- `map_err` and `?` on an answer of the network.
abbrev pub or_error : {N A : Type 0} → (Text → CoreError) → (N → Reply A × N) → Step N A
or_error error request n =
    let (r, n') = request n in elim r [ answer a ↦ (done a, n') | refusal e ↦ (fail (error e), n') ]

abbrev pub runtime_err : Text → Text → CoreError
runtime_err stage e = with_detail RsErrorCode.runtime_error (stage ++ (codes ": " ++ e))

-- What one `read` of the shell's channel returns.
pub data ReadResult : Type 0 where
  got : Bytes → ReadResult
  broken : Text → ReadResult

-- The reader task: what it emits for the results of its reads, of which an empty one ends it.
unfoldable pub read_loop : List ReadResult → List ProviderEvent
read_loop [] = []
read_loop (got [] ∷ rs) = ProviderEvent.disconnected (codes "connection closed") ∷ []
read_loop (got (b ∷ bs) ∷ rs) = ProviderEvent.terminal_data (b ∷ bs) ∷ read_loop rs
read_loop (broken e ∷ rs) = ProviderEvent.error (runtime_err (codes "read") e) ∷ []

-- What a connection consists of, once it is made.
pub record Opened (S C T F : Type 0) : Type 0 where
  pub session : S
  pub writer : C
  pub read_task : T
  pub file_provider : Option (Sftp F)

-- The keys to try: an explicit path, or those of `~/.ssh`.
unfoldable pub candidate_keys : Platform → ConnectionConfig → Option Text → List Text
candidate_keys os config (some path) = path ∷ []
candidate_keys os config none = elim os.home_dir [
  | none ↦ []
  | some home ↦ keys_in_dir os (os.join home (codes ".ssh")) config.host config.username config.port
]

module _ {N S C T F K : Type 0} (net : Network N S C T F K) where
  -- The block `open_sftp`, where `.ok()?` makes `none` of an error.
  unfoldable pub open_sftp : S → Step N F
  unfolding connect_err
  open_sftp session = do
    channel ← or_error (connect_err (codes "sftp")) (net.channel_open_session session)
    or_error (connect_err (codes "sftp")) (net.request_sftp channel)
    or_error (connect_err (codes "sftp")) (net.new_sftp channel)

  unfoldable pub try_sftp : S → Step N (Option (Sftp F))
  unfolding open_sftp
  try_sftp session n =
      if net.sftp_in_time session n
      then (let (r, n') = open_sftp session n in
          elim r [
            | done f ↦ (done (some (record { server = f; home = none })), n')
            | fail e ↦ (done none, n')
          ])
      else (done none, net.sftp_dropped session n)

  unfoldable pub spawn_read_task : C → Step N T
  spawn_read_task channel n = let (task, n') = net.spawn_reader channel n in (done task, n')

  -- The shell and the files of an authenticated session.
  unfoldable pub open_shell : S → Step N (Opened S C T F)
  unfolding connect_err try_sftp spawn_read_task
  open_shell session = do
    channel ← or_error (connect_err (codes "open channel")) (net.channel_open_session session)
    or_error (connect_err (codes "request pty")) (net.request_pty channel)
    or_error (connect_err (codes "request shell")) (net.request_shell channel)
    task ← spawn_read_task channel
    files ← try_sftp session
    pure (record { session = session; writer = channel; read_task = task; file_provider = files })

  -- The body of `connect`, up to the assignments to `self`.
  unfoldable pub open_connection :
      Platform
      → ConnectionConfig
      → Option Text
      → Option Bytes
      → Option Bytes
      → Step N (Opened S C T F)
  unfolding connect_err candidate_keys authenticate open_shell
  open_connection os config key_path passphrase secret = do
    session ← or_error (connect_err (codes "connect")) (net.client_connect config)
    authenticate (net.auth session) config.username (candidate_keys os config key_path)
        (is_some key_path) passphrase secret
    open_shell session

  unfoldable pub write_line : C → Bytes → Step N (Unit {0})
  write_line writer bytes = do
    or_error (runtime_err (codes "write")) (net.write_all writer bytes)
    or_error (runtime_err (codes "flush")) (net.flush writer)

  unfoldable pub run_russh_exec : S → Text → Step N ExecOutput
  unfolding connect_err collect
  run_russh_exec session line = do
    channel ← or_error (connect_err (codes "exec open channel")) (net.channel_open_session session)
    or_error (connect_err (codes "exec request")) (net.exec channel line)
    (λ n. let (messages, n') = net.messages channel n in (done (collect messages no_output), n'))

  unfoldable pub exec_within : S → Text → ℕ → Step N ExecOutput
  unfolding run_russh_exec decimal
  exec_within session line timeout_ms n =
      if net.exec_in_time session line (if timeout_ms == 0 then 1 else timeout_ms) n
      then run_russh_exec session line n
      else (
        fail (
            with_detail RsErrorCode.cancelled
              (codes "command timed out after " ++ (decimal timeout_ms ++ codes " ms"))),
        net.exec_dropped session line n,
      )
