-- ===== src/Russh/Provider.antt =====
-- providers/russh.rs: `RusshProvider` and its methods.
pub mod Handles
pub mod Accepted
pub mod Stale
use research_ssh_next.Prelude.{
  ℕ, Text, Bytes, Bool, true, false, List, [], ◌∷◌, Option, none, some, or_else, if◌then◌else◌,
}
use mathlib.Core.Option
use research_ssh_next.Core.{RsErrorCode, CoreError, CoreResult, done, fail, new_error}
use research_ssh_next.Event.{ExecOutput}
use research_ssh_next.Provider.{ConnectionConfig, ProviderEvent, SshProvider, Pushing}
use research_ssh_next.Russh.Keys.{Platform}
use research_ssh_next.Russh.Sftp.{Sftp}
use research_ssh_next.Russh.Network.{
  Network, Opened, open_connection, write_line, exec_within, Step,
}

-- The fields of the provider, but the gate, with the state of the network.
pub record RusshProvider (N S C T F : Type 0) : Type 0 where
  pub config : ConnectionConfig
  pub secret : Option Bytes
  pub key_path : Option Text
  pub key_passphrase : Option Bytes
  pub session : Option S
  pub writer : Option C
  pub read_task : Option T
  pub file_provider : Option (Sftp F)
  pub network : N

module _ {N S C T F K : Type 0} (net : Network N S C T F K) (os : Platform) where
  -- `RusshProvider::new`
  unfoldable pub new_russh : N → ConnectionConfig → RusshProvider N S C T F
  new_russh n config = record {
    config = config;
    secret = none;
    key_path = none;
    key_passphrase = none;
    session = none;
    writer = none;
    read_task = none;
    file_provider = none;
    network = n;
  }

  unfoldable pub set_secret : Bytes → RusshProvider N S C T F → RusshProvider N S C T F
  set_secret secret p = record p { secret = some secret }

  unfoldable pub set_private_key :
      Option Text → Option Bytes → RusshProvider N S C T F → RusshProvider N S C T F
  set_private_key key_path passphrase p = record p {
    key_path = key_path;
    key_passphrase = passphrase;
  }

  unfoldable pub take_file_provider :
      RusshProvider N S C T F → Option (Sftp F) × RusshProvider N S C T F
  take_file_provider p = (p.file_provider, record p { file_provider = none })

  -- The assignments at the end of `connect`, or the return before them.
  unfoldable pub keep_opened :
      CoreResult (Opened S C T F) × N
      → RusshProvider N S C T F
      → Pushing (RusshProvider N S C T F) (CoreResult (Unit {0}))
  keep_opened (fail e, n) p = record {
    result = fail e;
    provider = record p { network = n };
    pushed = [];
  }
  keep_opened (done o, n) p = record {
    result = done tt;
    provider = record p {
      session = some o.session;
      writer = some o.writer;
      read_task = some o.read_task;
      file_provider = or_else o.file_provider p.file_provider;
      network = n;
    };
    pushed = [];
  }

  unfoldable pub connect :
      RusshProvider N S C T F → Pushing (RusshProvider N S C T F) (CoreResult (Unit {0}))
  unfolding keep_opened open_connection
  connect p =
      keep_opened (open_connection net os p.config p.key_path p.key_passphrase p.secret p.network) p

  unfoldable pub send :
      Bytes → RusshProvider N S C T F → Pushing (RusshProvider N S C T F) (CoreResult (Unit {0}))
  unfolding write_line
  send bytes p = elim p.writer [
    | none ↦ record {
      result = fail (new_error RsErrorCode.not_connected);
      provider = p;
      pushed = [];
    }
    | some writer ↦
        (let (r, n) = write_line net writer bytes p.network in
          record { result = r; provider = record p { network = n }; pushed = [] })
  ]

  unfoldable pub exec :
      Text → ℕ → RusshProvider N S C T F → CoreResult ExecOutput × RusshProvider N S C T F
  unfolding exec_within
  exec line timeout_ms p = elim p.session [
    | none ↦ (fail (new_error RsErrorCode.not_connected), p)
    | some session ↦
        (let (r, n) = exec_within net session line timeout_ms p.network in
          (r, record p { network = n }))
  ]

  -- `take()` and the call on what was there.
  given : {A : Type 0} → (A → N → N) → Option A → N → N
  given f none n = n
  given f (some a) n = f a n

  unfoldable pub disconnect : RusshProvider N S C T F → RusshProvider N S C T F
  unfolding given
  disconnect p = record p {
    writer = none;
    read_task = none;
    session = none;
    network =
        given net.disconnect p.session
          (given net.abort p.read_task (given net.shutdown p.writer p.network));
  }

  -- Dropped at the first await, only the writer has been taken.
  unfoldable pub disconnect_dropped : RusshProvider N S C T F → RusshProvider N S C T F
  unfolding given
  disconnect_dropped p =
      if net.stops_at_shutdown p.network
      then record p { writer = none; network = given net.shutdown_dropped p.writer p.network }
      else record p {
        writer = none;
        read_task = none;
        session = none;
        network =
            given net.disconnect_dropped p.session
              (given net.abort p.read_task (given net.shutdown p.writer p.network));
      }

  -- A call that is dropped before it returns has assigned nothing to `self`.
  abbrev pub russh_provider : SshProvider (RusshProvider N S C T F) (Sftp F)
  russh_provider = record {
    set_secret = set_secret;
    set_private_key = set_private_key;
    take_file_provider = take_file_provider;
    connect = connect;
    send = send;
    exec = exec;
    disconnect = disconnect;
    connect_dropped = λ p. record {
      result = tt;
      provider = record p { network = net.connect_dropped p.network };
      pushed = [];
    };
    send_dropped = λ bytes p. record {
      result = tt;
      provider = record p { network = net.send_dropped p.network };
      pushed = [];
    };
    exec_dropped = λ line timeout_ms p. record p {
      network = elim p.session [
        | none ↦ p.network
        | some session ↦ net.exec_dropped session line p.network
      ];
    };
    disconnect_dropped = disconnect_dropped;
  }
