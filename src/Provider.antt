-- ===== src/Provider.antt =====
-- rust-core/src/provider.rs: the connection parameters, the events of a provider, the transport
-- interface and the factory. `P` is a provider's state and `S` that of a file provider.
use research_ssh_next.Prelude.{ℕ, Text, Bytes, Bool, List, Option, codes, if◌then◌else◌}
use research_ssh_next.Core.{RsErrorCode, CoreError, CoreResult, done, fail, with_detail}
use research_ssh_next.Event.{ExecOutput}

pub data RsProviderKind : Type 0 where
  mock russh : RsProviderKind

pub record ConnectionConfig : Type 0 where
  pub host : Text
  pub port : ℕ
  pub username : Text
  pub kind : RsProviderKind

pub data ProviderEvent : Type 0 where
  terminal_data : Bytes → ProviderEvent
  disconnected : Text → ProviderEvent
  error : CoreError → ProviderEvent

-- A call returns its result, the provider's new state, and what it pushed into its sink.
abbrev pub Pushing : Type 0 → Type 0 → Type 0
Pushing P A = record { result : A; provider : P; pushed : List ProviderEvent }

-- `trait SshProvider`. Each `…_dropped` is the state, and what was pushed, where the future of the
-- call is dropped at one of its awaits.
pub record SshProvider (P S : Type 0) : Type 0 where
  pub set_secret : Bytes → P → P
  pub set_private_key : Option Text → Option Bytes → P → P
  pub take_file_provider : P → Option S × P
  pub connect : P → Pushing P (CoreResult (Unit {0}))
  pub send : Bytes → P → Pushing P (CoreResult (Unit {0}))
  pub exec : Text → ℕ → P → CoreResult ExecOutput × P
  pub disconnect : P → P
  pub connect_dropped : P → Pushing P (Unit {0})
  pub send_dropped : Bytes → P → Pushing P (Unit {0})
  pub exec_dropped : Text → ℕ → P → P
  pub disconnect_dropped : P → P

-- `create_provider`, where `has_russh` says whether the feature is compiled in.
unfoldable pub create_provider :
    {P : Type 0}
    → Bool
    → (ConnectionConfig → P)
    → (ConnectionConfig → P)
    → ConnectionConfig
    → CoreResult P
create_provider has_russh new_mock new_russh config = elim config.kind [
  | RsProviderKind.mock ↦ done (new_mock config)
  | RsProviderKind.russh ↦
      if has_russh
      then done (new_russh config)
      else fail (
          with_detail RsErrorCode.provider_unavailable
            (codes "russh provider not compiled in; build with --features russh"))
]

-- `create_file_provider`, a reserved factory.
unfoldable pub create_file_provider : {S : Type 0} → RsProviderKind → CoreResult S
create_file_provider kind = fail (
    with_detail RsErrorCode.provider_unavailable
      (codes "standalone file provider factory is unavailable; file capability is session-owned"))
