-- ===== src/Russh/Auth.antt =====
-- providers/russh.rs: the host-key decision and the order of authentication. What russh and the
-- platform answer is a parameter.
pub mod Tried
pub mod Order
pub mod HostKey
use research_ssh_next.Prelude.{
  ℕ, zero, suc, ◌+◌, Text, Bytes, Bool, true, false, not, ◌&&◌, List, [], ◌∷◌, ◌++◌, ◌==◌, ltb,
  Option, none, some, codes, if◌then◌else◌, decimal, is_some,
}
use mathlib.Core.Option
use research_ssh_next.Core.{RsErrorCode, CoreError, CoreResult, done, fail, with_detail}

-- `check_known_hosts`: the key is there, the host is not, or the key has changed or cannot be read.
pub data KnownHost : Type 0 where
  matches unknown refused : KnownHost

-- What a check decides, the prompt that it showed, and whether the key was appended to the file of
-- known hosts.
pub record HostCheck : Type 0 where
  pub accepted : Bool
  pub prompted : Option Text
  pub learned : Bool

-- `check_server_key`, where `gate` is how the user answers a prompt, if there is a gate, and `appends`
-- says whether `learn_known_hosts` would succeed: its result is discarded.
unfoldable pub check_server_key :
    KnownHost → Option (Text → Bool) → Bool → Text → Text → ℕ → HostCheck
unfolding decimal
check_server_key matches gate appends fingerprint host port = record {
  accepted = true;
  prompted = none;
  learned = false;
}
check_server_key refused gate appends fingerprint host port = record {
  accepted = false;
  prompted = none;
  learned = false;
}
check_server_key unknown none appends fingerprint host port = record {
  accepted = false;
  prompted = none;
  learned = false;
}
check_server_key unknown (some ask) appends fingerprint host port =
    let prompt =
      fingerprint ++ (codes "  (" ++ (host ++ (codes ":" ++ (decimal port ++ codes ")")))) in
    record { accepted = ask prompt; prompted = some prompt; learned = ask prompt && appends }

-- The line that `learn_known_hosts` appends.
unfoldable pub known_hosts_line : Text → ℕ → Text → Text
known_hosts_line host port key =
    (if port == 22 then host else codes "[" ++ (host ++ (codes "]:" ++ decimal port)))
    ++ (codes " " ++ (key ++ 10 ∷ []))

pub data Loaded (K : Type 0) : Type 0 where
  loaded : K → Loaded K
  load_error : Text → Loaded K

pub data Answer : Type 0 where
  accepts rejects : Answer
  broken : Text → Answer

-- russh and the server: keys are loaded from files, and each attempt may change the connection.
pub record Server (K Sv : Type 0) : Type 0 where
  pub load_secret_key : Text → Option Text → Loaded K
  pub authenticate_publickey : Text → K → Sv → Answer × Sv
  pub authenticate_password : Text → Text → Sv → Answer × Sv
  pub from_utf8 : Bytes → Option Text

pub record PublicKeyAuthReport : Type 0 where
  pub authenticated : Bool
  pub attempted : ℕ
  pub fatal_load_error : Bool
  pub last_error : Option Text

abbrev pub no_report : PublicKeyAuthReport
no_report = record {
  authenticated = false;
  attempted = 0;
  fatal_load_error = false;
  last_error = none;
}

module _ {K Sv : Type 0} (server : Server K Sv) (username : Text) where
  module _ (passphrase : Option Text) (explicit_key : Bool) where
    -- The loop of `try_publickey_auth`.
    unfoldable pub try_publickey_auth :
        List Text → PublicKeyAuthReport → Sv → PublicKeyAuthReport × Sv
    try_publickey_auth [] report sv = (report, sv)
    try_publickey_auth (path ∷ paths) report sv =
        let tried = record report { attempted = report.attempted + 1 } in
        elim (server.load_secret_key path passphrase) [
          | load_error e ↦
              (let noted = record tried {
                last_error =
                    some (codes "private key load failed for " ++ (path ++ (codes ": " ++ e)));
              } in
                let rest = try_publickey_auth paths noted sv in
                if explicit_key then (record noted { fatal_load_error = true }, sv) else rest)
          | loaded key ↦
              (let (answer, sv') = server.authenticate_publickey username key sv in
                elim answer [
                  | accepts ↦ (record tried { authenticated = true }, sv')
                  | rejects ↦
                      try_publickey_auth paths
                        (record tried {
                          last_error =
                              some (codes "public-key authentication rejected for " ++ path);
                        })
                        sv'
                  | broken e ↦
                      try_publickey_auth paths
                        (record tried {
                          last_error = some (
                              codes "public-key authentication failed for "
                              ++ (path ++ (codes ": " ++ e)));
                        })
                        sv'
                ])
        ]

  unfoldable pub password_done : Answer → CoreResult Bool
  password_done accepts = done true
  password_done rejects = done false
  password_done (broken e) = fail (with_detail RsErrorCode.connect_failed (codes "auth: " ++ e))

  -- The fallback: nothing without a password, an error where it is not UTF-8.
  unfoldable pub try_password : Option Bytes → Sv → CoreResult Bool × Sv
  unfolding password_done
  try_password none sv = (done false, sv)
  try_password (some secret) sv = elim (server.from_utf8 secret) [
    | none ↦
        (fail (with_detail RsErrorCode.connect_failed (codes "password is not valid UTF-8")), sv)
    | some password ↦
        (let (answer, sv') = server.authenticate_password username password sv in
          (password_done answer, sv'))
  ]

unfoldable pub failure_detail : PublicKeyAuthReport → Bool → Text
failure_detail report tried_password =
    if ltb 0 report.attempted
    then (if tried_password
        then (elim report.last_error [
          | some e ↦ codes "authentication failed (public-key: " ++ (e ++ codes "; password)")
          | none ↦ codes "authentication failed (public-key and password)"
        ])
        else Option.get_or report.last_error (codes "authentication failed (public-key)"))
    else if tried_password
    then codes "authentication failed (password)"
    else codes "no usable key or password"

module _ {K Sv : Type 0} (server : Server K Sv) (username : Text) where
  unfoldable pub conclude :
      PublicKeyAuthReport → Option Bytes → CoreResult Bool × Sv → CoreResult (Unit {0}) × Sv
  unfolding failure_detail
  conclude report secret (fail e, sv) = (fail e, sv)
  conclude report secret (done true, sv) = (done tt, sv)
  conclude report secret (done false, sv) =
      (fail (with_detail RsErrorCode.connect_failed (failure_detail report (is_some secret))), sv)

  unfoldable pub after_keys : Option Bytes → PublicKeyAuthReport × Sv → CoreResult (Unit {0}) × Sv
  unfolding conclude try_password
  after_keys secret (report, sv) =
      if report.fatal_load_error
      then (
        fail (
            with_detail RsErrorCode.connect_failed
              (Option.get_or report.last_error (codes "private key load failed"))),
        sv,
      )
      else if report.authenticated
      then (done tt, sv)
      else conclude report secret (try_password server username secret sv)

  unfoldable pub passphrase_text : Option Bytes → CoreResult (Option Text)
  passphrase_text none = done none
  passphrase_text (some bytes) = elim (server.from_utf8 bytes) [
    | none ↦
        fail (with_detail RsErrorCode.connect_failed (codes "key passphrase is not valid UTF-8"))
    | some text ↦ done (some text)
  ]

  -- The part of `connect` between the handshake and the channel. With no candidates
  -- `try_publickey_auth` gives the empty report, as skipping it does.
  unfoldable pub authenticate :
      List Text → Bool → Option Bytes → Option Bytes → Sv → CoreResult (Unit {0}) × Sv
  unfolding passphrase_text after_keys
  authenticate candidates explicit_key passphrase secret sv = elim (passphrase_text passphrase) [
    | fail e ↦ (fail e, sv)
    | done phrase ↦
        after_keys secret
          (try_publickey_auth server username phrase explicit_key candidates no_report sv)
  ]
