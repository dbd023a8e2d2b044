-- ===== src/Core.antt =====
-- rust-core/src/lib.rs: the stable error codes, the error type and the result alias.
use research_ssh_next.Prelude.{Text, Option, none, some, codes, ◌++◌}

pub data RsErrorCode : Type 0 where
  ok null_argument invalid_utf8 invalid_state provider_unavailable : RsErrorCode
  connect_failed not_connected cancelled runtime_error panic internal : RsErrorCode

-- `RsErrorCode::message`
unfoldable pub message_of : RsErrorCode → Text
message_of RsErrorCode.ok = codes "ok"
message_of RsErrorCode.null_argument = codes "a required pointer argument was null"
message_of RsErrorCode.invalid_utf8 = codes "argument was not valid UTF-8"
message_of RsErrorCode.invalid_state = codes "operation invalid in current session state"
message_of RsErrorCode.provider_unavailable =
    codes "requested provider or capability is unavailable"
message_of RsErrorCode.connect_failed = codes "failed to establish the connection"
message_of RsErrorCode.not_connected = codes "session is not connected"
message_of RsErrorCode.cancelled = codes "operation was cancelled"
message_of RsErrorCode.runtime_error = codes "async runtime error"
message_of RsErrorCode.panic = codes "a panic was caught at the FFI boundary"
message_of RsErrorCode.internal = codes "internal error"

pub record CoreError : Type 0 where
  pub code : RsErrorCode
  pub detail : Option Text

-- `CoreError::new`
abbrev pub new_error : RsErrorCode → CoreError
new_error c = record { code = c; detail = none }

abbrev pub with_detail : RsErrorCode → Text → CoreError
with_detail c d = record { code = c; detail = some d }

-- `CoreError::message`
unfoldable pub error_message : CoreError → Text
unfolding message_of
error_message e = elim e.detail [ none ↦ message_of e.code | some d ↦ d ]

-- The name of a code, as `{:?}` prints it.
unfoldable pub code_name : RsErrorCode → Text
code_name RsErrorCode.ok = codes "Ok"
code_name RsErrorCode.null_argument = codes "NullArgument"
code_name RsErrorCode.invalid_utf8 = codes "InvalidUtf8"
code_name RsErrorCode.invalid_state = codes "InvalidState"
code_name RsErrorCode.provider_unavailable = codes "ProviderUnavailable"
code_name RsErrorCode.connect_failed = codes "ConnectFailed"
code_name RsErrorCode.not_connected = codes "NotConnected"
code_name RsErrorCode.cancelled = codes "Cancelled"
code_name RsErrorCode.runtime_error = codes "RuntimeError"
code_name RsErrorCode.panic = codes "Panic"
code_name RsErrorCode.internal = codes "Internal"

-- `fmt::Display` of an error.
unfoldable pub display : CoreError → Text
unfolding message_of code_name
display e = elim e.detail [
  | some d ↦ d ++ (codes " (" ++ (code_name e.code ++ codes ")"))
  | none ↦ message_of e.code
]

pub data CoreResult {ℓ} (A : Type ℓ) : Type ℓ where
  done : A → CoreResult A
  fail : CoreError → CoreResult A
