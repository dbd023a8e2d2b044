-- ===== src/Ffi/Calls.antt =====
-- ffi.rs: the entry points of the C ABI that take a session, and the checks of their arguments. A
-- pointer is `none` where it is null. What `CStr::to_str` decodes is a parameter.
pub mod Requests
use research_ssh_next.Prelude.{
  ℕ, Text, Bytes, Bool, List, [], ◌∷◌, Option, none, some, take, ◌==◌, if◌then◌else◌,
}
use research_ssh_next.Core.{RsErrorCode, CoreResult, done, fail}
use research_ssh_next.Fs.{FsOp}
use research_ssh_next.Session.Handle.{
  Session, connect, disconnect, send, set_secret, set_private_key, submit_fs, exec,
}

-- `Result<_, RsErrorCode>`
pub data Checked (A : Type 0) : Type 0 where
  good : A → Checked A
  bad : RsErrorCode → Checked A

-- The caller guarantees that the buffer has `len` bytes.
unfoldable pub bytes_to_vec : Option Bytes → ℕ → Checked Bytes
bytes_to_vec buffer len =
    if len == 0
    then good []
    else elim buffer [ none ↦ bad RsErrorCode.null_argument | some bytes ↦ good (take len bytes) ]

session_code : CoreResult (Unit {0}) → RsErrorCode
session_code (done _) = RsErrorCode.ok
session_code (fail e) = e.code

unfoldable pub with_session :
    Option Session → (Session → CoreResult (Unit {0}) × Session) → RsErrorCode × Option Session
unfolding session_code
with_session none f = (RsErrorCode.null_argument, none)
with_session (some s) f = let (r, s') = f s in (session_code r, some s')

unfoldable pub fs_with_session : Option Session → (Session → ℕ × Session) → ℕ × Option Session
fs_with_session none f = (0, none)
fs_with_session (some s) f = let (id, s') = f s in (id, some s')

unfoldable pub session_connect : Option Session → RsErrorCode × Option Session
unfolding with_session connect
session_connect session = with_session session connect

unfoldable pub session_disconnect : Option Session → RsErrorCode × Option Session
unfolding with_session disconnect
session_disconnect session = with_session session disconnect

unfoldable pub session_send : Option Bytes → ℕ → Option Session → RsErrorCode × Option Session
unfolding with_session send bytes_to_vec
session_send buffer len session = elim (bytes_to_vec buffer len) [
  | bad code ↦ (code, session)
  | good bytes ↦ with_session session (send bytes)
]

unfoldable pub session_set_password :
    Option Bytes → ℕ → Option Session → RsErrorCode × Option Session
unfolding with_session set_secret bytes_to_vec
session_set_password buffer len session = elim (bytes_to_vec buffer len) [
  | bad code ↦ (code, session)
  | good bytes ↦ with_session session (set_secret bytes)
]

module _ (from_utf8 : Bytes → Option Text) where
  unfoldable pub cstr_to_string : Option Bytes → Checked Text
  cstr_to_string none = bad RsErrorCode.null_argument
  cstr_to_string (some bytes) = elim (from_utf8 bytes) [
    | none ↦ bad RsErrorCode.invalid_utf8
    | some s ↦ good s
  ]

  -- An empty path counts as none.
  unless_empty : Text → Option Text
  unless_empty [] = none
  unless_empty (c ∷ s) = some (c ∷ s)

  unfoldable pub key_path_of : Option Bytes → Checked (Option Text)
  unfolding cstr_to_string unless_empty
  key_path_of none = good none
  key_path_of (some bytes) = elim (cstr_to_string (some bytes)) [
    | bad code ↦ bad code
    | good s ↦ good (unless_empty s)
  ]

  unfoldable pub passphrase_of : Option Bytes → ℕ → Checked (Option Bytes)
  unfolding bytes_to_vec
  passphrase_of buffer len =
      if len == 0
      then good none
      else elim (bytes_to_vec buffer len) [ bad code ↦ bad code | good bytes ↦ good (some bytes) ]

  unfoldable pub session_set_private_key :
      Option Bytes → Option Bytes → ℕ → Option Session → RsErrorCode × Option Session
  unfolding with_session set_private_key key_path_of passphrase_of
  session_set_private_key path phrase len session = elim (key_path_of path) [
    | bad code ↦ (code, session)
    | good key_path ↦ elim (passphrase_of phrase len) [
      | bad code ↦ (code, session)
      | good passphrase ↦ with_session session (set_private_key key_path passphrase)
    ]
  ]

  -- What most of the file calls do with their path.
  with_path : Option Bytes → (Text → Session → ℕ × Session) → Option Session → ℕ × Option Session
  unfolding cstr_to_string fs_with_session
  with_path path f session = elim (cstr_to_string path) [
    | bad code ↦ (0, session)
    | good p ↦ fs_with_session session (f p)
  ]

  with_paths :
      Option Bytes
      → Option Bytes
      → (Text → Text → Session → ℕ × Session)
      → Option Session
      → ℕ × Option Session
  unfolding cstr_to_string fs_with_session
  with_paths from to f session = elim (cstr_to_string from) [
    | bad code ↦ (0, session)
    | good p ↦ elim (cstr_to_string to) [
      | bad code ↦ (0, session)
      | good q ↦ fs_with_session session (f p q)
    ]
  ]

  unfoldable pub session_exec : Option Bytes → ℕ → Option Session → ℕ × Option Session
  unfolding with_path exec
  session_exec line timeout_ms session = with_path line (λ l. exec l timeout_ms) session

  unfoldable pub session_fs_list : Option Bytes → Option Session → ℕ × Option Session
  unfolding with_path submit_fs
  session_fs_list path session = with_path path (λ p. submit_fs (FsOp.list p)) session

  unfoldable pub session_fs_stat : Option Bytes → Option Session → ℕ × Option Session
  unfolding with_path submit_fs
  session_fs_stat path session = with_path path (λ p. submit_fs (FsOp.stat p)) session

  unfoldable pub session_fs_read : Option Bytes → ℕ → Option Session → ℕ × Option Session
  unfolding with_path submit_fs
  session_fs_read path max_len session =
      with_path path (λ p. submit_fs (FsOp.read p max_len)) session

  unfoldable pub session_fs_write :
      Option Bytes → Option Bytes → ℕ → Option Session → ℕ × Option Session
  unfolding cstr_to_string bytes_to_vec fs_with_session submit_fs
  session_fs_write path buffer len session = elim (cstr_to_string path) [
    | bad code ↦ (0, session)
    | good p ↦ elim (bytes_to_vec buffer len) [
      | bad code ↦ (0, session)
      | good bytes ↦ fs_with_session session (submit_fs (FsOp.write p bytes))
    ]
  ]

  unfoldable pub session_fs_rename :
      Option Bytes → Option Bytes → Option Session → ℕ × Option Session
  unfolding with_paths submit_fs
  session_fs_rename from to session =
      with_paths from to (λ p q. submit_fs (FsOp.rename p q)) session

  unfoldable pub session_fs_remove : Option Bytes → Bool → Option Session → ℕ × Option Session
  unfolding with_path submit_fs
  session_fs_remove path recursive session =
      with_path path (λ p. submit_fs (FsOp.remove p recursive)) session

  unfoldable pub session_fs_mkdir : Option Bytes → Option Session → ℕ × Option Session
  unfolding with_path submit_fs
  session_fs_mkdir path session = with_path path (λ p. submit_fs (FsOp.mkdir p)) session

  unfoldable pub session_fs_copy : Option Bytes → Option Bytes → Option Session → ℕ × Option Session
  unfolding with_paths submit_fs
  session_fs_copy from to session = with_paths from to (λ p q. submit_fs (FsOp.copy p q)) session
