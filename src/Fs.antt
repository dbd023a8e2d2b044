-- ===== src/Fs.antt =====
-- rust-core/src/fs.rs: file kinds, directory entries, results, and the text heuristic.
pub mod LooksLikeText
pub mod ReadsBack
use research_ssh_next.Prelude.{ℕ, Text, Bytes, Bool, List, codes}
use research_ssh_next.Core.{RsErrorCode, CoreResult, fail, with_detail}

pub data FileKind : Type 0 where
  file directory symlink other : FileKind

-- `modified_unix` is an `i64` that is -1 where the time is unknown: the model keeps the known
-- values and `unknown` for -1.
pub data Modified : Type 0 where
  unknown : Modified
  seconds : ℕ → Modified

pub record FileEntry : Type 0 where
  pub name : Text
  pub path : Text
  pub kind : FileKind
  pub size : ℕ
  pub modified_unix : Modified
  pub mode : ℕ
  pub editable_text : Bool

pub data FilePayload : Type 0 where
  listing : List FileEntry → FilePayload
  content : Bytes → FilePayload
  ok : FilePayload
  error : RsErrorCode → Text → FilePayload

pub record FileResult : Type 0 where
  pub request_id : ℕ
  pub payload : FilePayload

-- The requests of `session.rs` that a file provider answers.
pub data FsOp : Type 0 where
  list stat mkdir : Text → FsOp
  read : Text → ℕ → FsOp
  write : Text → Bytes → FsOp
  rename copy : Text → Text → FsOp
  remove : Text → Bool → FsOp

-- `trait FileProvider`: each method returns its result and the new state of the provider.
pub record FileProvider (S : Type 0) : Type 0 where
  pub list_dir : Text → S → CoreResult (List FileEntry) × S
  pub stat : Text → S → CoreResult FileEntry × S
  pub read_file : Text → ℕ → S → CoreResult Bytes × S
  pub write_file : Text → Bytes → S → CoreResult (Unit {0}) × S
  pub rename : Text → Text → S → CoreResult (Unit {0}) × S
  pub remove : Text → Bool → S → CoreResult (Unit {0}) × S
  pub mkdir : Text → S → CoreResult (Unit {0}) × S
  -- the state where the future of a request is dropped before it completes
  pub dropped : FsOp → S → S
  pub copy : Text → Text → S → CoreResult (Unit {0}) × S
