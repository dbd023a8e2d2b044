-- ===== src/Russh/Sftp/Server.antt =====
-- providers/russh.rs: the SFTP session as the program uses it, a parameter, and what the program
-- makes of its answers.
use research_ssh_next.Prelude.{
  ℕ, Text, Bytes, Bool, ◌||◌, List, ◌++◌, Option, codes, text_eq, contains_text, if◌then◌else◌,
}
use research_ssh_next.Core.{RsErrorCode, CoreError, with_detail}
use research_ssh_next.Fs.{FileKind}
use research_ssh_next.Fs.LooksLikeText.{to_ascii_lowercase}

-- An answer of the server, or the text of the error.
pub data Reply (A : Type 0) : Type 0 where
  answer : A → Reply A
  refusal : Text → Reply A

-- The attributes that the program reads, and the three tests of the file type.
pub record FileAttributes : Type 0 where
  pub is_symlink : Bool
  pub is_dir : Bool
  pub is_regular : Bool
  pub size : Option ℕ
  pub mtime : Option ℕ
  pub permissions : Option ℕ

-- `SftpSession` over a connection in a state `Sv`, with open files `H`. `read_to_end_of_take` is
-- `file.take(n).read_to_end(..)`.
pub record SftpServer (H Sv : Type 0) : Type 0 where
  pub canonicalize : Text → Sv → Option Text × Sv
  pub read_dir : Text → Sv → Reply (List (Text × FileAttributes)) × Sv
  pub metadata : Text → Sv → Reply FileAttributes × Sv
  pub symlink_metadata : Text → Sv → Reply FileAttributes × Sv
  pub open_file : Text → Sv → Reply H × Sv
  pub create : Text → Sv → Reply H × Sv
  pub read_to_end : H → Sv → Reply Bytes × Sv
  pub read_to_end_of_take : ℕ → H → Sv → Reply Bytes × Sv
  pub write_all : H → Bytes → Sv → Reply (Unit {0}) × Sv
  pub read : Text → Sv → Reply Bytes × Sv
  pub rename : Text → Text → Sv → Reply (Unit {0}) × Sv
  pub remove_dir : Text → Sv → Reply (Unit {0}) × Sv
  pub remove_file : Text → Sv → Reply (Unit {0}) × Sv
  pub create_dir : Text → Sv → Reply (Unit {0}) × Sv

unfoldable pub map_meta_kind : FileAttributes → FileKind
map_meta_kind meta =
    if meta.is_symlink
    then FileKind.symlink
    else if meta.is_dir
    then FileKind.directory
    else if meta.is_regular
    then FileKind.file
    else FileKind.other

-- The reason that `sftp_err` recognises in the lower-case text of an error, or the text itself.
unfoldable pub reason_of : Text → Text
unfolding contains_text
reason_of raw =
    let lower = to_ascii_lowercase raw in
    if contains_text (codes "permission") lower || contains_text (codes "denied") lower
    then codes "permission denied"
    else if contains_text (codes "no such") lower || contains_text (codes "not found") lower
    then codes "path not found"
    else if contains_text (codes "exists") lower
    then codes "target already exists"
    else if contains_text (codes "directory not empty") lower
        || contains_text (codes "not empty") lower
    then codes "directory not empty"
    else raw

unfoldable pub sftp_err : Text → Text → CoreError
unfolding reason_of text_eq
sftp_err stage raw =
    let reason = reason_of raw in
    with_detail RsErrorCode.runtime_error (
      codes "sftp "
      ++ (stage
          ++ (codes ": "
              ++ (if text_eq reason raw
                  then raw
                  else reason ++ (codes " (" ++ (raw ++ codes ")"))))))
