-- ===== src/Russh/Sftp/Remove.antt =====
-- providers/russh.rs: `SftpFileProvider::remove`, which calls itself for the entries of a directory.
-- The fuel bounds how deep it goes; `none` means that it ran out.
pub mod Posix
pub mod Gone
pub mod Terminates
pub mod Fuel
pub mod Tree
pub mod Local
pub mod Frame
use research_ssh_next.Prelude.{
  ℕ, zero, suc, Text, Bool, true, false, not, ◌&&◌, List, [], ◌∷◌, Option, none, some, codes,
}
use research_ssh_next.Core.{CoreResult, done, fail}
use research_ssh_next.Russh.Sftp.{Sftp, join_path, resolve_path}
use research_ssh_next.Russh.Sftp.Server.{
  Reply, answer, refusal, FileAttributes, SftpServer, sftp_err,
}
use research_ssh_next.Russh.Sftp.Ops.{ask, is_dots}

abbrev pub Fueled : Type 0 → Type 0
Fueled Sv = Option (CoreResult (Unit {0}) × Sftp Sv)

-- `meta.is_dir() && !meta.is_symlink()`
unfoldable pub is_real_dir : FileAttributes → Bool
is_real_dir meta = meta.is_dir && not meta.is_symlink

-- `self.remove(..).await?`, and the rest of a body.
abbrev pub and_then : {Sv : Type 0} → Fueled Sv → (Sftp Sv → Fueled Sv) → Fueled Sv
and_then none k = none
and_then (some (fail e, s)) k = some (fail e, s)
and_then (some (done _, s)) k = k s

-- A request with `?`, and the rest of a body.
abbrev pub with_answer :
    {Sv A : Type 0} → CoreResult A × Sftp Sv → (A → Sftp Sv → Fueled Sv) → Fueled Sv
with_answer (done a, s) k = k a s
with_answer (fail e, s) k = some (fail e, s)

module _ {H Sv : Type 0} (server : SftpServer H Sv) where
  module _ (call : Text → Sftp Sv → Fueled Sv) where
    -- The loop over the entries, where `call` is `remove(.., true)`.
    unfoldable pub remove_entries : Text → List (Text × FileAttributes) → Sftp Sv → Fueled Sv
    unfolding join_path
    remove_entries dir [] s = some (done tt, s)
    remove_entries dir ((name, meta) ∷ entries) s = elim (is_dots name) [
      | true ↦ remove_entries dir entries s
      | false ↦ and_then (call (join_path dir name) s) (remove_entries dir entries)
    ]

    unfoldable pub read_and_remove : Text → Sftp Sv → Fueled Sv
    unfolding remove_entries
    read_and_remove dir s =
        with_answer (ask server (codes "read_dir") (server.read_dir dir) s) (remove_entries dir)

    unfoldable pub unlink : Text → Sftp Sv → Fueled Sv
    unlink path s = some (ask server (codes "remove") (server.remove_file path) s)

    unfoldable pub remove_one_dir : Text → Sftp Sv → Fueled Sv
    remove_one_dir path s = some (ask server (codes "rmdir") (server.remove_dir path) s)

    -- The body of `remove` after the metadata.
    unfoldable pub remove_as : FileAttributes → Text → Bool → Sftp Sv → Fueled Sv
    unfolding read_and_remove unlink remove_one_dir
    remove_as meta path recursive s = elim (is_real_dir meta) [
      | false ↦ unlink path s
      | true ↦ elim recursive [
        | true ↦ and_then (read_and_remove path s) (remove_one_dir path)
        | false ↦ remove_one_dir path s
      ]
    ]

    unfoldable pub remove_step : Text → Bool → Sftp Sv → Fueled Sv
    unfolding resolve_path remove_as
    remove_step path recursive s =
        let (p, s1) = resolve_path server.canonicalize path s in
        with_answer (ask server (codes "stat") (server.symlink_metadata p) s1)
          (λ meta. remove_as meta p recursive)

  unfoldable pub remove : ℕ → Text → Bool → Sftp Sv → Fueled Sv
  unfolding remove_step
  remove zero path recursive s = none
  remove (suc fuel) path recursive s = remove_step (λ p. remove fuel p true) path recursive s
