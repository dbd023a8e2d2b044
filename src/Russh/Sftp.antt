-- ===== src/Russh/Sftp.antt =====
-- providers/russh.rs: how `SftpFileProvider` turns the paths of requests into paths of the server.
-- What the server's `canonicalize` answers is a parameter.
pub mod Resolve
pub mod Paths
pub mod Server
pub mod Ops
pub mod Remove
pub mod Contents
pub mod Provider
use research_ssh_next.Prelude.{
  Text, Bool, true, false, not, ◌&&◌, ◌||◌, ◌==◌, [], ◌∷◌, ◌++◌, Option, none, some, codes, text_eq,
  starts_with, trim_end, if◌then◌else◌,
}
use mathlib.Core.Option

unfoldable pub join_path : Text → Text → Text
join_path dir name = trim_end (λ c. c == b'/') dir ++ (codes "/" ++ name)

-- The connection, and the home directory once it is known.
pub record Sftp (Sv : Type 0) : Type 0 where
  pub server : Sv
  pub home : Option Text

module _ {Sv : Type 0} (canonicalize : Text → Sv → Option Text × Sv) where
  unfoldable pub home_dir : Sftp Sv → Text × Sftp Sv
  home_dir s = elim s.home [
    | some home ↦ (home, s)
    | none ↦
        (let (answer, server) = canonicalize (codes ".") s.server in
          let home = Option.get_or answer (codes ".") in
          (home, record { server = server; home = some home }))
  ]

  unfoldable pub resolve_dir : Text → Sftp Sv → Text × Sftp Sv
  unfolding home_dir join_path
  resolve_dir path s =
      if not (text_eq path []) && (not (text_eq path (codes ".")) && starts_with (codes "/") path)
      then (path, s)
      else (let (home, s') = home_dir s in
          if text_eq path [] || text_eq path (codes ".")
          then (home, s')
          else (join_path home path, s'))

  unfoldable pub resolve_path : Text → Sftp Sv → Text × Sftp Sv
  unfolding resolve_dir
  resolve_path path s =
      if text_eq path [] || text_eq path (codes ".")
      then resolve_dir path s
      else if starts_with (codes "/") path
      then (path, s)
      else (let (home, s') = home_dir s in (join_path home path, s'))
