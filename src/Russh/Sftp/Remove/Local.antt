-- ===== src/Russh/Sftp/Remove/Local.antt =====
-- providers/russh.rs: what a removal relies on of the server to leave all else alone.
use research_ssh_next.Prelude.{Text, Bool, true, false, ◌≡◌, List, All, Option, text_eq, arith}
use research_ssh_next.Russh.Sftp.{join_path}
use research_ssh_next.Russh.Sftp.Server.{answer, FileAttributes, SftpServer}
use research_ssh_next.Russh.Sftp.Ops.{is_dots}
use research_ssh_next.Russh.Sftp.Remove.{is_real_dir}
use research_ssh_next.Russh.Sftp.Remove.Posix.{Node, names_of}
use research_ssh_next.Russh.Sftp.Paths.{IsName}

-- `view` is the entry at each physical path: one in normal form, and with no link but perhaps the
-- last of its names. Requests may fail as they like, and what a request at another path does, through
-- a link or `..`, is left open.
pub record IsLocal {H Sv : Type 0} (server : SftpServer H Sv) (view : Sv → Text → Option Node)
    (physical : Sv → Text → Bool) : Type 0 where
  -- LSTAT and READDIR change nothing
  pub stats : (sv : Sv) (p q : Text) → view (server.symlink_metadata p sv).1 q ≡ view sv q
  pub lists : (sv : Sv) (p q : Text) → view (server.read_dir p sv).1 q ≡ view sv q
  -- REMOVE and RMDIR at a physical path change no other entry
  pub unlinks :
      (sv : Sv) (p q : Text)
      → physical sv p ≡ true
      → text_eq q p ≡ false
      → view (server.remove_file p sv).1 q ≡ view sv q
  pub rmdirs :
      (sv : Sv) (p q : Text)
      → physical sv p ≡ true
      → text_eq q p ≡ false
      → view (server.remove_dir p sv).1 q ≡ view sv q
  -- none of the four makes a link
  pub stats_physical :
      (sv : Sv) (p q : Text)
      → physical sv q ≡ true
      → physical (server.symlink_metadata p sv).1 q ≡ true
  pub lists_physical :
      (sv : Sv) (p q : Text) → physical sv q ≡ true → physical (server.read_dir p sv).1 q ≡ true
  pub unlinks_physical :
      (sv : Sv) (p q : Text)
      → physical sv p ≡ true
      → physical sv q ≡ true
      → physical (server.remove_file p sv).1 q ≡ true
  pub rmdirs_physical :
      (sv : Sv) (p q : Text)
      → physical sv p ≡ true
      → physical sv q ≡ true
      → physical (server.remove_dir p sv).1 q ≡ true
  -- a path in a directory that is no link is physical if that of the directory is
  pub child :
      (sv : Sv) (p n : Text) (meta : FileAttributes)
      → physical sv p ≡ true
      → (server.symlink_metadata p sv).0 ≡ answer meta
      → meta.is_dir ≡ true
      → meta.is_symlink ≡ false
      → IsName n
      → is_dots n ≡ false
      → physical sv (join_path p n) ≡ true
  pub named :
      (sv : Sv) (p : Text) (es : List (Text × FileAttributes))
      → (server.read_dir p sv).0 ≡ answer es
      → All IsName (names_of es)

pub real_dir :
    (meta : FileAttributes)
    → is_real_dir meta ≡ true
    → (meta.is_dir ≡ true) × (meta.is_symlink ≡ false)
unfolding is_real_dir
real_dir meta h = ground arith
