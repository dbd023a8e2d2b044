-- ===== src/Examples/Sftp.antt =====
-- The theorems on SFTP, over the server of Examples/Disk.
use research_ssh_next.Prelude.{
  codes, false, true, ◌≡◌, refl, List, none, some, text_eq, starts_with, trim_end, trim_step, arith,
}
use research_ssh_next.Core.{CoreResult, done, fail}
use research_ssh_next.Fs.{FileEntry}
use research_ssh_next.Russh.Sftp.{Sftp, join_path, resolve_dir}
use research_ssh_next.Russh.Sftp.Server.{answer}
use research_ssh_next.Russh.Sftp.Ops.{ask, is_dots, list_dir}
use research_ssh_next.Russh.Sftp.Ops.Listed.{Lists, list_dir_lem}
use research_ssh_next.Russh.Sftp.Remove.{is_real_dir, remove}
use research_ssh_next.Russh.Sftp.Remove.Posix.{directory, Removed}
use research_ssh_next.Russh.Sftp.Server.{sftp_err}
use research_ssh_next.Russh.Sftp.Remove.Frame.{remove_outside}
use research_ssh_next.Russh.Sftp.Remove.Fuel.{remove_terminates}
use research_ssh_next.Russh.Sftp.Remove.Tree.{remove_tree}
use research_ssh_next.Russh.Sftp.Paths.{inside, IsClean}
use research_ssh_next.Examples.Disk.Local.{physical, local}
use research_ssh_next.Examples.Disk.Laws.{posix, bounded}
use research_ssh_next.Examples.Disk.{
  Disk, full, gone, dir, view, dot_and_link, entries_at, remove_file, remove_dir, server,
}

abbrev connection : Sftp Disk
connection = record { server = full; home = none }

dir-IsClean : IsClean dir
unfolding starts_with trim_end trim_step
dir-IsClean = record { absolute = refl; trimmed = refl }

dir_is_there : view full dir ≡ some directory
unfolding view text_eq
dir_is_there = refl

remove_tree_example :
    (disk : Disk) × (remove server 3 dir true connection
      ≡ some (done tt, record connection { server = disk }))
    × Removed (view full) dir (view disk)
remove_tree_example =
    remove_tree server view 4 posix 3 dir connection directory (omega arith) dir-IsClean
      dir_is_there

remove_terminates_example :
    (r : CoreResult (Unit {0}) × Sftp Disk) × (remove server 6 dir true connection ≡ some r)
    × (remove server 7 dir true connection ≡ some r)
remove_terminates_example = remove_terminates server 4 bounded 1 dir true connection

resolved : resolve_dir server.canonicalize dir connection ≡ (dir, connection)
unfolding resolve_dir text_eq starts_with
resolved = refl

listing : server.read_dir dir full ≡ (answer dot_and_link, full)
unfolding entries_at text_eq
listing = refl

list_dir_lem_example :
    (entries : List FileEntry) × (list_dir server dir connection
      ≡ (done entries, record connection { server = full }))
    × Lists dir dot_and_link entries
list_dir_lem_example =
    list_dir_lem server dir dir connection connection dot_and_link full resolved listing

-- The link's target, a directory, is not entered.
whole_run :
    remove server 3 dir true connection ≡ some (done tt, record connection { server = gone })
unfolding remove remove_file remove_dir view entries_at resolve_dir text_eq is_dots join_path
    is_real_dir ask trim_end
whole_run = refl

apart : inside dir (codes "/e") ≡ false
unfolding text_eq starts_with
apart = refl

-- Without the flag, the directory is not empty.
not_empty :
    remove server 3 dir false connection
    ≡ some (fail (sftp_err (codes "rmdir") (codes "directory not empty")), connection)
unfolding remove remove_dir view resolve_dir text_eq is_real_dir ask
not_empty = refl

dir_is_physical : physical full dir ≡ true
unfolding physical starts_with
dir_is_physical = refl

remove_outside_example : view gone (codes "/e") ≡ view full (codes "/e")
remove_outside_example =
    remove_outside server view physical local 3 dir true connection
      (record connection { server = gone }) (done tt) dir-IsClean dir_is_physical whole_run
      (codes "/e") apart
