-- ===== src/Examples/Disk.antt =====
-- An SFTP server with one directory, /d, that holds one link, /d/l.
pub mod Laws
pub mod Local
use research_ssh_next.Prelude.{
  ◌≤◌, Text, Bool, true, false, ◌≡◌, inl, inr, refl, sym, List, [], ◌∷◌, All, Option, none, some,
  is_some, Bool-cases, length, codes, text_eq, text_eq_iff, starts_with, contains_char, trim_end,
  trim_step, if◌then◌else◌, arith,
}
use mathlib.Core.Path.{subst}
use mathlib.Core.Option.{some-ne-none, some-injective}
use research_ssh_next.Russh.Sftp.{join_path}
use research_ssh_next.Russh.Sftp.Server.{Reply, answer, refusal, FileAttributes, SftpServer}
use research_ssh_next.Russh.Sftp.Ops.{is_dots}
use research_ssh_next.Russh.Sftp.Remove.Posix.{
  Node, file, link, directory, is_directory, HasKind, names_of, AreEntries, in_entries, IsPosix,
}
use research_ssh_next.Russh.Sftp.Remove.Terminates.{IsBounded}
use research_ssh_next.Russh.Sftp.Paths.{IsName, below}

pub data Disk : Type 0 where
  full no_link gone : Disk

abbrev pub dir : Text
dir = codes "/d"

abbrev pub dir_link : Text
dir_link = codes "/d/l"

unfoldable pub view : Disk → Text → Option Node
unfolding text_eq
view full q =
    if text_eq q dir then some directory else if text_eq q dir_link then some link else none
view no_link q = if text_eq q dir then some directory else none
view gone q = none

abbrev pub attributes : Bool → Bool → FileAttributes
attributes is_symlink is_dir = record {
  is_symlink = is_symlink;
  is_dir = is_dir;
  is_regular = false;
  size = none;
  mtime = none;
  permissions = none;
}

-- A link to a directory passes for a directory too.
abbrev pub attributes_of : Option Node → Reply FileAttributes
attributes_of none = refusal (codes "no such file")
attributes_of (some directory) = answer (attributes false true)
attributes_of (some link) = answer (attributes true true)
attributes_of (some file) = answer (attributes false false)

abbrev pub dot_and_link : List (Text × FileAttributes)
dot_and_link = (codes ".", attributes false true) ∷ (codes "l", attributes true true) ∷ []

unfoldable pub entries_at : Text → Disk → Reply (List (Text × FileAttributes))
unfolding text_eq
entries_at p full = if text_eq p dir then answer dot_and_link else refusal (codes "not a directory")
entries_at p no_link = if text_eq p dir then answer [] else refusal (codes "not a directory")
entries_at p gone = refusal (codes "no such file")

unfoldable pub remove_file : Text → Disk → Reply (Unit {0}) × Disk
unfolding text_eq
remove_file p full =
    if text_eq p dir_link then (answer tt, no_link) else (refusal (codes "denied"), full)
remove_file p no_link = (refusal (codes "denied"), no_link)
remove_file p gone = (refusal (codes "no such file"), gone)

unfoldable pub remove_dir : Text → Disk → Reply (Unit {0}) × Disk
unfolding text_eq
remove_dir p full = (refusal (codes "directory not empty"), full)
remove_dir p no_link =
    if text_eq p dir then (answer tt, gone) else (refusal (codes "denied"), no_link)
remove_dir p gone = (refusal (codes "no such file"), gone)

abbrev denied : {A : Type 0} → Disk → Reply A × Disk
denied disk = (refusal (codes "permission denied"), disk)

abbrev pub server : SftpServer (Unit {0}) Disk
server = record {
  canonicalize = λ p disk. (some (codes "/"), disk);
  read_dir = λ p disk. (entries_at p disk, disk);
  metadata = λ p disk. (attributes_of (view disk p), disk);
  symlink_metadata = λ p disk. (attributes_of (view disk p), disk);
  open_file = λ p. denied;
  create = λ p. denied;
  read_to_end = λ h. denied;
  read_to_end_of_take = λ n h. denied;
  write_all = λ h bytes. denied;
  read = λ p. denied;
  rename = λ p q. denied;
  remove_dir = remove_dir;
  remove_file = remove_file;
  create_dir = λ p. denied;
}
