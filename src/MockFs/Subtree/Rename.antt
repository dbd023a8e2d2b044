-- ===== src/MockFs/Subtree/Rename.antt =====
-- providers/mock.rs: `rename` and `copy`, as one equation for each path.
use research_ssh_next.Prelude.{
  Text, Bytes, true, false, not, ◌&&◌, ◌||◌, ◌≡◌, refl, starts_with, Option, none, some,
  if◌then◌else◌, Dict, TextSet, lookup, erase, contains, retain, erase_all, or_else, arith,
  lookup-erase_selected, contains-erase_selected, text_eq, lookup-insert, lookup-erase,
}
use research_ssh_next.Core.{done, fail}
use research_ssh_next.MockFs.Ops.{
  MockFs, dir_prefix, in_subtree, move_dirs, move_files, copy_dirs, copy_files, renamed_file,
  rename, copy, not_found,
}
use research_ssh_next.MockFs.Subtree.Prefix.{
  at_prefix, moved_dir, lookup-insert_all, contains-insert_all,
}

-- The file that stands under `to` where `j` says, in the subtree of `from`.
abbrev pub moved_file : Text → Text → Dict Bytes → Text → Option Bytes
moved_file from to files j = at_prefix (dir_prefix from) (dir_prefix to) files j

pub lookup-copy_files :
    (from to : Text) (files : Dict Bytes) (j : Text)
    → lookup j (copy_files from to files) ≡ or_else (moved_file from to files j) (lookup j files)
unfolding copy_files renamed_file
lookup-copy_files from to files j =
    lookup-insert_all (dir_prefix from) (dir_prefix to) files files j

pub lookup-move_files :
    (from to : Text) (files : Dict Bytes) (j : Text)
    → lookup j (move_files from to files)
      ≡ or_else
          (moved_file from to files j)
          (if starts_with (dir_prefix from) j then none else lookup j files)
unfolding move_files renamed_file
lookup-move_files from to files j = ground (
  arith,
  lookup-insert_all (dir_prefix from) (dir_prefix to) files
      (erase_all (retain (starts_with (dir_prefix from)) files) files) j,
  lookup-erase_selected (starts_with (dir_prefix from)) j files,
)

pub contains-copy_dirs :
    (from to : Text) (dirs : TextSet) (j : Text)
    → contains j (copy_dirs from to dirs) ≡ (moved_dir from to dirs j || contains j dirs)
unfolding copy_dirs
contains-copy_dirs from to dirs j = contains-insert_all from to dirs dirs j

pub contains-move_dirs :
    (from to : Text) (dirs : TextSet) (j : Text)
    → contains j (move_dirs from to dirs)
      ≡ (moved_dir from to dirs j || (not (in_subtree from j) && contains j dirs))
unfolding move_dirs
contains-move_dirs from to dirs j = cc (
  contains-insert_all from to dirs (erase_all (retain (in_subtree from) dirs) dirs) j,
  contains-erase_selected (in_subtree from) j dirs,
)

module _ (from to : Text) (fs : MockFs) (j : Text) where
  -- Where there is a directory and no file at the source, renaming it succeeds. Each file under the new prefix is the one that stood at the same
  -- place under the old prefix, else what stood there; no other file under the old prefix is left,
  -- and all else is as it was. The directories move in the same way, the directory itself to `to`.
  pub rename-dir :
      lookup from fs.files ≡ none
      → contains from fs.dirs ≡ true
      → ((rename from to fs).0 ≡ done tt)
        × (lookup j (rename from to fs).1.files
            ≡ or_else
                (moved_file from to fs.files j)
                (if starts_with (dir_prefix from) j then none else lookup j fs.files))
        × (contains j (rename from to fs).1.dirs
            ≡ (moved_dir from to fs.dirs j || (not (in_subtree from j) && contains j fs.dirs)))
  unfolding rename
  rename-dir h d =
      rw (h, d, rename)
        (refl, lookup-move_files from to fs.files j, rw d at (contains-move_dirs from to fs.dirs j))

  -- Where there is a directory and no file at the source, copying it succeeds and puts each of its
  -- files and directories at the same place under the new prefix; a path that gets none keeps what
  -- it had, so the source is kept unless the target overlaps it.
  pub copy-dir :
      lookup from fs.files ≡ none
      → contains from fs.dirs ≡ true
      → ((copy from to fs).0 ≡ done tt)
        × (lookup j (copy from to fs).1.files
            ≡ or_else (moved_file from to fs.files j) (lookup j fs.files))
        × (contains j (copy from to fs).1.dirs
            ≡ (moved_dir from to fs.dirs j || contains j fs.dirs))
  unfolding copy
  copy-dir h d =
      rw (h, d, copy)
        (refl, lookup-copy_files from to fs.files j, rw d at (contains-copy_dirs from to fs.dirs j))

  -- Renaming or copying a file moves its content over whatever stood at the target, leaves the
  -- source empty (`rename`, unless it is the target) or as it was (`copy`), and every other file
  -- and all directories as they were.
  pub rename-copy-file :
      (content : Bytes)
      → lookup from fs.files ≡ some content
      → ((rename from to fs).0 ≡ done tt)
        × (lookup j (rename from to fs).1.files ≡ (
            if text_eq to j
            then some content
            else if text_eq from j
            then none
            else lookup j fs.files))
        × ((rename from to fs).1.dirs ≡ fs.dirs)
        × ((copy from to fs).0 ≡ done tt)
        × (lookup j (copy from to fs).1.files
            ≡ (if text_eq to j then some content else lookup j fs.files))
        × ((copy from to fs).1.dirs ≡ fs.dirs)
  unfolding rename copy
  rename-copy-file content h =
      rw (h, rename, copy)
        (
          refl,
          ground (
            arith,
            lookup-insert to j content (erase from fs.files),
            lookup-erase from j fs.files,
          ),
          refl,
          refl,
          lookup-insert to j content fs.files,
          refl,
        )

  -- A source that is neither a file nor a directory is an error that names it, and nothing changes.
  pub rename-copy-missing :
      lookup from fs.files ≡ none
      → contains from fs.dirs ≡ false
      → (rename from to fs ≡ (fail (not_found from), fs))
        × (copy from to fs ≡ (fail (not_found from), fs))
  unfolding rename copy
  rename-copy-missing h d = rw (h, d, rename, copy) (refl, refl)
