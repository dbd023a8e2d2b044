-- ===== src/MockFs/Ops.antt =====
-- providers/mock.rs: the methods that read and change single paths and whole subtrees.
use research_ssh_next.Prelude.{
  ℕ, Text, Bytes, Bool, false, not, ◌&&◌, ◌||◌, [], ◌∷◌, ◌++◌, ◌==◌, codes, text_eq, starts_with,
  replace_first, trim_end, Option, none, some, if◌then◌else◌, ltb, length, take, Dict, TextSet,
  lookup, insert, erase, contains, retain, erase_all, insert_all, is_some,
}
use research_ssh_next.Core.{RsErrorCode, CoreError, CoreResult, done, fail, with_detail}

pub record MockFs : Type 0 where
  pub dirs : TextSet
  pub files : Dict Bytes

abbrev pub mock_home : Text
mock_home = codes "/home/researcher"

-- `MockFs::resolve`
unfoldable pub resolve : Text → Text
resolve path = if text_eq path [] || text_eq path (codes ".") then mock_home else path

unfoldable pub not_found : Text → CoreError
not_found path = with_detail RsErrorCode.internal (codes "no such file: " ++ path)

-- `format!("{}/", dir.trim_end_matches('/'))`
unfoldable pub dir_prefix : Text → Text
dir_prefix dir = trim_end (λ c. c == b'/') dir ++ b'/' ∷ []

-- A method returns its result and the filesystem that it leaves.
abbrev pub Fallible : Type 0 → Type 0
Fallible A = CoreResult A × MockFs

or_not_found : {A : Type 0} → Text → Option A → CoreResult A
or_not_found path none = fail (not_found path)
or_not_found path (some a) = done a

-- `data.truncate(max_len)` when `max_len > 0 && data.len() > max_len`
truncate_to : ℕ → Bytes → Bytes
truncate_to max_len bytes =
    if ltb 0 max_len && ltb max_len (length bytes) then take max_len bytes else bytes

unfoldable pub read_file : Text → ℕ → MockFs → Fallible Bytes
unfolding or_not_found truncate_to
read_file path max_len fs = elim (lookup path fs.files) [
  | none ↦ (fail (not_found path), fs)
  | some bytes ↦ (done (truncate_to max_len bytes), fs)
]

unfoldable pub write_file : Text → Bytes → MockFs → Fallible (Unit {0})
write_file path bytes fs = (done tt, record fs { files = insert path bytes fs.files })

unfoldable pub mkdir : Text → MockFs → Fallible (Unit {0})
mkdir path fs = (done tt, record fs { dirs = insert path tt fs.dirs })

-- `d == from || d.starts_with(&from_prefix)`
unfoldable pub in_subtree : Text → Text → Bool
in_subtree from d = text_eq d from || starts_with (dir_prefix from) d

-- The name that a directory of the subtree gets.
unfoldable pub renamed_dir : Text → Text → Text → Text
renamed_dir from to dir =
    if text_eq dir from then to else replace_first (dir_prefix from) (dir_prefix to) dir

unfoldable pub renamed_file : Text → Text → Text → Text
renamed_file from to file = replace_first (dir_prefix from) (dir_prefix to) file

-- The directory part of `rename`: collect, remove, insert under the new names.
unfoldable pub move_dirs : Text → Text → TextSet → TextSet
move_dirs from to dirs =
    let moved = retain (in_subtree from) dirs in
    insert_all (renamed_dir from to) moved (erase_all moved dirs)

unfoldable pub move_files : Text → Text → Dict Bytes → Dict Bytes
move_files from to files =
    let moved = retain (starts_with (dir_prefix from)) files in
    insert_all (renamed_file from to) moved (erase_all moved files)

unfoldable pub rename : Text → Text → MockFs → Fallible (Unit {0})
rename from to fs = elim (lookup from fs.files) [
  | some content ↦ (done tt, record fs { files = insert to content (erase from fs.files) })
  | none ↦ if not (contains from fs.dirs) then (fail (not_found from), fs) else (
    done tt,
    record { dirs = move_dirs from to fs.dirs; files = move_files from to fs.files },
  )
]

unfoldable pub copy_dirs : Text → Text → TextSet → TextSet
copy_dirs from to dirs = insert_all (renamed_dir from to) (retain (in_subtree from) dirs) dirs

unfoldable pub copy_files : Text → Text → Dict Bytes → Dict Bytes
copy_files from to files =
    insert_all (renamed_file from to) (retain (starts_with (dir_prefix from)) files) files

unfoldable pub copy : Text → Text → MockFs → Fallible (Unit {0})
copy from to fs = elim (lookup from fs.files) [
  | some content ↦ (done tt, record fs { files = insert to content fs.files })
  | none ↦ if not (contains from fs.dirs) then (fail (not_found from), fs) else (
    done tt,
    record { dirs = copy_dirs from to fs.dirs; files = copy_files from to fs.files },
  )
]

-- `keys().any(|k| k.starts_with(prefix))`
unfoldable pub any_key {ℓ} : {V : Type ℓ} → (Text → Bool) → Dict V → Bool
any_key p [] = false
any_key p ((k, v) ∷ m) = p k || any_key p m

unfoldable pub has_children : Text → MockFs → Bool
has_children path fs =
    any_key (starts_with (dir_prefix path)) fs.dirs
    || any_key (starts_with (dir_prefix path)) fs.files

unfoldable pub remove : Text → Bool → MockFs → Fallible (Unit {0})
remove path recursive fs =
    if is_some (lookup path fs.files)
    then (done tt, record fs { files = erase path fs.files })
    else if contains path fs.dirs
    then (if has_children path fs && not recursive
        then (fail (with_detail RsErrorCode.invalid_state (codes "directory not empty")), fs)
        else (
          done tt,
          record {
            dirs =
                retain (λ d. not (text_eq d path) && not (starts_with (dir_prefix path) d)) fs.dirs;
            files = retain (λ f. not (starts_with (dir_prefix path) f)) fs.files;
          },
        ))
    else (fail (not_found path), fs)
