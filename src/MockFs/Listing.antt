-- ===== src/MockFs/Listing.antt =====
-- providers/mock.rs: directory entries, the children of a directory, and their order.
use research_ssh_next.Prelude.{
  ℕ, Text, Bytes, Bool, true, false, not, ◌&&◌, List, [], ◌∷◌, ◌++◌, ◌==◌, ltb, text_eq,
  strip_prefix, contains_char, Option, none, some, if◌then◌else◌, length, Dict, TextSet, lookup,
  contains,
}
use research_ssh_next.Core.{done, fail}
use research_ssh_next.Fs.{FileKind, Modified, FileEntry}
use research_ssh_next.Fs.LooksLikeText.{looks_like_text}
use research_ssh_next.MockFs.Ops.{MockFs, Fallible, resolve, not_found, dir_prefix}

-- `MockFs::entry`
unfoldable pub entry : Text → Text → Bool → ℕ → FileEntry
entry path name is_dir size = record {
  name = name;
  path = path;
  kind = if is_dir then FileKind.directory else FileKind.file;
  size = size;
  modified_unix = Modified.unknown;
  mode = if is_dir then 0o755 else 0o644;
  editable_text = not is_dir && looks_like_text name;
}

-- `if !rest.is_empty() && !rest.contains('/')`
unfoldable pub is_child_name : Text → Bool
is_child_name rest = not (text_eq rest []) && not (contains_char b'/' rest)

-- The name of `path` as a direct child of the directory with this prefix.
unfoldable pub child_name : Text → Text → Option Text
unfolding is_child_name
child_name prefix path = elim (strip_prefix prefix path) [
  | none ↦ none
  | some rest ↦ if is_child_name rest then some rest else none
]

push_if : Option Text → (Text → FileEntry) → List FileEntry → List FileEntry
push_if none make out = out
push_if (some rest) make out = make rest ∷ out

unfoldable pub child_dirs : Text → TextSet → List FileEntry
unfolding push_if
child_dirs prefix [] = []
child_dirs prefix ((d, _) ∷ dirs) =
    push_if (child_name prefix d) (λ rest. entry d rest true 0) (child_dirs prefix dirs)

unfoldable pub child_files : Text → Dict Bytes → List FileEntry
unfolding push_if
child_files prefix [] = []
child_files prefix ((p, content) ∷ files) =
    push_if (child_name prefix p) (λ rest. entry p rest false (length content))
      (child_files prefix files)

unfoldable pub is_directory : FileKind → Bool
is_directory FileKind.directory = true
is_directory FileKind.file = false
is_directory FileKind.symlink = false
is_directory FileKind.other = false

-- `a.name <= b.name` in the order of `str`
unfoldable pub text_le : Text → Text → Bool
text_le [] t = true
text_le (c ∷ s) [] = false
text_le (c ∷ s) (d ∷ t) = if ltb c d then true else (c == d) && text_le s t

-- The comparison of `sort_by` says that `a` may stand before `b`.
unfoldable pub entry_le : FileEntry → FileEntry → Bool
unfolding is_directory text_le
entry_le a b =
    if is_directory a.kind
    then (if is_directory b.kind then text_le a.name b.name else true)
    else (if is_directory b.kind then false else text_le a.name b.name)

-- `sort_by` is the stable sort of the standard library, and its result is the one list that is sorted
-- and has the same entries, those that compare as equal in their order. An insertion sort computes it.
unfoldable pub insert_entry : FileEntry → List FileEntry → List FileEntry
insert_entry e [] = e ∷ []
insert_entry e (x ∷ xs) =
    let later = insert_entry e xs in if entry_le e x then e ∷ x ∷ xs else x ∷ later

unfoldable pub sort_entries : List FileEntry → List FileEntry
unfolding insert_entry
sort_entries [] = []
sort_entries (e ∷ es) = insert_entry e (sort_entries es)

-- `MockFs::children`
unfoldable pub children : Text → MockFs → List FileEntry
unfolding sort_entries child_dirs child_files
children dir fs =
    let prefix = dir_prefix dir in
    sort_entries (child_dirs prefix fs.dirs ++ child_files prefix fs.files)

unfoldable pub list_dir : Text → MockFs → Fallible (List FileEntry)
list_dir path fs =
    let dir = resolve path in
    if not (contains dir fs.dirs) then (fail (not_found dir), fs) else (done (children dir fs), fs)

-- `p.rsplit('/').next()`: what stands behind the last slash, or the whole text.
unfoldable pub base_name : Text → Text
base_name [] = []
base_name (c ∷ s) = if contains_char b'/' (c ∷ s) then base_name s else c ∷ s

unfoldable pub stat : Text → MockFs → Fallible FileEntry
stat path fs =
    let p = resolve path in
    if contains p fs.dirs
    then (done (entry p (base_name p) true 0), fs)
    else elim (lookup p fs.files) [
      | some c ↦ (done (entry p (base_name p) false (length c)), fs)
      | none ↦ (fail (not_found p), fs)
    ]
