-- ===== src/MockFs/Reached.antt =====
-- providers/mock.rs: the filesystems that file requests make of the seeded one.
use research_ssh_next.Prelude.{
  ℕ, Text, Bool, true, not, ◌&&◌, ◌≡◌, refl, ◌↔◌, ◌⊎◌, inl, inr, List, [], ◌∷◌, some, Option-cases,
  Bool-cases, text_eq, starts_with, lookup, contains, Unique, Unique-erase, Unique-insert,
  Unique-retain, Unique-erase_all, Unique-insert_all, arith,
}
use research_ssh_next.Fs.{FsOp, FileEntry, FilePayload}
use research_ssh_next.Session.Driver.{perform, run_fs_op}
use research_ssh_next.MockFs.Ops.{
  MockFs, resolve, read_file, write_file, mkdir, rename, copy, remove, move_dirs, move_files,
  copy_dirs, copy_files, renamed_dir, renamed_file, dir_prefix,
}
use research_ssh_next.MockFs.Listing.{list_dir, stat, children}
use research_ssh_next.MockFs.Provider.{seeded, mock_file_provider}
use research_ssh_next.MockFs.Contents.Children.{In, In-children, IsChildDir, IsChildFile}

-- One entry for each directory, and one for each file.
abbrev pub IsMap : MockFs → Type 0
IsMap fs = Unique fs.dirs × Unique fs.files

-- The filesystem after a list of requests, whatever they answer.
unfoldable pub run_ops : List FsOp → MockFs → MockFs
unfolding perform
run_ops [] fs = fs
run_ops (op ∷ ops) fs = run_ops ops (perform mock_file_provider op fs).1

read_file-IsMap :
    (path : Text) (max_len : ℕ) (fs : MockFs) → IsMap fs → IsMap (read_file path max_len fs).1
unfolding read_file
read_file-IsMap path max_len fs u = ground (arith, u)

stat-IsMap : (path : Text) (fs : MockFs) → IsMap fs → IsMap (stat path fs).1
unfolding stat
stat-IsMap path fs u = ground (arith, u)

list_dir-IsMap : (path : Text) (fs : MockFs) → IsMap fs → IsMap (list_dir path fs).1
unfolding list_dir
list_dir-IsMap path fs u = ground (arith, u)

rename-IsMap : (from to : Text) (fs : MockFs) → IsMap fs → IsMap (rename from to fs).1
unfolding rename move_dirs move_files
rename-IsMap from to fs (d, f) = elim (Option-cases (lookup from fs.files)) [
  | inr (content, e) ↦ rw (e, rename) (d, Unique-insert to content _ (Unique-erase from fs.files f))
  | inl e ↦ elim (Bool-cases (contains from fs.dirs)) [
    | inl h ↦
        rw (e, h, rename)
          (
            Unique-insert_all (renamed_dir from to) _ _ (Unique-erase_all _ fs.dirs d),
            Unique-insert_all (renamed_file from to) _ _ (Unique-erase_all _ fs.files f),
          )
    | inr h ↦ rw (e, h, rename) (d, f)
  ]
]

copy-IsMap : (from to : Text) (fs : MockFs) → IsMap fs → IsMap (copy from to fs).1
unfolding copy copy_dirs copy_files
copy-IsMap from to fs (d, f) = elim (Option-cases (lookup from fs.files)) [
  | inr (content, e) ↦ rw (e, copy) (d, Unique-insert to content fs.files f)
  | inl e ↦ elim (Bool-cases (contains from fs.dirs)) [
    | inl h ↦
        rw (e, h, copy)
          (
            Unique-insert_all (renamed_dir from to) _ _ d,
            Unique-insert_all (renamed_file from to) _ _ f,
          )
    | inr h ↦ rw (e, h, copy) (d, f)
  ]
]

remove-IsMap :
    (path : Text) (recursive : Bool) (fs : MockFs) → IsMap fs → IsMap (remove path recursive fs).1
unfolding remove
remove-IsMap path recursive fs (d, f) =
    let file = Unique-erase path fs.files f in
    let dirs =
      Unique-retain (λ k. not (text_eq k path) && not (starts_with (dir_prefix path) k)) fs.dirs
        d in
    let files = Unique-retain (λ k. not (starts_with (dir_prefix path) k)) fs.files f in
    ground (arith, file, dirs, files, d, f)

perform-IsMap : (op : FsOp) (fs : MockFs) → IsMap fs → IsMap (perform mock_file_provider op fs).1
unfolding perform write_file mkdir
perform-IsMap (FsOp.list path) fs u = list_dir-IsMap path fs u
perform-IsMap (FsOp.stat path) fs u = stat-IsMap path fs u
perform-IsMap (FsOp.read path max_len) fs u = read_file-IsMap path max_len fs u
perform-IsMap (FsOp.write path bytes) fs (d, f) = (d, Unique-insert path bytes fs.files f)
perform-IsMap (FsOp.rename from to) fs u = rename-IsMap from to fs u
perform-IsMap (FsOp.remove path recursive) fs u = remove-IsMap path recursive fs u
perform-IsMap (FsOp.mkdir path) fs (d, f) = (Unique-insert path tt fs.dirs d, f)
perform-IsMap (FsOp.copy from to) fs u = copy-IsMap from to fs u

pub run_ops-IsMap : (ops : List FsOp) (fs : MockFs) → IsMap fs → IsMap (run_ops ops fs)
unfolding run_ops
run_ops-IsMap [] fs u = u
run_ops-IsMap (op ∷ ops) fs u =
    run_ops-IsMap ops (perform mock_file_provider op fs).1 (perform-IsMap op fs u)

seeded-IsMap : IsMap seeded
unfolding seeded contains lookup text_eq
seeded-IsMap = ((refl, (refl, (refl, tt))), (refl, (refl, (refl, (refl, (refl, (refl, tt)))))))

-- After any file requests, whatever they answered, a request for the listing of a directory that is
-- there answers with an entry for each directory and each file directly below it, and nothing else;
-- the filesystem has one entry for each directory and one for each file, and listing changes nothing.
pub run_ops-listing :
    (ops : List FsOp) (path : Text) (id : ℕ)
    → let fs = run_ops ops seeded in
      let dir = resolve path in
      contains dir fs.dirs ≡ true
      → (es : List FileEntry) × (run_fs_op mock_file_provider (some fs) id (FsOp.list path)
          ≡ (record { request_id = id; payload = FilePayload.listing es }, some fs))
        × IsMap fs
        × ((e : FileEntry)
            → In e es
              ↔ (IsChildDir (dir_prefix dir) fs.dirs e ⊎ IsChildFile (dir_prefix dir) fs.files e))
unfolding run_fs_op perform list_dir
run_ops-listing ops path id h =
    let fs = run_ops ops seeded in
    let dir = resolve path in
    let u = run_ops-IsMap ops seeded seeded-IsMap in
    (children dir fs, rw (h, run_fs_op, perform, list_dir) refl, u, λ e. In-children dir fs e u.1)
