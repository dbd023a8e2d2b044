-- ===== src/Russh/Sftp/Ops/Listed.antt =====
-- providers/russh.rs: the entries that `list_dir` makes of the server's reply.
use research_ssh_next.Prelude.{
  ℕ, Text, true, false, ◌≡◌, ◌≢◌, refl, ap, ◌∙◌, codes, List, [], ◌∷◌, Option, none, some,
  Bool-cases, inl, inr, ◌⊎◌, ◌↔◌, text_eq_iff, arith,
}
use mathlib.Core.Option
use research_ssh_next.Core.{done}
use research_ssh_next.Fs.{FileKind, Modified, FileEntry}
use research_ssh_next.Fs.LooksLikeText.{looks_like_text}
use research_ssh_next.Russh.Sftp.{Sftp, join_path, resolve_dir}
use research_ssh_next.Russh.Sftp.Server.{Reply, answer, FileAttributes, SftpServer, map_meta_kind}
use research_ssh_next.Russh.Sftp.Ops.{
  ◌>>=◌, pure, is_dots, is_file, entry_of, listed, ask, settle, dir_of, list_dir, modified_of,
}

-- The kind that attributes stand for: a link is a link whatever it leads to.
abbrev pub HasFileKind : FileAttributes → FileKind → Type 0
HasFileKind meta FileKind.symlink = meta.is_symlink ≡ true
HasFileKind meta FileKind.directory = (meta.is_symlink ≡ false) × (meta.is_dir ≡ true)
HasFileKind meta FileKind.file =
    (meta.is_symlink ≡ false) × (meta.is_dir ≡ false) × (meta.is_regular ≡ true)
HasFileKind meta FileKind.other =
    (meta.is_symlink ≡ false) × (meta.is_dir ≡ false) × (meta.is_regular ≡ false)

-- A number that the server may leave out, in which case `missing` stands for it.
abbrev pub IsGiven : {A B : Type 0} → (A → B) → B → Option A → B → Type 0
IsGiven given missing none b = b ≡ missing
IsGiven given missing (some a) b = b ≡ given a

-- An entry of `dir` for a name and its attributes.
pub record IsEntryOf (dir name : Text) (meta : FileAttributes) (e : FileEntry) : Type 0 where
  pub named : e.name ≡ name
  pub placed : e.path ≡ join_path dir name
  pub kinded : HasFileKind meta e.kind
  pub sized : IsGiven (λ n. n) 0 meta.size e.size
  pub dated : IsGiven Modified.seconds Modified.unknown meta.mtime e.modified_unix
  pub moded : IsGiven (λ n. n) 0 meta.permissions e.mode
  -- it is offered to the editor exactly if it is a regular file and its name looks like text
  pub editable : (e.editable_text ≡ true) ↔ (
      (meta.is_symlink ≡ false)
      × (meta.is_dir ≡ false)
      × (meta.is_regular ≡ true)
      × (looks_like_text name ≡ true))

-- The reply and the entries, side by side: the names `.` and `..` have no entry, every other name has
-- one, in the same order.
pub data Lists (dir : Text) : List (Text × FileAttributes) → List FileEntry → Type 0 where
  ends : Lists dir [] []
  passes :
      {es : List (Text × FileAttributes)} {entries : List FileEntry} (name : Text)
      (meta : FileAttributes)
      → (name ≡ codes ".") ⊎ (name ≡ codes "..")
      → Lists dir es entries
      → Lists dir ((name, meta) ∷ es) entries
  enters :
      {es : List (Text × FileAttributes)} {entries : List FileEntry} (name : Text)
      (meta : FileAttributes) (e : FileEntry)
      → name ≢ codes "."
      → name ≢ codes ".."
      → IsEntryOf dir name meta e
      → Lists dir es entries
      → Lists dir ((name, meta) ∷ es) (e ∷ entries)

map_meta_kind-HasFileKind : (meta : FileAttributes) → HasFileKind meta (map_meta_kind meta)
unfolding map_meta_kind
map_meta_kind-HasFileKind meta = elim (Bool-cases meta.is_symlink) [
  | inl l ↦ rw (map_meta_kind, l) refl
  | inr l ↦ elim (Bool-cases meta.is_dir) [
    | inl d ↦ rw (map_meta_kind, l, d) (refl, refl)
    | inr d ↦ elim (Bool-cases meta.is_regular) [
      | inl r ↦ rw (map_meta_kind, l, d, r) (refl, refl, refl)
      | inr r ↦ rw (map_meta_kind, l, d, r) (refl, refl, refl)
    ]
  ]
]

is_file_iff :
    (meta : FileAttributes)
    → (is_file (map_meta_kind meta) ≡ true)
      ↔ ((meta.is_symlink ≡ false) × (meta.is_dir ≡ false) × (meta.is_regular ≡ true))
unfolding map_meta_kind is_file
is_file_iff meta = elim (Bool-cases meta.is_symlink) [
  | inl l ↦ rw (map_meta_kind, l) (ground arith)
  | inr l ↦ elim (Bool-cases meta.is_dir) [
    | inl d ↦ rw (map_meta_kind, l, d) (ground arith)
    | inr d ↦ elim (Bool-cases meta.is_regular) [
      | inl r ↦ rw (map_meta_kind, l, d, r) (ground arith)
      | inr r ↦ rw (map_meta_kind, l, d, r) (ground arith)
    ]
  ]
]

IsGiven-get_or :
    {A : Type 0} (missing : A) (x : Option A) → IsGiven (λ a. a) missing x (Option.get_or x missing)
IsGiven-get_or missing none = refl
IsGiven-get_or missing (some a) = refl

modified_of-IsGiven : (x : Option ℕ) → IsGiven Modified.seconds Modified.unknown x (modified_of x)
unfolding modified_of
modified_of-IsGiven none = refl
modified_of-IsGiven (some m) = refl

entry_of-IsEntryOf :
    (dir name : Text) (meta : FileAttributes)
    → IsEntryOf dir name meta (entry_of (join_path dir name) name meta)
unfolding entry_of modified_of
entry_of-IsEntryOf dir name meta = record {
  named = refl;
  placed = refl;
  kinded = map_meta_kind-HasFileKind meta;
  sized = IsGiven-get_or 0 meta.size;
  dated = modified_of-IsGiven meta.mtime;
  moded = IsGiven-get_or 0 meta.permissions;
  editable = ground (arith, is_file_iff meta);
}

listed-Lists : (dir : Text) (es : List (Text × FileAttributes)) → Lists dir es (listed dir es)
unfolding listed is_dots
listed-Lists dir [] = ends
listed-Lists dir ((name, meta) ∷ es) =
    let rest = listed-Lists dir es in
    let one = text_eq_iff name (codes ".") in
    let two = text_eq_iff name (codes "..") in
    elim (Bool-cases (is_dots name)) [
      | inl d ↦ rw (listed, d) (passes name meta (ground arith) rest)
      | inr d ↦
          rw (listed, d)
            (enters name meta (entry_of (join_path dir name) name meta) (ground arith)
              (ground arith) (entry_of-IsEntryOf dir name meta) rest)
    ]

module _ {H Sv : Type 0} (server : SftpServer H Sv) where
  -- Where the server lists the directory, `list_dir` succeeds with one entry for each name of the
  -- reply but `.` and `..`, in the order of the reply: at the directory's path joined with the name,
  -- of the kind that the attributes say, a link before all else, with their size, time and mode or
  -- the defaults, and offered to the editor exactly for a regular file whose name looks like text.
  pub list_dir_lem :
      (path dir : Text) (s s' : Sftp Sv) (es : List (Text × FileAttributes)) (sv : Sv)
      → resolve_dir server.canonicalize path s ≡ (dir, s')
      → server.read_dir dir s'.server ≡ (answer es, sv)
      → (entries : List FileEntry) × (list_dir server path s
          ≡ (done entries, record s' { server = sv }))
        × Lists dir es entries
  unfolding list_dir ask settle dir_of
  list_dir_lem path dir s s' es sv h k =
      let finish = λ (d : Text) (t : Sftp Sv) (q : Reply (List (Text × FileAttributes)) × Sv).
        ((λ u. settle server (codes "read_dir") u q) >>= (λ es. pure (listed d es))) t in
      (
        listed dir es,
        ap (λ (r : Text × Sftp Sv). finish r.0 r.1 (server.read_dir r.0 r.1.server)) h
            ∙ ap (finish dir s') k,
        listed-Lists dir es,
      )
