-- ===== src/Russh/Sftp/Ops.antt =====
-- providers/russh.rs: the methods of `SftpFileProvider` but `remove`.
pub mod Listed
use research_ssh_next.Prelude.{
  ℕ, Text, Bytes, Bool, true, false, ◌&&◌, ◌||◌, List, [], ◌∷◌, Option, none, some, codes, text_eq,
  ltb, if◌then◌else◌,
}
use mathlib.Core.Option
use research_ssh_next.Core.{CoreError, CoreResult, done, fail}
use research_ssh_next.Fs.{FileKind, Modified, FileEntry}
use research_ssh_next.Fs.LooksLikeText.{looks_like_text}
use research_ssh_next.MockFs.{base_name}
use research_ssh_next.Russh.Sftp.{Sftp, join_path, resolve_dir, resolve_path}
use research_ssh_next.Russh.Sftp.Server.{
  Reply, answer, refusal, FileAttributes, SftpServer, map_meta_kind, sftp_err,
}

-- A method fails or returns a value, and leaves a state.
abbrev pub Method : Type 0 → Type 0 → Type 0
Method Sv A = Sftp Sv → CoreResult A × Sftp Sv

infixl 5 ◌>>=◌
abbrev pub ◌>>=◌ : {Sv A B : Type 0} → Method Sv A → (A → Method Sv B) → Method Sv B
◌>>=◌ m f s = let (r, s') = m s in elim r [ done a ↦ f a s' | fail e ↦ (fail e, s') ]

abbrev pub pure : {Sv A : Type 0} → A → Method Sv A
pure a s = (done a, s)

-- `kind == FileKind::File`
unfoldable pub is_file : FileKind → Bool
is_file FileKind.file = true
is_file FileKind.directory = false
is_file FileKind.symlink = false
is_file FileKind.other = false

-- `name == "." || name == ".."`
unfoldable pub is_dots : Text → Bool
unfolding text_eq
is_dots name = text_eq name (codes ".") || text_eq name (codes "..")

unfoldable pub modified_of : Option ℕ → Modified
modified_of none = Modified.unknown
modified_of (some m) = Modified.seconds m

-- The record that `list_dir` and `stat` build.
unfoldable pub entry_of : Text → Text → FileAttributes → FileEntry
unfolding map_meta_kind is_file modified_of
entry_of path name meta =
    let kind = map_meta_kind meta in
    record {
      name = name;
      path = path;
      kind = kind;
      size = Option.get_or meta.size 0;
      modified_unix = modified_of meta.mtime;
      mode = Option.get_or meta.permissions 0;
      editable_text = is_file kind && looks_like_text name;
    }

-- The loop of `list_dir`.
unfoldable pub listed : Text → List (Text × FileAttributes) → List FileEntry
unfolding is_dots entry_of join_path
listed dir [] = []
listed dir ((name, meta) ∷ entries) =
    let rest = listed dir entries in
    if is_dots name then rest else entry_of (join_path dir name) name meta ∷ rest

module _ {H Sv : Type 0} (server : SftpServer H Sv) where
  -- A request, with the stage that its error names.
  unfoldable pub settle : {A : Type 0} → Text → Sftp Sv → Reply A × Sv → CoreResult A × Sftp Sv
  unfolding sftp_err
  settle stage s (answer a, sv) = (done a, record s { server = sv })
  settle stage s (refusal e, sv) = (fail (sftp_err stage e), record s { server = sv })

  unfoldable pub ask : {A : Type 0} → Text → (Sv → Reply A × Sv) → Method Sv A
  unfolding settle
  ask stage request s = settle stage s (request s.server)

  unfoldable pub dir_of : Text → Method Sv Text
  unfolding resolve_dir
  dir_of path s = let (p, s') = resolve_dir server.canonicalize path s in (done p, s')

  unfoldable pub path_of : Text → Method Sv Text
  unfolding resolve_path
  path_of path s = let (p, s') = resolve_path server.canonicalize path s in (done p, s')

  unfoldable pub list_dir : Text → Method Sv (List FileEntry)
  unfolding ask dir_of listed
  list_dir path = do
    dir ← dir_of path
    entries ← ask (codes "read_dir") (server.read_dir dir)
    pure (listed dir entries)

  unfoldable pub stat : Text → Method Sv FileEntry
  unfolding ask path_of entry_of base_name
  stat path = do
    p ← path_of path
    meta ← ask (codes "metadata") (server.metadata p)
    pure (entry_of p (base_name p) meta)

  unfoldable pub read_file : Text → ℕ → Method Sv Bytes
  unfolding ask path_of
  read_file path max_len = do
    p ← path_of path
    file ← ask (codes "open") (server.open_file p)
    if ltb 0 max_len
        then ask (codes "read") (server.read_to_end_of_take max_len file)
        else ask (codes "read") (server.read_to_end file)

  unfoldable pub write_file : Text → Bytes → Method Sv (Unit {0})
  unfolding ask path_of
  write_file path bytes = do
    p ← path_of path
    file ← ask (codes "create") (server.create p)
    ask (codes "write") (server.write_all file bytes)

  unfoldable pub rename : Text → Text → Method Sv (Unit {0})
  unfolding ask path_of
  rename from to = do p ← path_of from; q ← path_of to; ask (codes "rename") (server.rename p q)

  unfoldable pub mkdir : Text → Method Sv (Unit {0})
  unfolding ask path_of
  mkdir path = do p ← path_of path; ask (codes "mkdir") (server.create_dir p)

  unfoldable pub copy : Text → Text → Method Sv (Unit {0})
  unfolding ask path_of
  copy from to = do
    p ← path_of from
    q ← path_of to
    bytes ← ask (codes "copy read") (server.read p)
    file ← ask (codes "copy create") (server.create q)
    ask (codes "copy write") (server.write_all file bytes)
