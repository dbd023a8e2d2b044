-- ===== src/Russh/Sftp/Remove/Posix.antt =====
-- providers/russh.rs: what a recursive removal relies on of the server. `view` is the entry at each
-- physical path, one that leads through no link.
use research_ssh_next.Prelude.{
  ℕ, ◌≤◌, Text, Bool, true, false, ◌≡◌, List, [], ◌∷◌, any, Option, none, some, is_some, length,
  text_eq, if◌then◌else◌,
}
use research_ssh_next.Russh.Sftp.{join_path}
use research_ssh_next.Russh.Sftp.Server.{answer, FileAttributes, SftpServer}
use research_ssh_next.Russh.Sftp.Ops.{is_dots}
use research_ssh_next.Russh.Sftp.Paths.{IsName, below, inside}

pub data Node : Type 0 where
  file link directory : Node

abbrev pub is_directory : Node → Bool
is_directory directory = true
is_directory file = false
is_directory link = false

-- What the attributes of an entry say: nothing is said of the other test on a link.
abbrev pub HasKind : Node → FileAttributes → Type 0
HasKind directory meta = (meta.is_dir ≡ true) × (meta.is_symlink ≡ false)
HasKind link meta = meta.is_symlink ≡ true
HasKind file meta = meta.is_dir ≡ false

-- The names of a reply to `read_dir` but for the two dot entries.
unfoldable pub names_of : List (Text × FileAttributes) → List Text
names_of [] = []
names_of ((name, meta) ∷ entries) =
    let rest = names_of entries in if is_dots name then rest else name ∷ rest

-- Different names, each of an entry of the directory.
abbrev pub AreEntries : (Text → Option Node) → Text → List Text → Type 0
AreEntries look dir [] = Unit {0}
AreEntries look dir (n ∷ ns) =
    IsName n
    × (is_some (look (join_path dir n)) ≡ true)
    × (any (text_eq n) ns ≡ false)
    × AreEntries look dir ns

-- A path inside one of the entries.
abbrev pub in_entries : Text → List Text → Text → Bool
in_entries dir ns q = any (λ n. inside (join_path dir n) q) ns

-- The tree at `p` is gone, and nothing else has changed.
abbrev pub Removed : (Text → Option Node) → Text → (Text → Option Node) → Type 0
Removed look p look' = (q : Text) → look' q ≡ (if inside p q then none else look q)

pub record IsPosix {H Sv : Type 0} (server : SftpServer H Sv) (view : Sv → Text → Option Node)
    (max : ℕ) : Type 0 where
  -- LSTAT tells the kinds apart, and changes nothing
  pub attributes :
      (sv : Sv) (p : Text) (k : Node)
      → view sv p ≡ some k
      → (meta : FileAttributes) × (server.symlink_metadata p sv ≡ (answer meta, sv))
        × HasKind k meta
  -- a directory lists its entries, and whatever exists below it is inside one of them
  pub entries :
      (sv : Sv) (p : Text)
      → view sv p ≡ some directory
      → (es : List (Text × FileAttributes)) × (server.read_dir p sv ≡ (answer es, sv))
        × AreEntries (view sv) p (names_of es)
        × ((q : Text)
            → below p q ≡ true
            → is_some (view sv q) ≡ true
            → in_entries p (names_of es) q ≡ true)
  -- nothing exists below what is no directory
  pub leaf :
      (sv : Sv) (p q : Text) (k : Node)
      → view sv p ≡ some k
      → is_directory k ≡ false
      → below p q ≡ true
      → view sv q ≡ none
  -- REMOVE takes one entry that is no directory
  pub unlinks :
      (sv : Sv) (p : Text) (k : Node)
      → view sv p ≡ some k
      → is_directory k ≡ false
      → (sv' : Sv) × (server.remove_file p sv ≡ (answer tt, sv'))
        × ((q : Text) → view sv' q ≡ (if text_eq q p then none else view sv q))
  -- RMDIR takes one empty directory
  pub rmdirs :
      (sv : Sv) (p : Text)
      → view sv p ≡ some directory
      → ((q : Text) → below p q ≡ true → view sv q ≡ none)
      → (sv' : Sv) × (server.remove_dir p sv ≡ (answer tt, sv'))
        × ((q : Text) → view sv' q ≡ (if text_eq q p then none else view sv q))
  -- paths are at most so long
  pub bounded : (sv : Sv) (p : Text) (k : Node) → view sv p ≡ some k → length p ≤ max
