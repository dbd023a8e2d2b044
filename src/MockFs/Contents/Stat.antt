-- ===== src/MockFs/Contents/Stat.antt =====
-- providers/mock.rs: `stat` beside the listing of a directory.
use research_ssh_next.Prelude.{
  append_assoc, ℕ, Text, Bytes, true, false, ◌||◌, ◌==◌, ◌≡◌, refl, inl, inr, [], ◌∷◌, ◌++◌, none,
  some, codes, lookup, contains, contains_char, text_eq_iff, trim_end, Unique, Bool-cases, arith,
}
use research_ssh_next.Core.{done}
use research_ssh_next.Fs.{FileEntry}
use research_ssh_next.MockFs.Ops.{MockFs, resolve, dir_prefix}
use research_ssh_next.MockFs.Listing.{entry, is_child_name, base_name, children, stat}
use research_ssh_next.MockFs.Contents.Children.{In, In-children, IsChildDir, IsChildFile}

contains_char-append :
    (c : ℕ) (s t : Text) → contains_char c (s ++ t) ≡ (contains_char c s || contains_char c t)
unfolding contains_char
contains_char-append c [] t = refl
contains_char-append c (d ∷ s) t = ground (arith, contains_char-append c s t)

base_name-no_slash : (s : Text) → contains_char b'/' s ≡ false → base_name s ≡ s
unfolding base_name
base_name-no_slash [] h = refl
base_name-no_slash (c ∷ s) h = rw h refl

base_name-append :
    (s rest : Text) → contains_char b'/' rest ≡ false → base_name (s ++ b'/' ∷ rest) ≡ rest
unfolding base_name contains_char
base_name-append [] rest h = ground (arith, base_name-no_slash rest h)
base_name-append (c ∷ s) rest h =
    ground (arith, base_name-append s rest h, contains_char-append b'/' s (b'/' ∷ rest))

-- A path with a slash is neither empty nor `.`, so it stands for itself.
resolve-slash : (s : Text) → contains_char b'/' s ≡ true → resolve s ≡ s
unfolding resolve contains_char
resolve-slash s h = ground (arith, text_eq_iff s [], text_eq_iff s (codes "."))

abbrev stem : Text → Text
stem dir = trim_end (λ c. c == b'/') dir

module _ (dir rest : Text) (ok : is_child_name rest ≡ true) where
  prefix_split : dir_prefix dir ++ rest ≡ stem dir ++ b'/' ∷ rest
  unfolding dir_prefix
  prefix_split = append_assoc (stem dir) (b'/' ∷ []) rest

  base_name-child : base_name (dir_prefix dir ++ rest) ≡ rest
  unfolding is_child_name
  base_name-child = rw prefix_split (base_name-append (stem dir) rest (ground arith))

  resolve-child : resolve (dir_prefix dir ++ rest) ≡ dir_prefix dir ++ rest
  unfolding contains_char
  resolve-child =
      resolve-slash (dir_prefix dir ++ rest)
        (rw prefix_split (ground (arith, contains_char-append b'/' (stem dir) (b'/' ∷ rest))))

-- No path is a directory and a file at once.
abbrev pub IsDisjoint : MockFs → Type 0
IsDisjoint fs = (j : Text) → contains j fs.dirs ≡ true → lookup j fs.files ≡ none

module _ (dir : Text) (fs : MockFs) (e : FileEntry) (apart : IsDisjoint fs) where
  stat-child_dir : IsChildDir (dir_prefix dir) fs.dirs e → stat e.path fs ≡ (done e, fs)
  unfolding stat entry
  stat-child_dir (rest, ok, there, eq) =
      rw (eq, stat) (rw (resolve-child dir rest ok, there) (rw (base_name-child dir rest ok) refl))

  not_dir : (p : Text) (c : Bytes) → lookup p fs.files ≡ some c → contains p fs.dirs ≡ false
  not_dir p c h = elim (Bool-cases (contains p fs.dirs)) [
    | inl d ↦ ground (arith, apart p d)
    | inr n ↦ n
  ]

  stat-child_file : IsChildFile (dir_prefix dir) fs.files e → stat e.path fs ≡ (done e, fs)
  unfolding stat entry
  stat-child_file (rest, content, ok, there, eq) = ground (
    arith,
    eq,
    resolve-child dir rest ok,
    not_dir (dir_prefix dir ++ rest) content there,
    base_name-child dir rest ok,
  )

  -- Each entry that a directory lists is what `stat` says of its path, where the map of files has
  -- one entry for each path and no path is a directory and a file at once.
  pub stat-children : Unique fs.files → In e (children dir fs) → stat e.path fs ≡ (done e, fs)
  stat-children u i = elim ((In-children dir fs e u).0 i) [
    | inl d ↦ stat-child_dir d
    | inr f ↦ stat-child_file f
  ]
