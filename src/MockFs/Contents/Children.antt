-- ===== src/MockFs/Contents/Children.antt =====
-- providers/mock.rs: what `children` lists.
use mathlib.Core.List.{Perm}
use research_ssh_next.Prelude.{
  Text, Bytes, true, false, ◌≡◌, ◌↔◌, ◌⊎◌, inl, inr, List, [], ◌∷◌, ◌++◌, none, some, Option-cases,
  Bool-cases, length, Dict, TextSet, lookup, contains, text_eq, text_eq_iff, strip_prefix-append,
  strip_prefix-eq-some, Unique, arith,
}
use research_ssh_next.Fs.{FileEntry}
use research_ssh_next.MockFs.Ops.{MockFs, dir_prefix}
use research_ssh_next.MockFs.Listing.{
  entry, is_child_name, child_name, child_dirs, child_files, entry_le, insert_entry, sort_entries,
  children,
}
use research_ssh_next.MockFs.Contents.Stable.{peers, sort_entries-peers}
use research_ssh_next.MockFs.Contents.Sorting.{IsSorted, sort_entries-IsSorted, sort_entries-perm}

-- `e` stands in the list.
abbrev pub In : FileEntry → List FileEntry → Type 0
In e [] = ⊥
In e (x ∷ xs) = (e ≡ x) ⊎ In e xs

-- `e` is the entry of a directory, or of a file, directly below the prefix.
abbrev pub IsChildDir : Text → TextSet → FileEntry → Type 0
IsChildDir prefix dirs e =
    (rest : Text) × (is_child_name rest ≡ true)
    × (contains (prefix ++ rest) dirs ≡ true)
    × (e ≡ entry (prefix ++ rest) rest true 0)

abbrev pub IsChildFile : Text → Dict Bytes → FileEntry → Type 0
IsChildFile prefix files e =
    (rest : Text) × (content : Bytes) × (is_child_name rest ≡ true)
    × (lookup (prefix ++ rest) files ≡ some content)
    × (e ≡ entry (prefix ++ rest) rest false (length content))

In-append : (e : FileEntry) (xs ys : List FileEntry) → In e (xs ++ ys) ↔ (In e xs ⊎ In e ys)
In-append e [] ys = (λ i. inr i, λ i. ground arith)
In-append e (x ∷ xs) ys = ground (arith, In-append e xs ys)

In-insert_entry :
    (e x : FileEntry) (xs : List FileEntry) → In e (insert_entry x xs) ↔ ((e ≡ x) ⊎ In e xs)
unfolding insert_entry
In-insert_entry e x [] = ground arith
In-insert_entry e x (y ∷ ys) = elim (Bool-cases (entry_le x y)) [
  | inl le ↦ rw le (ground arith)
  | inr gt ↦ rw gt (ground (arith, In-insert_entry e x ys))
]

In-sort_entries : (e : FileEntry) (xs : List FileEntry) → In e (sort_entries xs) ↔ In e xs
unfolding sort_entries
In-sort_entries e [] = ground arith
In-sort_entries e (x ∷ xs) =
    ground (arith, In-insert_entry e x (sort_entries xs), In-sort_entries e xs)

child_name-eq-some :
    (prefix path rest : Text)
    → child_name prefix path ≡ some rest
    → (path ≡ prefix ++ rest) × (is_child_name rest ≡ true)
unfolding child_name
child_name-eq-some prefix path rest h = ground (arith, strip_prefix-eq-some prefix path rest)

child_name-append :
    (prefix rest : Text)
    → is_child_name rest ≡ true
    → child_name prefix (prefix ++ rest) ≡ some rest
unfolding child_name
child_name-append prefix rest h = ground (arith, strip_prefix-append prefix rest)

module _ (prefix p : Text) (e : FileEntry) where
  IsChildFile-weaken :
      (c : Bytes) (files : Dict Bytes)
      → lookup p files ≡ none
      → IsChildFile prefix files e
      → IsChildFile prefix ((p, c) ∷ files) e
  unfolding lookup
  IsChildFile-weaken c files h (rest, content, ok, there, eq) =
      (rest, content, ok, ground (arith, text_eq_iff p (prefix ++ rest)), eq)

  IsChildDir-weaken :
      (u : Unit {0}) (dirs : TextSet)
      → IsChildDir prefix dirs e
      → IsChildDir prefix ((p, u) ∷ dirs) e
  unfolding contains
  IsChildDir-weaken u dirs (rest, ok, there, eq) = (rest, ok, unfold lookup in ground arith, eq)

In-child_files :
    (prefix : Text) (files : Dict Bytes) (e : FileEntry)
    → Unique files
    → In e (child_files prefix files)
    → IsChildFile prefix files e
unfolding child_files contains
In-child_files prefix [] e u i = absurd i
In-child_files prefix ((p, c) ∷ files) e u i =
    let ih = In-child_files prefix files e u.1 in
    elim (Option-cases (child_name prefix p)) [
      | inl miss ↦ IsChildFile-weaken prefix p e c files (ground arith) (ih (rw miss at i))
      | inr (rest, hit) ↦
          let (at, ok) = child_name-eq-some prefix p rest hit in
          let i' : (e ≡ entry p rest false (length c)) ⊎ In e (child_files prefix files) =
            rw hit at i in
          elim i' [
            | inl eq ↦ (
              rest,
              c,
              ok,
              unfold lookup in ground (arith, text_eq_iff p (prefix ++ rest)),
              ground arith,
            )
            | inr later ↦ IsChildFile-weaken prefix p e c files (ground arith) (ih later)
          ]
    ]

child_files-In :
    (prefix : Text) (files : Dict Bytes) (e : FileEntry)
    → IsChildFile prefix files e
    → In e (child_files prefix files)
unfolding child_files lookup
child_files-In prefix [] e (rest, content, ok, there, eq) = cc
child_files-In prefix ((p, c) ∷ files) e (rest, content, ok, there, eq) =
    elim (Bool-cases (text_eq p (prefix ++ rest))) [
      | inl same ↦ ground (arith, text_eq_iff p (prefix ++ rest), child_name-append prefix rest ok)
      | inr differs ↦
          let later = child_files-In prefix files e (rest, content, ok, ground arith, eq) in
          elim (Option-cases (child_name prefix p)) [
            | inl miss ↦ rw miss later
            | inr (_, hit) ↦ rw hit (inr later)
          ]
    ]

In-child_dirs :
    (prefix : Text) (dirs : TextSet) (e : FileEntry)
    → In e (child_dirs prefix dirs)
    → IsChildDir prefix dirs e
unfolding child_dirs
In-child_dirs prefix [] e i = absurd i
In-child_dirs prefix ((p, u) ∷ dirs) e i =
    let ih = In-child_dirs prefix dirs e in
    elim (Option-cases (child_name prefix p)) [
      | inl miss ↦ IsChildDir-weaken prefix p e u dirs (ih (rw miss at i))
      | inr (rest, hit) ↦
          let (at, ok) = child_name-eq-some prefix p rest hit in
          let i' : (e ≡ entry p rest true 0) ⊎ In e (child_dirs prefix dirs) = rw hit at i in
          elim i' [
            | inl eq ↦ (
              rest,
              ok,
              unfold lookup contains in ground (arith, text_eq_iff p (prefix ++ rest)),
              ground arith,
            )
            | inr later ↦ IsChildDir-weaken prefix p e u dirs (ih later)
          ]
    ]

child_dirs-In :
    (prefix : Text) (dirs : TextSet) (e : FileEntry)
    → IsChildDir prefix dirs e
    → In e (child_dirs prefix dirs)
unfolding child_dirs contains lookup
child_dirs-In prefix [] e (rest, ok, there, eq) = cc
child_dirs-In prefix ((p, u) ∷ dirs) e (rest, ok, there, eq) =
    elim (Bool-cases (text_eq p (prefix ++ rest))) [
      | inl same ↦ ground (arith, text_eq_iff p (prefix ++ rest), child_name-append prefix rest ok)
      | inr differs ↦
          let later = child_dirs-In prefix dirs e (rest, ok, ground arith, eq) in
          elim (Option-cases (child_name prefix p)) [
            | inl miss ↦ rw miss later
            | inr (_, hit) ↦ rw hit (inr later)
          ]
    ]

-- The listing of a directory holds an entry for each directory and each file directly below it, and
-- nothing else, provided that the map of files has one entry for each path.
pub In-children :
    (dir : Text) (fs : MockFs) (e : FileEntry)
    → Unique fs.files
    → In e (children dir fs)
      ↔ (IsChildDir (dir_prefix dir) fs.dirs e ⊎ IsChildFile (dir_prefix dir) fs.files e)
unfolding children
In-children dir fs e u =
    let prefix = dir_prefix dir in
    let ds = child_dirs prefix fs.dirs in
    let gs = child_files prefix fs.files in
    (
      λ i. elim ((In-append e ds gs).0 ((In-sort_entries e (ds ++ gs)).0 i)) [
        | inl d ↦ inl (In-child_dirs prefix fs.dirs e d)
        | inr f ↦ inr (In-child_files prefix fs.files e u f)
      ],
      λ c. (In-sort_entries e (ds ++ gs)).1 (
          (In-append e ds gs).1 (elim c [
            | inl d ↦ inl (child_dirs-In prefix fs.dirs e d)
            | inr f ↦ inr (child_files-In prefix fs.files e f)
          ])),
    )

-- The listing of a directory has every directory before every file, and within each sort the names in
-- the order of a dictionary; it is a rearrangement of what the two loops collect, and entries that
-- compare as equal keep the order in which they were collected.
pub children-IsSorted-perm :
    (dir : Text) (fs : MockFs) (a : FileEntry)
    → let collected =
        child_dirs (dir_prefix dir) fs.dirs ++ child_files (dir_prefix dir) fs.files in
      IsSorted (children dir fs)
      × Perm (children dir fs) collected
      × (peers a (children dir fs) ≡ peers a collected)
unfolding children
children-IsSorted-perm dir fs a =
    let collected = child_dirs (dir_prefix dir) fs.dirs ++ child_files (dir_prefix dir) fs.files in
    (sort_entries-IsSorted collected, sort_entries-perm collected, sort_entries-peers a collected)
