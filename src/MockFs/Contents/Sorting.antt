-- ===== src/MockFs/Contents/Sorting.antt =====
-- providers/mock.rs: the order in which `children` lists its entries.
use mathlib.Core.List.{Perm}
use mathlib.Core.List.Perm
use research_ssh_next.Prelude.{
  ℕ, ◌<◌, Text, true, false, ◌≡◌, ◌≢◌, refl, ap, ◌⊎◌, inl, inr, ◌↔◌, List, [], ◌∷◌, ◌++◌, All,
  Bool-cases, ltb, arith,
}
use research_ssh_next.Fs.{FileKind, FileEntry}
use research_ssh_next.MockFs.Listing.{is_directory, text_le, entry_le, insert_entry, sort_entries}

-- `s` is not after `t` in the order of a dictionary: it is a beginning of `t`, or the first difference
-- of the two is smaller in `s`.
abbrev pub NotAfter : Text → Text → Type 0
NotAfter s t =
    ((r : Text) × (t ≡ s ++ r))
    ⊎ ((p : Text) × (c : ℕ) × (d : ℕ) × (x : Text) × (y : Text) × (s ≡ p ++ c ∷ x)
        × (t ≡ p ++ d ∷ y)
        × (c < d))

-- Directories come before all else, and entries of one sort in the order of their names.
pub data Precedes : FileEntry → FileEntry → Type 0 where
  by_sort :
      {a b : FileEntry} → a.kind ≡ FileKind.directory → b.kind ≢ FileKind.directory → Precedes a b
  by_name :
      {a b : FileEntry}
      → (a.kind ≡ FileKind.directory) ↔ (b.kind ≡ FileKind.directory)
      → NotAfter a.name b.name
      → Precedes a b

-- Every entry precedes all that follow it.
abbrev pub IsSorted : List FileEntry → Type 0
IsSorted [] = Unit {0}
IsSorted (e ∷ es) = All (Precedes e) es × IsSorted es

-- Sorted by the comparison that the code makes.
abbrev IsOrdered : List FileEntry → Type 0
IsOrdered [] = Unit {0}
IsOrdered (e ∷ es) = All (λ x. entry_le e x ≡ true) es × IsOrdered es

after_head : (c : ℕ) (s t : Text) → NotAfter s t → NotAfter (c ∷ s) (c ∷ t)
after_head c s t (inl (r, e)) = inl (r, ap (λ u. c ∷ u) e)
after_head c s t (inr (p, k, d, x, y, e, e', lt)) =
    inr (c ∷ p, k, d, x, y, ap (λ u. c ∷ u) e, ap (λ u. c ∷ u) e', lt)

text_le-NotAfter : (s t : Text) → text_le s t ≡ true → NotAfter s t
unfolding text_le
text_le-NotAfter [] t h = inl (t, refl)
text_le-NotAfter (c ∷ s) [] h = cc
text_le-NotAfter (c ∷ s) (d ∷ t) h = elim (Bool-cases (ltb c d)) [
  | inl lt ↦ inr ([], c, d, s, t, refl, refl, ground arith)
  | inr ge ↦
      let same : d ≡ c = ground arith in
      let rest : text_le s t ≡ true = ground arith in
      rw same (after_head c s t (text_le-NotAfter s t rest))
]

is_directory_iff : (k : FileKind) → (is_directory k ≡ true) ↔ (k ≡ FileKind.directory)
unfolding is_directory
is_directory_iff FileKind.directory = (λ h. refl, λ h. refl)
is_directory_iff FileKind.file = (λ h. cc, λ h. cc)
is_directory_iff FileKind.symlink = (λ h. cc, λ h. cc)
is_directory_iff FileKind.other = (λ h. cc, λ h. cc)

entry_le-Precedes : (a b : FileEntry) → entry_le a b ≡ true → Precedes a b
unfolding entry_le
entry_le-Precedes a b h =
    let da = is_directory_iff a.kind in
    let db = is_directory_iff b.kind in
    elim (Bool-cases (is_directory a.kind)) [
      | inl x ↦ elim (Bool-cases (is_directory b.kind)) [
        | inl y ↦ by_name (ground arith) (text_le-NotAfter a.name b.name (rw (entry_le, x, y) at h))
        | inr y ↦ by_sort (da.0 x) (ground arith)
      ]
      | inr x ↦ elim (Bool-cases (is_directory b.kind)) [
        | inl y ↦ (let bad = rw (entry_le, x, y) at h in cc)
        | inr y ↦ by_name (ground arith) (text_le-NotAfter a.name b.name (rw (entry_le, x, y) at h))
      ]
    ]

All-Precedes :
    (a : FileEntry) (es : List FileEntry) → All (λ x. entry_le a x ≡ true) es → All (Precedes a) es
All-Precedes a [] h = tt
All-Precedes a (e ∷ es) h = (entry_le-Precedes a e h.0, All-Precedes a es h.1)

IsOrdered-IsSorted : (es : List FileEntry) → IsOrdered es → IsSorted es
IsOrdered-IsSorted [] h = tt
IsOrdered-IsSorted (e ∷ es) h = (All-Precedes e es h.0, IsOrdered-IsSorted es h.1)

text_le_total : (s t : Text) → text_le s t ≡ false → text_le t s ≡ true
unfolding text_le
text_le_total [] t h = cc
text_le_total (c ∷ s) [] h = refl
text_le_total (c ∷ s) (d ∷ t) h = ground (arith, text_le_total s t)

text_le_trans : (s t u : Text) → text_le s t ≡ true → text_le t u ≡ true → text_le s u ≡ true
unfolding text_le
text_le_trans [] t u h k = refl
text_le_trans (c ∷ s) [] u h k = cc
text_le_trans (c ∷ s) (d ∷ t) [] h k = cc
text_le_trans (c ∷ s) (d ∷ t) (e ∷ u) h k = ground (arith, text_le_trans s t u)

entry_le_total : (a b : FileEntry) → entry_le a b ≡ false → entry_le b a ≡ true
unfolding entry_le
entry_le_total a b h = ground (arith, text_le_total a.name b.name)

pub entry_le_trans :
    (a b c : FileEntry) → entry_le a b ≡ true → entry_le b c ≡ true → entry_le a c ≡ true
unfolding entry_le
entry_le_trans a b c h k = ground (arith, text_le_trans a.name b.name c.name)

All-entry_le :
    (a b : FileEntry) (es : List FileEntry)
    → entry_le a b ≡ true
    → All (λ x. entry_le b x ≡ true) es
    → All (λ x. entry_le a x ≡ true) es
All-entry_le a b [] h k = tt
All-entry_le a b (e ∷ es) h k = (entry_le_trans a b e h k.0, All-entry_le a b es h k.1)

All-insert_entry {κ} :
    (P : FileEntry → Type κ) (e : FileEntry) (es : List FileEntry)
    → P e
    → All P es
    → All P (insert_entry e es)
unfolding insert_entry
All-insert_entry P e [] h k = (h, k)
All-insert_entry P e (x ∷ xs) h k = elim (Bool-cases (entry_le e x)) [
  | inl le ↦ rw le (h, k)
  | inr gt ↦ rw gt (k.0, All-insert_entry P e xs h k.1)
]

insert_entry-IsOrdered :
    (e : FileEntry) (es : List FileEntry) → IsOrdered es → IsOrdered (insert_entry e es)
unfolding insert_entry
insert_entry-IsOrdered e [] s = (tt, tt)
insert_entry-IsOrdered e (x ∷ xs) s = elim (Bool-cases (entry_le e x)) [
  | inl le ↦ rw le ((le, All-entry_le e x xs le s.0), s)
  | inr gt ↦ rw gt (
    All-insert_entry (λ y. entry_le x y ≡ true) e xs (entry_le_total e x gt) s.0,
    insert_entry-IsOrdered e xs s.1,
  )
]

insert_entry-perm : (e : FileEntry) (es : List FileEntry) → Perm (insert_entry e es) (e ∷ es)
unfolding insert_entry
insert_entry-perm e [] = Perm.refl (e ∷ [])
insert_entry-perm e (x ∷ xs) = elim (Bool-cases (entry_le e x)) [
  | inl le ↦ rw le (Perm.refl (e ∷ x ∷ xs))
  | inr gt ↦ rw gt (Perm.trans (Perm.cons x (insert_entry-perm e xs)) (Perm.swap e x xs))
]

sort_entries-IsOrdered : (es : List FileEntry) → IsOrdered (sort_entries es)
unfolding sort_entries
sort_entries-IsOrdered [] = tt
sort_entries-IsOrdered (e ∷ es) = insert_entry-IsOrdered e _ (sort_entries-IsOrdered es)

pub sort_entries-perm : (es : List FileEntry) → Perm (sort_entries es) es
unfolding sort_entries
sort_entries-perm [] = Perm.refl []
sort_entries-perm (e ∷ es) = Perm.trans (insert_entry-perm e _) (Perm.cons e (sort_entries-perm es))

pub sort_entries-IsSorted : (es : List FileEntry) → IsSorted (sort_entries es)
sort_entries-IsSorted es = IsOrdered-IsSorted (sort_entries es) (sort_entries-IsOrdered es)
