-- ===== src/MockFs/Contents/Stable.antt =====
-- providers/mock.rs: the sort of `children` is stable, as that of `sort_by` is.
use research_ssh_next.Prelude.{
  Bool, ◌&&◌, ◌≡◌, refl, ap, ◌∙◌, inl, inr, List, [], ◌∷◌, Bool-cases, if◌then◌else◌, arith,
}
use research_ssh_next.Fs.{FileEntry}
use research_ssh_next.MockFs.Listing.{entry_le, insert_entry, sort_entries}
use research_ssh_next.MockFs.Contents.Sorting.{entry_le_trans}

-- Neither of the two has to stand before the other.
abbrev pub alike : FileEntry → FileEntry → Bool
alike a b = entry_le a b && entry_le b a

-- The entries that are alike to `a`, in their order.
unfoldable pub peers : FileEntry → List FileEntry → List FileEntry
peers a [] = []
peers a (e ∷ es) = if alike a e then e ∷ peers a es else peers a es

insert_entry-peers :
    (a e : FileEntry) (es : List FileEntry) → peers a (insert_entry e es) ≡ peers a (e ∷ es)
unfolding insert_entry peers
insert_entry-peers a e [] = refl
insert_entry-peers a e (x ∷ xs) = elim (Bool-cases (entry_le e x)) [
  | inl le ↦ rw le refl
  | inr gt ↦
      let ih = insert_entry-peers a e xs in
      let t = entry_le_trans e a x in rw gt (ground (arith, ih, t))
]

-- Sorting keeps the order of entries that are alike.
pub sort_entries-peers :
    (a : FileEntry) (es : List FileEntry) → peers a (sort_entries es) ≡ peers a es
unfolding sort_entries peers
sort_entries-peers a [] = refl
sort_entries-peers a (e ∷ es) =
    let ih = sort_entries-peers a es in
    insert_entry-peers a e (sort_entries es) ∙ ap (λ es. if alike a e then e ∷ es else es) ih
