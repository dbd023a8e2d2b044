-- ===== src/Examples/Filesystem.antt =====
-- Runs over the seeded filesystem of the mock backend.
use research_ssh_next.Prelude.{
  Text, true, false, not, ◌&&◌, ◌||◌, ◌≡◌, refl, ◌⊎◌, inl, [], ◌∷◌, ◌++◌, none, some, codes,
  text_eq, text_eq_iff, starts_with, strip_prefix, trim_end, lookup, contains, erase, insert,
  retain, erase_all, insert_all, if◌then◌else◌, or_else, contains_char, replace_first, arith,
}
use mathlib.Core.List.{Perm}
use research_ssh_next.Core.{done}
use research_ssh_next.Fs.{FileEntry}
use research_ssh_next.MockFs.{
  MockFs, dir_prefix, in_subtree, rename, copy, remove, move_files, renamed_file, any_key,
  has_children, children, entry, stat, child_name, is_child_name, child_dirs, child_files,
  base_name, mkdir, read_file, resolve,
}
use research_ssh_next.MockFs.Subtree.Rename.{moved_file, rename-dir, copy-dir, rename-copy-file}
use research_ssh_next.MockFs.Subtree.Prefix.{moved_dir}
use research_ssh_next.MockFs.Subtree.Remove.{
  remove_gone, remove_frame, remove_not_empty, not_empty, HasBelow,
}
use research_ssh_next.MockFs.Contents.Children.{children-IsSorted-perm}
use research_ssh_next.MockFs.Contents.Stable.{peers}
use research_ssh_next.MockFs.Contents.Sorting.{IsSorted}
use research_ssh_next.MockFs.Contents.Stat.{stat-children, IsDisjoint}

abbrev home : Text
home = codes "/h"

abbrev notes : Text
notes = codes "/h/n.md"

-- A directory with one file.
abbrev small : MockFs
small = record { dirs = (home, tt) ∷ []; files = (notes, 1 ∷ 2 ∷ 3 ∷ []) ∷ [] }

abbrev backup : Text
backup = codes "/b"

rename-dir_example :
    ((rename home backup small).0 ≡ done tt)
    × (lookup (codes "/b/n.md") (rename home backup small).1.files
        ≡ or_else (moved_file home backup small.files (codes "/b/n.md")) (
            if starts_with (dir_prefix home) (codes "/b/n.md")
            then none
            else lookup (codes "/b/n.md") small.files))
    × (contains (codes "/b/n.md") (rename home backup small).1.dirs ≡ (
        moved_dir home backup small.dirs (codes "/b/n.md")
        || (not (in_subtree home (codes "/b/n.md")) && contains (codes "/b/n.md") small.dirs)))
unfolding lookup contains text_eq
rename-dir_example = rename-dir home backup small (codes "/b/n.md") refl refl

-- The renamed file, at its new path.
rename_moves_file :
    lookup (codes "/b/n.md") (rename home backup small).1.files ≡ some (1 ∷ 2 ∷ 3 ∷ [])
unfolding rename move_files renamed_file lookup contains text_eq starts_with dir_prefix trim_end
    replace_first erase insert retain erase_all insert_all
rename_moves_file = refl

copy-dir_example :
    ((copy home backup small).0 ≡ done tt)
    × (lookup (codes "/b/n.md") (copy home backup small).1.files
        ≡ or_else
            (moved_file home backup small.files (codes "/b/n.md"))
            (lookup (codes "/b/n.md") small.files))
    × (contains (codes "/b/n.md") (copy home backup small).1.dirs ≡ (
        moved_dir home backup small.dirs (codes "/b/n.md")
        || contains (codes "/b/n.md") small.dirs))
unfolding lookup contains text_eq
copy-dir_example = copy-dir home backup small (codes "/b/n.md") refl refl

rename-copy-file_example :
    ((rename notes backup small).0 ≡ done tt)
    × (lookup notes (rename notes backup small).1.files ≡ (
        if text_eq backup notes
        then some (1 ∷ 2 ∷ 3 ∷ [])
        else if text_eq notes notes
        then none
        else lookup notes small.files))
    × ((rename notes backup small).1.dirs ≡ small.dirs)
    × ((copy notes backup small).0 ≡ done tt)
    × (lookup notes (copy notes backup small).1.files
        ≡ (if text_eq backup notes then some (1 ∷ 2 ∷ 3 ∷ []) else lookup notes small.files))
    × ((copy notes backup small).1.dirs ≡ small.dirs)
unfolding lookup text_eq
rename-copy-file_example = rename-copy-file notes backup small notes (1 ∷ 2 ∷ 3 ∷ []) refl

remove_frame_example :
    (lookup notes (remove backup true small).1.files ≡ lookup notes small.files)
    × (contains notes (remove backup true small).1.dirs ≡ contains notes small.dirs)
unfolding in_subtree dir_prefix text_eq starts_with trim_end
remove_frame_example = remove_frame backup true small notes refl

remove_gone_example :
    (contains notes (remove home true small).1.dirs ≡ false)
    × (starts_with (dir_prefix home) notes ≡ true
        → lookup notes (remove home true small).1.files ≡ none)
unfolding in_subtree dir_prefix text_eq starts_with trim_end lookup remove contains has_children
    any_key
remove_gone_example = remove_gone home true small notes refl refl refl

abbrev bare : MockFs
bare = record { dirs = (home, tt) ∷ []; files = [] }

remove_not_empty_example :
    ((remove home false small ≡ (not_empty, small)) × HasBelow home small)
    ⊎ (((remove home false small).0 ≡ done tt) × ¬ HasBelow home small)
unfolding text_eq lookup contains
remove_not_empty_example = remove_not_empty home small refl refl

abbrev texts : MockFs
texts = record { dirs = []; files = (notes, codes "abc") ∷ [] }

abbrev notes_entry : FileEntry
notes_entry = entry notes (codes "n.md") false 3

children-IsSorted-perm_example :
    let collected =
      child_dirs (dir_prefix home) small.dirs ++ child_files (dir_prefix home) small.files in
    IsSorted (children home small)
    × Perm (children home small) collected
    × (peers notes_entry (children home small) ≡ peers notes_entry collected)
children-IsSorted-perm_example = children-IsSorted-perm home small notes_entry

small-IsDisjoint : IsDisjoint small
unfolding contains lookup
small-IsDisjoint j h = ground (arith, text_eq_iff home j, text_eq_iff notes j)

stat-children_example : stat notes small ≡ (done notes_entry, small)
unfolding contains lookup entry children dir_prefix trim_end child_name strip_prefix is_child_name
    contains_char text_eq
stat-children_example = stat-children home small notes_entry small-IsDisjoint (refl, tt) (inl refl)

-- The path of a file can be made a directory: `stat` then finds the directory, `read_file` the file.
mkdir_over_file :
    ((stat notes (mkdir notes small).1).0 ≡ done (entry notes (codes "n.md") true 0))
    × ((read_file notes 0 (mkdir notes small).1).0 ≡ done (1 ∷ 2 ∷ 3 ∷ []))
unfolding mkdir stat read_file resolve base_name contains insert erase lookup text_eq contains_char
mkdir_over_file = (refl, refl)
