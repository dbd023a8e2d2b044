-- ===== src/MockFs/Subtree/Remove.antt =====
-- providers/mock.rs: what `remove` deletes and what it leaves alone.
use research_ssh_next.Prelude.{
  Text, Bool, true, false, not, ◌&&◌, ◌≡◌, [], ◌∷◌, refl, ◌⊎◌, inl, inr, text_eq, text_eq_iff,
  starts_with, none, Dict, lookup, contains, codes, Bool-cases, lookup-erase, lookup-retain,
  contains-retain, arith,
}
use research_ssh_next.Core.{RsErrorCode, CoreResult, done, fail, with_detail}
use research_ssh_next.MockFs.Ops.{MockFs, dir_prefix, in_subtree, any_key, has_children, remove}

module _ {ℓ} {V : Type ℓ} (p : Text → Bool) where
  any_key-eq-false : (m : Dict V) (j : Text) → any_key p m ≡ false → p j ≡ true → lookup j m ≡ none
  unfolding any_key lookup
  any_key-eq-false [] j h q = refl
  any_key-eq-false ((k, v) ∷ m) j h q = ground (arith, text_eq_iff k j, any_key-eq-false m j)

  any_key-eq-true :
      (m : Dict V) → any_key p m ≡ true → (j : Text) × (p j ≡ true) × (contains j m ≡ true)
  unfolding any_key contains lookup
  any_key-eq-true [] h = cc
  any_key-eq-true ((k, v) ∷ m) h = elim (Bool-cases (p k)) [
    | inl q ↦ (k, q, ground (arith, text_eq_iff k k))
    | inr q ↦
        let (j, q', c) = any_key-eq-true m (ground arith) in
        (j, q', ground (arith, text_eq_iff k j))
  ]

module _ (path : Text) (recursive : Bool) (fs : MockFs) (j : Text) where
  -- Whatever `remove` returns, a path that is neither the one named nor below it keeps what it had.
  pub remove_frame :
      in_subtree path j ≡ false
      → (lookup j (remove path recursive fs).1.files ≡ lookup j fs.files)
        × (contains j (remove path recursive fs).1.dirs ≡ contains j fs.dirs)
  unfolding remove in_subtree
  remove_frame h = ground (
    arith,
    text_eq_iff path j,
    text_eq_iff j path,
    lookup-erase path j fs.files,
    lookup-retain (λ f. not (starts_with (dir_prefix path) f)) j fs.files,
    contains-retain (λ d. not (text_eq d path) && not (starts_with (dir_prefix path) d)) j fs.dirs,
  )

  -- Where no file is at the path, a removal that succeeds leaves neither a directory there nor any
  -- file or directory below it.
  pub remove_gone :
      lookup path fs.files ≡ none
      → (remove path recursive fs).0 ≡ done tt
      → in_subtree path j ≡ true
      → (contains j (remove path recursive fs).1.dirs ≡ false)
        × (starts_with (dir_prefix path) j ≡ true
            → lookup j (remove path recursive fs).1.files ≡ none)
  unfolding remove in_subtree
  remove_gone h d s = ground (
    arith,
    lookup-retain (λ f. not (starts_with (dir_prefix path) f)) j fs.files,
    contains-retain (λ d. not (text_eq d path) && not (starts_with (dir_prefix path) d)) j fs.dirs,
  )

abbrev pub not_empty : CoreResult (Unit {0})
not_empty = fail (with_detail RsErrorCode.invalid_state (codes "directory not empty"))

-- Some directory or file of `fs` lies below `path`.
abbrev pub HasBelow : Text → MockFs → Type 0
HasBelow path fs =
    (j : Text) × (starts_with (dir_prefix path) j ≡ true)
    × ((contains j fs.dirs ≡ true) ⊎ (contains j fs.files ≡ true))

module _ (path : Text) (fs : MockFs) where
  has_children-HasBelow : has_children path fs ≡ true → HasBelow path fs
  unfolding has_children
  has_children-HasBelow h = elim (Bool-cases (any_key (starts_with (dir_prefix path)) fs.dirs)) [
    | inl e ↦
        let (j, s, c) = any_key-eq-true (starts_with (dir_prefix path)) fs.dirs e in (j, s, inl c)
    | inr e ↦
        let (j, s, c) = any_key-eq-true (starts_with (dir_prefix path)) fs.files (ground arith) in
        (j, s, inr c)
  ]

  -- Without `recursive`, a success changes nothing but the path itself.
  pub remove_nonrecursive_frame :
      (j : Text)
      → (remove path false fs).0 ≡ done tt
      → text_eq path j ≡ false
      → (lookup j (remove path false fs).1.files ≡ lookup j fs.files)
        × (contains j (remove path false fs).1.dirs ≡ contains j fs.dirs)
  unfolding remove has_children contains
  remove_nonrecursive_frame j h ne = ground (
    arith,
    text_eq_iff path j,
    text_eq_iff j path,
    lookup-erase path j fs.files,
    lookup-retain (λ f. not (starts_with (dir_prefix path) f)) j fs.files,
    lookup-retain (λ d. not (text_eq d path) && not (starts_with (dir_prefix path) d)) j fs.dirs,
    any_key-eq-false (starts_with (dir_prefix path)) fs.dirs j,
    any_key-eq-false (starts_with (dir_prefix path)) fs.files j,
  )

  -- Where there is a directory and no file at the path, removing it without `recursive` fails exactly
  -- if some file or directory lies below it, and then with `InvalidState` and no change.
  pub remove_not_empty :
      lookup path fs.files ≡ none
      → contains path fs.dirs ≡ true
      → ((remove path false fs ≡ (not_empty, fs)) × HasBelow path fs)
        ⊎ (((remove path false fs).0 ≡ done tt) × ¬ HasBelow path fs)
  unfolding remove
  remove_not_empty h d = elim (Bool-cases (has_children path fs)) [
    | inl e ↦ inl (rw (h, d, e, remove) refl, has_children-HasBelow e)
    | inr e ↦ inr (
      rw (h, d, e, remove) refl,
      unfold has_children contains in
          λ (j, s, c). ground (
            arith,
            any_key-eq-false (starts_with (dir_prefix path)) fs.dirs j,
            any_key-eq-false (starts_with (dir_prefix path)) fs.files j,
          ),
    )
  ]
