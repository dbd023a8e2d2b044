-- ===== src/MockFs/Subtree/Prefix.antt =====
-- The loops of `rename` and `copy`, which put each entry of a subtree under a new prefix.
use research_ssh_next.Prelude.{
  Text, Bool, false, ◌&&◌, ◌||◌, [], ◌∷◌, ◌++◌, ◌≡◌, refl, inl, inr, text_eq, text_eq_iff,
  text_eq-append, strip_prefix, strip_prefix-append, strip_prefix-eq-some, starts_with,
  replace_first, replace_first-append, Option, none, some, Option-cases, Bool-cases, if◌then◌else◌,
  Dict, TextSet, lookup, contains, erase, retain, insert_all, lookup-insert, contains-insert,
  is_some, or_else, arith,
}
use research_ssh_next.MockFs.Ops.{dir_prefix, in_subtree, renamed_dir}

-- What stands at `j` under the prefix `to` comes from the same place under the prefix `from`.
abbrev pub at_prefix {ℓ} : {V : Type ℓ} → Text → Text → Dict V → Text → Option V
at_prefix from to m j = elim (strip_prefix to j) [ none ↦ none | some r ↦ lookup (from ++ r) m ]

text_eq-prefix :
    (from to r j : Text)
    → text_eq (to ++ r) j
      ≡ (elim (strip_prefix to j) [ none ↦ false | some r' ↦ text_eq (from ++ r) (from ++ r') ])
text_eq-prefix from to r j = elim (Option-cases (strip_prefix to j)) [
  | inl e ↦ rw e (ground (arith, text_eq_iff (to ++ r) j, strip_prefix-append to r))
  | inr (r', e) ↦
      rw (e, strip_prefix-eq-some to j r' e, text_eq-append to r r', text_eq-append from r r') refl
]

module _ {ℓ} {V : Type ℓ} (from to : Text) where
  at_prefix-skip :
      (k : Text) (v : V) (m : Dict V) (j : Text)
      → strip_prefix from k ≡ none
      → at_prefix from to ((k, v) ∷ m) j ≡ at_prefix from to m j
  unfolding lookup
  at_prefix-skip k v m j h = elim (Option-cases (strip_prefix to j)) [
    | inl e ↦ rw (e, at_prefix)
    | inr (r, e) ↦
        rw (e, at_prefix) (ground (arith, text_eq_iff k (from ++ r), strip_prefix-append from r))
  ]

  at_prefix-hit :
      (r : Text) (v : V) (m : Dict V) (j : Text)
      → at_prefix from to ((from ++ r, v) ∷ m) j
        ≡ (if text_eq (to ++ r) j then some v else at_prefix from to m j)
  unfolding lookup
  at_prefix-hit r v m j = elim (Option-cases (strip_prefix to j)) [
    | inl e ↦ rw (text_eq-prefix from to r j, e, at_prefix) refl
    | inr (r', e) ↦ rw (text_eq-prefix from to r j, e, at_prefix) refl
  ]

  pub lookup-insert_all :
      (m n : Dict V) (j : Text)
      → lookup j (insert_all (replace_first from to) (retain (starts_with from) m) n)
        ≡ or_else (at_prefix from to m j) (lookup j n)
  unfolding insert_all retain starts_with
  lookup-insert_all [] n j = unfold lookup in ground arith
  lookup-insert_all ((k, v) ∷ m) n j = elim (Option-cases (strip_prefix from k)) [
    | inl e ↦ rw (e, at_prefix-skip k v m j e) (lookup-insert_all m n j)
    | inr (r, e) ↦
        rw (e, strip_prefix-eq-some from k r e, at_prefix-hit r v m j)
          (ground (
            arith,
            replace_first-append from to r,
            lookup-insert (to ++ r) j v
                (insert_all (replace_first from to) (retain (starts_with from) m) n),
            lookup-insert_all m n j,
          ))
  ]

-- The same for the directories, where `from` itself, which need not lie under its own prefix, becomes `to`.
abbrev pub moved_dir : Text → Text → TextSet → Text → Bool
moved_dir from to m j =
    (text_eq to j && contains from m)
    || is_some (at_prefix (dir_prefix from) (dir_prefix to) (erase from m) j)

module _ (from to : Text) where
  abbrev F : Text
  F = dir_prefix from

  abbrev T : Text
  T = dir_prefix to

  moved_dir-cons :
      (k : Text) (u : Unit {0}) (m : TextSet) (j : Text)
      → moved_dir from to ((k, u) ∷ m) j
        ≡ ((in_subtree from k && text_eq (renamed_dir from to k) j) || moved_dir from to m j)
  unfolding in_subtree renamed_dir starts_with contains
  moved_dir-cons k u m j = elim (Bool-cases (text_eq k from)) [
    | inl e ↦
        rw ((text_eq_iff k from).0 e) (unfold lookup erase in ground (arith, text_eq_iff from from))
    | inr e ↦ elim (Option-cases (strip_prefix F k)) [
      | inl e' ↦ unfold lookup erase in ground (arith, at_prefix-skip F T k u (erase from m) j e')
      | inr (r, e') ↦
          unfold lookup erase in
          ground (
            arith,
            strip_prefix-eq-some F k r e',
            at_prefix-hit F T r u (erase from m) j,
            replace_first-append F T r,
          )
    ]
  ]

  pub contains-insert_all :
      (m n : TextSet) (j : Text)
      → contains j (insert_all (renamed_dir from to) (retain (in_subtree from) m) n)
        ≡ (moved_dir from to m j || contains j n)
  unfolding insert_all retain
  contains-insert_all [] n j = unfold contains lookup erase in ground arith
  contains-insert_all ((k, u) ∷ m) n j = ground (
    arith,
    moved_dir-cons k u m j,
    contains-insert (renamed_dir from to k) j tt
        (insert_all (renamed_dir from to) (retain (in_subtree from) m) n),
    contains-insert_all m n j,
  )
