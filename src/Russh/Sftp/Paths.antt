-- ===== src/Russh/Sftp/Paths.antt =====
-- providers/russh.rs: texts that are paths, and the paths below them.
use research_ssh_next.Prelude.{
  append_assoc, ℕ, ◌<◌, Text, Bool, true, false, ◌||◌, ◌==◌, ◌≡◌, ◌≢◌, refl, ap, ◌∙◌, ◌⊎◌, inl, inr,
  [], ◌∷◌, ◌++◌, length, length-append, Option, Option-cases, Bool-cases, codes, text_eq,
  text_eq_iff, text_eq-append, strip_prefix, strip_prefix-append, strip_prefix-eq-some, starts_with,
  contains_char, trim_end, trim_step, arith,
}
use research_ssh_next.Russh.Sftp.{Sftp, join_path, resolve_dir, resolve_path}

abbrev pub is_slash : ℕ → Bool
is_slash c = c == b'/'

-- A name of an entry.
pub record IsName (n : Text) : Type 0 where
  pub nonempty : n ≢ []
  pub no_slash : contains_char b'/' n ≡ false

-- An absolute path with no slash at its end.
pub record IsClean (p : Text) : Type 0 where
  pub absolute : starts_with (codes "/") p ≡ true
  pub trimmed : trim_end is_slash p ≡ p

abbrev pub below : Text → Text → Bool
below p q = starts_with (p ++ b'/' ∷ []) q

-- The path itself, or one below it.
abbrev pub inside : Text → Text → Bool
inside p q = text_eq q p || below p q

starts_with-append_both : (p s t : Text) → starts_with (p ++ s) (p ++ t) ≡ starts_with s t
unfolding starts_with strip_prefix
starts_with-append_both [] s t = refl
starts_with-append_both (c ∷ p) s t = ground (arith, starts_with-append_both p s t)

starts_with-append : (p r : Text) → starts_with p (p ++ r) ≡ true
unfolding starts_with
starts_with-append p r = rw (strip_prefix-append p r) refl

starts_with-split : (p q : Text) → starts_with p q ≡ true → (r : Text) × (q ≡ p ++ r)
unfolding starts_with
starts_with-split p q h = elim (Option-cases (strip_prefix p q)) [
  | inl e ↦ (let bad = rw e at h in absurd (cc))
  | inr (r, e) ↦ (r, strip_prefix-eq-some p q r e)
]

starts_with-slash :
    (n m : Text) → starts_with (n ++ b'/' ∷ []) m ≡ true → contains_char b'/' m ≡ true
unfolding starts_with strip_prefix contains_char
starts_with-slash [] [] h = cc
starts_with-slash [] (d ∷ m) h = ground arith
starts_with-slash (c ∷ n) [] h = cc
starts_with-slash (c ∷ n) (d ∷ m) h = ground (arith, starts_with-slash n m)

trim_end-name : (n : Text) → contains_char b'/' n ≡ false → trim_end is_slash n ≡ n
unfolding contains_char trim_end
trim_end-name [] h = refl
trim_end-name (c ∷ []) h = ground arith
trim_end-name (c ∷ d ∷ n) h = ground (arith, trim_end-name (d ∷ n))

pub trim_end-append :
    (p : Text) (c : ℕ) (n : Text)
    → trim_end is_slash (c ∷ n) ≡ c ∷ n
    → trim_end is_slash (p ++ c ∷ n) ≡ p ++ c ∷ n
unfolding trim_end
trim_end-append [] c n h = h
trim_end-append (x ∷ []) c n h = rw h refl
trim_end-append (x ∷ y ∷ p) c n h = ap (trim_step is_slash x) (trim_end-append (y ∷ p) c n h)

pub slash_name : (n : Text) → IsName n → trim_end is_slash (b'/' ∷ n) ≡ b'/' ∷ n
unfolding trim_end
slash_name [] ok = absurd (ok.nonempty refl)
slash_name (d ∷ n) ok = ap (trim_step is_slash b'/') (trim_end-name (d ∷ n) ok.no_slash)

pub one_more : (n : Text) → IsName n → 0 < length n
one_more [] ok = absurd (ok.nonempty refl)
one_more (d ∷ n) ok = omega arith

text_eq_sym : (s t : Text) → text_eq s t ≡ false → text_eq t s ≡ false
text_eq_sym s t h = ground (arith, text_eq_iff s t, text_eq_iff t s)

cancel : (p r : Text) → p ≡ p ++ r → length r ≡ 0
cancel p r e = omega (arith, ap length e, length-append p r)

no_slash_no_tree :
    (n m : Text) → contains_char b'/' m ≡ false → starts_with (n ++ b'/' ∷ []) m ≡ false
no_slash_no_tree n m h = elim (Bool-cases (starts_with (n ++ b'/' ∷ []) m)) [
  | inl t ↦ absurd (cc (starts_with-slash n m t))
  | inr f ↦ f
]

below_rest : (p r : Text) → below p (p ++ b'/' ∷ r) ≡ true
below_rest p r = starts_with-append_both p (b'/' ∷ []) (b'/' ∷ r) ∙ starts_with-append (b'/' ∷ []) r

inside-cases : (p q : Text) → inside p q ≡ true → (q ≡ p) ⊎ (below p q ≡ true)
inside-cases p q h = elim (Bool-cases (text_eq q p)) [
  | inl t ↦ inl ((text_eq_iff q p).0 t)
  | inr f ↦ inr (rw f at h)
]

pub not_below_self : (p : Text) → below p p ≡ false
not_below_self p = elim (Bool-cases (below p p)) [
  | inr f ↦ f
  | inl t ↦
      (let (r, e) = starts_with-split (p ++ b'/' ∷ []) p t in
        absurd (
          omega
            (arith, ap length e, length-append (p ++ b'/' ∷ []) r, length-append p (b'/' ∷ []))))
]

module _ (p : Text) (clean : IsClean p) where
  pub join_path_clean : (n : Text) → join_path p n ≡ p ++ b'/' ∷ n
  unfolding join_path
  join_path_clean n = rw clean.trimmed refl

  absolute_path : (r : Text) → starts_with (codes "/") (p ++ r) ≡ true
  absolute_path r =
      let (rest, e) = starts_with-split (codes "/") p clean.absolute in
      rw e (starts_with-append (codes "/") (rest ++ r))

  pub join_path-IsClean : (n : Text) → IsName n → IsClean (join_path p n)
  join_path-IsClean n ok = rw (join_path_clean n) (record {
    absolute = absolute_path (b'/' ∷ n);
    trimmed = trim_end-append p b'/' n (slash_name n ok);
  })

  pub length-join_path : (n : Text) → IsName n → length p < length (join_path p n)
  length-join_path n ok = rw (join_path_clean n) (omega (arith, length-append p (b'/' ∷ n)))

  -- Entries with different names have nothing in common.
  pub siblings_apart :
      (n m : Text)
      → IsName n
      → IsName m
      → text_eq n m ≡ false
      → inside (join_path p n) (join_path p m) ≡ false
  siblings_apart n m h k apart =
      let names : text_eq (p ++ b'/' ∷ m) (p ++ b'/' ∷ n) ≡ text_eq m n =
        text_eq-append p (b'/' ∷ m) (b'/' ∷ n) ∙ text_eq-append (b'/' ∷ []) m n in
      let trees : below (p ++ b'/' ∷ n) (p ++ b'/' ∷ m) ≡ starts_with (n ++ b'/' ∷ []) m =
        ap (λ t. starts_with t (p ++ b'/' ∷ m)) (append_assoc p (b'/' ∷ n) (b'/' ∷ []))
        ∙ (starts_with-append_both p (b'/' ∷ (n ++ b'/' ∷ [])) (b'/' ∷ m)
            ∙ starts_with-append_both (b'/' ∷ []) (n ++ b'/' ∷ []) m) in
      let other = text_eq_sym n m apart in
      rw (join_path_clean n, join_path_clean m, names, trees, other)
        (no_slash_no_tree n m k.no_slash)

  pub inside-below : (n q : Text) → inside (join_path p n) q ≡ true → below p q ≡ true
  inside-below n q h = elim (inside-cases (p ++ b'/' ∷ n) q (rw (join_path_clean n) at h)) [
    | inl e ↦ rw e (below_rest p n)
    | inr t ↦
        (let (r, e) = starts_with-split ((p ++ b'/' ∷ n) ++ b'/' ∷ []) q t in
          let assoc : q ≡ p ++ b'/' ∷ (n ++ b'/' ∷ r) =
            e
            ∙ (append_assoc (p ++ b'/' ∷ n) (b'/' ∷ []) r ∙ append_assoc p (b'/' ∷ n) (b'/' ∷ r)) in
          rw assoc (below_rest p (n ++ b'/' ∷ r)))
  ]

  pub not_inside_child : (n : Text) → inside (join_path p n) p ≡ false
  not_inside_child n = elim (Bool-cases (inside (join_path p n) p)) [
    | inr f ↦ f
    | inl t ↦ (let under = inside-below n p t in absurd (cc (not_below_self p)))
  ]

pub resolve_path_clean :
    {Sv : Type 0} (canonicalize : Text → Sv → Option Text × Sv) (p : Text) (s : Sftp Sv)
    → IsClean p
    → resolve_path canonicalize p s ≡ (p, s)
unfolding resolve_path resolve_dir starts_with strip_prefix text_eq
resolve_path_clean canonicalize [] s h = ground arith
resolve_path_clean canonicalize (c ∷ p) s h = ground arith

below-append : (root p t : Text) → below root p ≡ true → below root (p ++ t) ≡ true
below-append root p t h =
    let (r, e) = starts_with-split (root ++ b'/' ∷ []) p h in
    rw (e, append_assoc (root ++ b'/' ∷ []) r t) (starts_with-append (root ++ b'/' ∷ []) (r ++ t))

below-inside : (root q : Text) → below root q ≡ true → inside root q ≡ true
below-inside root q h = ground (arith, h)

-- The entries of a directory in a tree are in the tree.
pub inside_child :
    (root p n : Text) → IsClean p → inside root p ≡ true → inside root (join_path p n) ≡ true
inside_child root p n clean h = rw (join_path_clean p clean n) (elim (inside-cases root p h) [
  | inl e ↦ rw e (below-inside root (root ++ b'/' ∷ n) (below_rest root n))
  | inr b ↦ below-inside root (p ++ b'/' ∷ n) (below-append root p (b'/' ∷ n) b)
])
