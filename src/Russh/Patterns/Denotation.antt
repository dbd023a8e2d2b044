-- ===== src/Russh/Patterns/Denotation.antt =====
-- providers/russh.rs: what a host pattern stands for.
use research_ssh_next.Prelude.{
  ℕ, Text, Bytes, into_bytes, true, ◌≡◌, refl, ◌≢◌, ◌↔◌, ◌⊎◌, inl, inr, [], ◌∷◌, ◌++◌, ◌==◌, lower,
  Bool-cases, ap, arith,
}
use research_ssh_next.Russh.Patterns.{matches_bytes, host_pattern_matches}

-- `*` stands for any bytes, `?` for any one byte, and any other byte for itself, an ASCII letter in
-- either case.
abbrev pub Denotes : Bytes → Bytes → Type 0
Denotes [] t = t ≡ []
Denotes (c ∷ p) t =
    ((s : Bytes) × (r : Bytes) × (c ≡ b'*') × (t ≡ s ++ r) × Denotes p r)
    ⊎ (((x : ℕ) × (r : Bytes) × (c ≡ b'?') × (t ≡ x ∷ r) × Denotes p r)
        ⊎ ((x : ℕ) × (r : Bytes) × (c ≢ b'*')
            × (c ≢ b'?')
            × (t ≡ x ∷ r)
            × (lower c ≡ lower x)
            × Denotes p r))

-- `*` may take one more byte.
star_more : (c x : ℕ) (p t : Bytes) → c ≡ b'*' → Denotes (c ∷ p) t → Denotes (c ∷ p) (x ∷ t)
star_more c x p t e (inl (s, r, _, q, d)) = inl (x ∷ s, r, e, ap (λ u. x ∷ u) q, d)
star_more c x p t e (inr (inl (_, _, q, _, _))) = absurd (omega arith)
star_more c x p t e (inr (inr (_, _, q, _, _, _, _))) = absurd (q e)

matches-Denotes : (p t : Bytes) → matches_bytes p t ≡ true → Denotes p t
unfolding matches_bytes
matches-Denotes [] [] h = refl
matches-Denotes [] (t ∷ ts) h = cc
matches-Denotes (c ∷ p) [] h = inl ([], [], ground arith, refl, matches-Denotes p [] (ground arith))
matches-Denotes (c ∷ p) (t ∷ ts) h = elim (Bool-cases (c == b'*')) [
  | inl star ↦ elim (Bool-cases (matches_bytes p (t ∷ ts))) [
    | inl skip ↦ inl ([], t ∷ ts, ground arith, refl, matches-Denotes p (t ∷ ts) skip)
    | inr more ↦ star_more c t p ts (ground arith) (matches-Denotes (c ∷ p) ts (ground arith))
  ]
  | inr other ↦ elim (Bool-cases (c == b'?')) [
    | inl any ↦ inr (inl (t, ts, ground arith, refl, matches-Denotes p ts (ground arith)))
    | inr plain ↦ inr (
        inr (
          t,
          ts,
          ground arith,
          ground arith,
          refl,
          ground arith,
          matches-Denotes p ts (ground arith),
        ))
  ]
]

-- Where the rest matches behind some bytes, `*` and the rest match the whole.
star-matches : (p s r : Bytes) → matches_bytes p r ≡ true → matches_bytes (b'*' ∷ p) (s ++ r) ≡ true
unfolding matches_bytes
star-matches p [] [] h = ground arith
star-matches p [] (x ∷ r) h = ground arith
star-matches p (x ∷ s) r h = ground (arith, star-matches p s r h)

one_char :
    (c x : ℕ) (p r : Bytes)
    → c ≢ b'*'
    → c ≢ b'?'
    → lower c ≡ lower x
    → matches_bytes p r ≡ true
    → matches_bytes (c ∷ p) (x ∷ r) ≡ true
unfolding matches_bytes
one_char c x p r n1 n2 same h = ground arith

any_char :
    (x : ℕ) (p r : Bytes) → matches_bytes p r ≡ true → matches_bytes (b'?' ∷ p) (x ∷ r) ≡ true
unfolding matches_bytes
any_char x p r h = h

Denotes-matches : (p t : Bytes) → Denotes p t → matches_bytes p t ≡ true
Denotes-matches [] [] d = unfold matches_bytes in refl
Denotes-matches [] (t ∷ ts) d = cc
Denotes-matches (c ∷ p) t (inl (s, r, star, q, d)) =
    rw (q, star) (star-matches p s r (Denotes-matches p r d))
Denotes-matches (c ∷ p) t (inr (inl (x, r, any, q, d))) =
    let ih = Denotes-matches p r d in rw (q, any) (any_char x p r ih)
Denotes-matches (c ∷ p) t (inr (inr (x, r, n1, n2, q, same, d))) =
    let ih = Denotes-matches p r d in rw q (one_char c x p r n1 n2 same ih)

-- The matcher accepts exactly the hosts whose UTF-8 bytes the bytes of the pattern denote.
pub host_pattern_matches_iff :
    (pattern host : Text)
    → (host_pattern_matches pattern host ≡ true) ↔ Denotes (into_bytes pattern) (into_bytes host)
unfolding host_pattern_matches
host_pattern_matches_iff pattern host = (
  matches-Denotes (into_bytes pattern) (into_bytes host),
  Denotes-matches (into_bytes pattern) (into_bytes host),
)
