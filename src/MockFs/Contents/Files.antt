-- ===== src/MockFs/Contents/Files.antt =====
-- providers/mock.rs: what `read_file` returns, and what is read after a write.
use research_ssh_next.Prelude.{
  ℕ, zero, suc, ◌≤◌, ◌<◌, Text, Bytes, ◌≡◌, refl, text_eq, text_eq_iff, none, some, if◌then◌else◌,
  List, [], ◌∷◌, ap, Option-cases, inl, inr, length, take, length-take, lookup, lookup-insert,
  arith,
}
use mathlib.Core.Path.{subst}
use research_ssh_next.Core.{done, fail}
use research_ssh_next.Fs.ReadsBack.{capped, ReadsBack}
use research_ssh_next.MockFs.Provider.{mock_file_provider}
use research_ssh_next.MockFs.Ops.{MockFs, Fallible, read_file, write_file, not_found}

take-all {ℓ} : {A : Type ℓ} (n : ℕ) (xs : List A) → length xs ≤ n → take n xs ≡ xs
take-all zero [] h = refl
take-all zero (x ∷ xs) h = absurd (omega arith)
take-all (suc n) [] h = refl
take-all (suc n) (x ∷ xs) h = ap (λ t. x ∷ t) (take-all n xs (omega arith))

-- What is read after a write is what was written, up to the cap, and reading changes nothing; a
-- path that was never written is an error that names it.
pub read_file-write_file :
    (path j : Text) (max_len : ℕ) (bytes : Bytes) (fs : MockFs)
    → read_file j max_len (write_file path bytes fs).1 ≡ (
        if text_eq path j
        then (done (capped max_len bytes), (write_file path bytes fs).1)
        else ((read_file j max_len fs).0, (write_file path bytes fs).1))
unfolding read_file write_file
read_file-write_file path j max_len bytes fs =
    ground (arith, lookup-insert path j bytes fs.files, take-all max_len bytes)

-- A read has the content up to the cap, or the error of a missing file.
pub read_file_lem :
    (path : Text) (max_len : ℕ) (fs : MockFs)
    → read_file path max_len fs ≡ (elim (lookup path fs.files) [
      | none ↦ (fail (not_found path), fs)
      | some bytes ↦ (done (capped max_len bytes), fs)
    ])
unfolding read_file
read_file_lem path max_len fs = elim (Option-cases (lookup path fs.files)) [
  | inl e ↦ rw (e, read_file)
  | inr (bytes, e) ↦ rw (e, read_file) (ground (arith, take-all max_len bytes))
]

-- With a cap, no read returns more bytes than it allows.
pub read_file_bound :
    (path : Text) (max_len : ℕ) (fs : MockFs) (bytes : Bytes)
    → 0 < max_len
    → (read_file path max_len fs).0 ≡ done bytes
    → length bytes ≤ max_len
unfolding read_file
read_file_bound path max_len fs bytes p h = elim (Option-cases (lookup path fs.files)) [
  | inl e ↦ ground arith
  | inr (stored, e) ↦ ground (arith, length-take max_len stored)
]

-- Over the mock a write always succeeds.
pub mock_file_provider-ReadsBack : ReadsBack mock_file_provider
mock_file_provider-ReadsBack = record {
  reads_back = λ path bytes max_len s s' e.
      let same : (write_file path bytes s).1 ≡ s' = ap (λ (r : Fallible (Unit {0})). r.1) e in
      subst (λ s''. (t : MockFs) × (read_file path max_len s'' ≡ (done (capped max_len bytes), t)))
        same
        (
          (write_file path bytes s).1,
          ground (arith, read_file-write_file path path max_len bytes s, text_eq_iff path path),
        );
}
