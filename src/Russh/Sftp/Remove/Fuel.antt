-- ===== src/Russh/Sftp/Remove/Fuel.antt =====
-- providers/russh.rs: `remove` with more fuel than it needs, and with enough.
use research_ssh_next.Prelude.{
  ℕ, zero, suc, ◌+◌, Text, Bool, true, ◌≡◌, refl, inl, inr, List, [], ◌∷◌, none, some, Bool-cases,
  arith, codes,
}
use research_ssh_next.Core.{CoreResult, done, fail}
use research_ssh_next.Russh.Sftp.{Sftp, join_path, resolve_path}
use research_ssh_next.Russh.Sftp.Server.{FileAttributes, SftpServer}
use research_ssh_next.Russh.Sftp.Ops.{ask, is_dots}
use research_ssh_next.Russh.Sftp.Remove.{
  Fueled, and_then, with_answer, is_real_dir, remove_entries, read_and_remove, unlink,
  remove_one_dir, remove_as, remove_step, remove,
}
use research_ssh_next.Russh.Sftp.Remove.Terminates.{IsBounded, remove-Ends}

module _ {H Sv : Type 0} (server : SftpServer H Sv) where
  -- Every result of the left is one of the right.
  abbrev Keeps : Fueled Sv → Fueled Sv → Type 0
  Keeps m m' = (x : CoreResult (Unit {0}) × Sftp Sv) → m ≡ some x → m' ≡ some x

  and_then-Keeps :
      (m m' : Fueled Sv) (k k' : Sftp Sv → Fueled Sv)
      → Keeps m m'
      → ((s : Sftp Sv) → Keeps (k s) (k' s))
      → Keeps (and_then m k) (and_then m' k')
  and_then-Keeps none m' k k' h hk x e = cc
  and_then-Keeps (some (fail e', s)) m' k k' h hk x e = rw (h (fail e', s) refl) e
  and_then-Keeps (some (done _, s)) m' k k' h hk x e = rw (h (done _, s) refl) (hk s x e)

  with_answer-Keeps :
      {A : Type 0} (r : CoreResult A × Sftp Sv) (k k' : A → Sftp Sv → Fueled Sv)
      → ((a : A) (s : Sftp Sv) → Keeps (k a s) (k' a s))
      → Keeps (with_answer r k) (with_answer r k')
  with_answer-Keeps (fail e', s) k k' hk x e = e
  with_answer-Keeps (done a, s) k k' hk x e = hk a s x e

  module _ (call call' : Text → Sftp Sv → Fueled Sv)
      (keeps : (p : Text) (s : Sftp Sv) → Keeps (call p s) (call' p s)) where
    entries-Keeps :
        (dir : Text) (es : List (Text × FileAttributes)) (s : Sftp Sv)
        → Keeps (remove_entries server call dir es s) (remove_entries server call' dir es s)
    unfolding remove_entries
    entries-Keeps dir [] s = λ x e. e
    entries-Keeps dir ((n, meta) ∷ es) s = elim (Bool-cases (is_dots n)) [
      | inl d ↦ rw (remove_entries, d) (entries-Keeps dir es s)
      | inr d ↦
          rw (remove_entries, d)
            (and_then-Keeps (call (join_path dir n) s) (call' (join_path dir n) s)
              (remove_entries server call dir es) (remove_entries server call' dir es)
              (keeps (join_path dir n) s) (entries-Keeps dir es))
    ]

    as-Keeps :
        (meta : FileAttributes) (p : Text) (recursive : Bool) (s : Sftp Sv)
        → Keeps
            (remove_as server call meta p recursive s)
            (remove_as server call' meta p recursive s)
    unfolding remove_as unlink remove_one_dir read_and_remove
    as-Keeps meta p recursive s = elim (Bool-cases (is_real_dir meta)) [
      | inr d ↦ rw (remove_as, d) (λ x e. e)
      | inl d ↦ elim (Bool-cases recursive) [
        | inr r ↦ rw (remove_as, d, r) (λ x e. e)
        | inl r ↦
            rw (remove_as, d, r)
              (and_then-Keeps (read_and_remove server call p s) (read_and_remove server call' p s)
                (remove_one_dir server call p) (remove_one_dir server call' p)
                (with_answer-Keeps (ask server (codes "read_dir") (server.read_dir p) s)
                  (remove_entries server call p) (remove_entries server call' p) (entries-Keeps p))
                (λ s' x e. e))
      ]
    ]

    step-Keeps :
        (path : Text) (recursive : Bool) (s : Sftp Sv)
        → Keeps
            (remove_step server call path recursive s)
            (remove_step server call' path recursive s)
    unfolding remove_step
    step-Keeps path recursive s =
        let p = (resolve_path server.canonicalize path s).0 in
        let s1 = (resolve_path server.canonicalize path s).1 in
        with_answer-Keeps (ask server (codes "stat") (server.symlink_metadata p) s1)
          (λ meta. remove_as server call meta p recursive)
          (λ meta. remove_as server call' meta p recursive)
          (λ meta s2. as-Keeps meta p recursive s2)

  more_fuel :
      (fuel k : ℕ) (path : Text) (recursive : Bool) (s : Sftp Sv)
      → Keeps (remove server fuel path recursive s) (remove server (fuel + k) path recursive s)
  unfolding remove
  more_fuel zero k path recursive s x e = cc
  more_fuel (suc fuel) k path recursive s x e =
      let shape : suc fuel + k ≡ suc (fuel + k) = omega arith in
      rw shape (
        step-Keeps (λ p. remove server fuel p true) (λ p. remove server (fuel + k) p true)
          (λ p t. more_fuel fuel k p true t) path recursive s x e)

  -- Over a server whose directories have paths of at most `max` characters and whose listings give,
  -- but for the two dot entries, only names that are not empty and hold no slash, removing any path
  -- ends with a result, at a depth of at most `max + 2`, and more fuel gives the same result.
  pub remove_terminates :
      (max : ℕ)
      → IsBounded server max
      → (k : ℕ) (path : Text) (recursive : Bool) (s : Sftp Sv)
      → (r : CoreResult (Unit {0}) × Sftp Sv) × (remove server (max + 2) path recursive s ≡ some r)
        × (remove server (max + 2 + k) path recursive s ≡ some r)
  remove_terminates max bounded k path recursive s =
      let (r, e) =
        remove-Ends server max bounded (max + 2) path recursive s (omega arith) (omega arith) in
      (r, e, more_fuel (max + 2) k path recursive s r e)
