-- ===== src/Russh/Sftp/Remove/Terminates.antt =====
-- providers/russh.rs: how deep `remove` can go.
use research_ssh_next.Prelude.{
  append_assoc, ℕ, zero, suc, ◌+◌, ◌≤◌, ◌<◌, Text, Bool, true, false, ◌≡◌, refl, sym, ◌∙◌, inl, inr,
  List, [], ◌∷◌, ◌++◌, All, Option, none, some, Bool-cases, length, length-append, codes, text_eq,
  starts_with, trim_end, trim_step, arith,
}
use research_ssh_next.Core.{CoreResult, done, fail}
use research_ssh_next.Russh.Sftp.{Sftp, join_path, home_dir, resolve_path}
use research_ssh_next.Russh.Sftp.Server.{Reply, answer, refusal, FileAttributes, SftpServer}
use research_ssh_next.Russh.Sftp.Ops.{ask, settle, is_dots}
use research_ssh_next.Russh.Sftp.Remove.{
  Fueled, and_then, with_answer, is_real_dir, remove_entries, read_and_remove, unlink,
  remove_one_dir, remove_as, remove_step, remove,
}
use research_ssh_next.Russh.Sftp.Remove.Posix.{names_of}
use research_ssh_next.Russh.Sftp.Paths.{IsName, is_slash, slash_name, one_more, trim_end-append}

-- What the depth relies on: a directory has a path of at most `max` characters, and the names of
-- entries are names.
pub record IsBounded {H Sv : Type 0} (server : SftpServer H Sv) (max : ℕ) : Type 0 where
  pub shallow :
      (sv : Sv) (p : Text) (meta : FileAttributes)
      → (server.symlink_metadata p sv).0 ≡ answer meta
      → is_real_dir meta ≡ true
      → length p ≤ max
  pub named :
      (sv : Sv) (p : Text) (es : List (Text × FileAttributes))
      → (server.read_dir p sv).0 ≡ answer es
      → All IsName (names_of es)

trim_step_le : (c : ℕ) (s : Text) (n : ℕ) → length s ≤ n → length (trim_step is_slash c s) ≤ suc n
unfolding trim_step
trim_step_le c [] n h = ground arith
trim_step_le c (d ∷ t) n h = omega arith

trim_end-le : (p : Text) → length (trim_end is_slash p) ≤ length p
unfolding trim_end
trim_end-le [] = omega arith
trim_end-le (c ∷ p) = trim_step_le c (trim_end is_slash p) (length p) (trim_end-le p)

slash-ne-nil : (x y : Text) → text_eq (x ++ b'/' ∷ y) [] ≡ false
unfolding text_eq
slash-ne-nil [] y = refl
slash-ne-nil (c ∷ x) y = refl

slash-ne-dot : (x y : Text) → text_eq (x ++ b'/' ∷ y) (codes ".") ≡ false
unfolding text_eq
slash-ne-dot [] y = refl
slash-ne-dot (c ∷ x) y = ground (arith, slash-ne-nil x y)

-- A path with a slash keeps its end when it is resolved.
resolve_path-suffix :
    {Sv : Type 0} (canonicalize : Text → Sv → Option Text × Sv) (x y : Text) (s : Sftp Sv)
    → (front : Text) × ((resolve_path canonicalize (x ++ b'/' ∷ y) s).0 ≡ front ++ (x ++ b'/' ∷ y))
unfolding resolve_path join_path
resolve_path-suffix canonicalize x y s =
    let t = x ++ b'/' ∷ y in
    elim (Bool-cases (starts_with (codes "/") t)) [
      | inl a ↦ ([], rw (resolve_path, slash-ne-nil x y, slash-ne-dot x y, a) refl)
      | inr a ↦
          (let front = trim_end is_slash (home_dir canonicalize s).0 in
            (
              front ++ b'/' ∷ [],
              (rw (resolve_path, slash-ne-nil x y, slash-ne-dot x y, a) refl)
                  ∙ sym (append_assoc front (b'/' ∷ []) t),
            ))
    ]

module _ {H Sv : Type 0} (server : SftpServer H Sv) (max : ℕ) (bounded : IsBounded server max) where
  -- The length that grows with the depth.
  abbrev pub size : Text → Sftp Sv → ℕ
  size path s = length (trim_end is_slash (resolve_path server.canonicalize path s).0)

  child_size :
      (p n : Text) (s : Sftp Sv)
      → IsName n
      → length (trim_end is_slash p) + 1 < size (join_path p n) s
  unfolding join_path
  child_size p n s ok =
      let x = trim_end is_slash p in
      let (front, e) = resolve_path-suffix server.canonicalize x n s in
      let whole : (resolve_path server.canonicalize (x ++ b'/' ∷ n) s).0
          ≡ (front ++ x) ++ b'/' ∷ n =
        e ∙ sym (append_assoc front x (b'/' ∷ n)) in
      let kept = trim_end-append (front ++ x) b'/' n (slash_name n ok) in
      rw (whole, kept)
        (omega (arith, length-append (front ++ x) (b'/' ∷ n), length-append front x, one_more n ok))

  abbrev pub Ends : Fueled Sv → Type 0
  Ends r = (x : CoreResult (Unit {0}) × Sftp Sv) × (r ≡ some x)

  and_then-Ends :
      (m : Fueled Sv) (k : Sftp Sv → Fueled Sv)
      → Ends m
      → ((s : Sftp Sv) → Ends (k s))
      → Ends (and_then m k)
  and_then-Ends none k (x, e) h = cc
  and_then-Ends (some (fail e, s)) k m h = ((fail e, s), refl)
  and_then-Ends (some (done _, s)) k m h = h s

  with_answer-Ends :
      {A : Type 0} (r : CoreResult A × Sftp Sv) (k : A → Sftp Sv → Fueled Sv)
      → ((a : A) (s : Sftp Sv) → r ≡ (done a, s) → Ends (k a s))
      → Ends (with_answer r k)
  with_answer-Ends (fail e, s) k h = ((fail e, s), refl)
  with_answer-Ends (done a, s) k h = h a s refl

  module _ (call : Text → Sftp Sv → Fueled Sv) where
    entries-Ends :
        (dir : Text) (es : List (Text × FileAttributes)) (s : Sftp Sv)
        → ((n : Text) (s : Sftp Sv) → IsName n → Ends (call (join_path dir n) s))
        → All IsName (names_of es)
        → Ends (remove_entries server call dir es s)
    unfolding remove_entries names_of
    entries-Ends dir [] s h ok = ((done tt, s), refl)
    entries-Ends dir ((n, meta) ∷ es) s h ok = elim (Bool-cases (is_dots n)) [
      | inl d ↦ rw (remove_entries, d) (entries-Ends dir es s h (rw (names_of, d) at ok))
      | inr d ↦
          (let names : IsName n × All IsName (names_of es) = rw (names_of, d) at ok in
            rw (remove_entries, d)
              (and_then-Ends (call (join_path dir n) s) (remove_entries server call dir es)
                (h n s names.0) (λ s'. entries-Ends dir es s' h names.1)))
    ]

    settled :
        {A : Type 0} (stage : Text) (s s' : Sftp Sv) (a : A) (x : Reply A × Sv)
        → settle server stage s x ≡ (done a, s')
        → x.0 ≡ answer a
    unfolding settle
    settled stage s s' a (answer b, sv) h = cc
    settled stage s s' a (refusal e, sv) h = cc

    answered :
        {A : Type 0} (stage : Text) (request : Sv → Reply A × Sv) (s s' : Sftp Sv) (a : A)
        → ask server stage request s ≡ (done a, s')
        → (request s.server).0 ≡ answer a
    unfolding ask
    answered stage request s s' a h = settled stage s s' a (request s.server) h

    as-Ends :
        (meta : FileAttributes) (p : Text) (recursive : Bool) (s : Sftp Sv)
        → (is_real_dir meta ≡ true
            → (n : Text) (s' : Sftp Sv) → IsName n
            → Ends (call (join_path p n) s'))
        → Ends (remove_as server call meta p recursive s)
    unfolding remove_as unlink remove_one_dir read_and_remove
    as-Ends meta p recursive s h = elim (Bool-cases (is_real_dir meta)) [
      | inr d ↦ rw (remove_as, d) (_, refl)
      | inl d ↦ elim (Bool-cases recursive) [
        | inr r ↦ rw (remove_as, d, r) (_, refl)
        | inl r ↦
            rw (remove_as, d, r)
              (and_then-Ends (read_and_remove server call p s) (remove_one_dir server call p)
                (with_answer-Ends (ask server (codes "read_dir") (server.read_dir p) s)
                  (remove_entries server call p)
                  (λ es s' e. entries-Ends p es s' (h d) (
                    bounded.named s.server p es
                      (answered (codes "read_dir") (server.read_dir p) s s' es e))))
                (λ s'. (_, refl)))
      ]
    ]

    step-Ends :
        (path : Text) (recursive : Bool) (s : Sftp Sv)
        → (length (resolve_path server.canonicalize path s).0 ≤ max
            → (n : Text) (s' : Sftp Sv) → IsName n
            → Ends (call (join_path (resolve_path server.canonicalize path s).0 n) s'))
        → Ends (remove_step server call path recursive s)
    unfolding remove_step
    step-Ends path recursive s h =
        let p = (resolve_path server.canonicalize path s).0 in
        let s1 = (resolve_path server.canonicalize path s).1 in
        with_answer-Ends (ask server (codes "stat") (server.symlink_metadata p) s1)
          (λ meta. remove_as server call meta p recursive)
          (λ meta s2 e. as-Ends meta p recursive s2 (λ d. h (
            bounded.shallow s1.server p meta
              (answered (codes "stat") (server.symlink_metadata p) s1 s2 meta e) d)))

  pub remove-Ends :
      (fuel : ℕ) (path : Text) (recursive : Bool) (s : Sftp Sv)
      → 0 < fuel
      → max + 1 < fuel + size path s
      → Ends (remove server fuel path recursive s)
  unfolding remove
  remove-Ends zero path recursive s f h = absurd (omega arith)
  remove-Ends (suc fuel) path recursive s f h =
      let p = (resolve_path server.canonicalize path s).0 in
      step-Ends (λ q. remove server fuel q true) path recursive s
        (λ short n s' ok.
          remove-Ends fuel (join_path p n) true s' (omega (arith, trim_end-le p))
            (omega (arith, child_size p n s' ok)))
