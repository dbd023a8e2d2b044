-- ===== src/Examples/Disk/Local.antt =====
-- Which paths of the server with one directory and one link are physical, and that its requests
-- there are local.
use research_ssh_next.Prelude.{
  Bool, not, ◌∷◌, strip_prefix, Text, true, false, ◌≡◌, inl, inr, refl, [], Bool-cases, codes,
  text_eq, text_eq_iff, starts_with, contains_char, trim_end, trim_step, arith,
}
use mathlib.Core.Path.{subst}
use research_ssh_next.Russh.Sftp.{join_path}
use research_ssh_next.Russh.Sftp.Server.{Reply, answer, refusal, FileAttributes}
use research_ssh_next.Russh.Sftp.Remove.Local.{IsLocal}
use research_ssh_next.Russh.Sftp.Paths.{IsName, below}
use research_ssh_next.Examples.Disk.{
  Disk, full, no_link, gone, dir, dir_link, attributes, attributes_of, view, remove_file,
  remove_dir, server,
}
use research_ssh_next.Examples.Disk.Laws.{AllNames, all_named}

-- What lies below the link leads through it.
unfoldable pub physical : Disk → Text → Bool
unfolding starts_with
physical full q = not (below dir_link q)
physical no_link q = true
physical gone q = true

unlink_local :
    (disk : Disk) (p q : Text) → text_eq q p ≡ false → view (remove_file p disk).1 q ≡ view disk q
unfolding remove_file view text_eq
unlink_local full p q h = elim (Bool-cases (text_eq p dir_link)) [
  | inl e ↦
      (let apart : text_eq q dir_link ≡ false =
          subst (λ r. text_eq q r ≡ false) ((text_eq_iff p dir_link).0 e) h in
        rw (remove_file, e, apart) refl)
  | inr e ↦ rw (remove_file, e) refl
]
unlink_local no_link p q h = refl
unlink_local gone p q h = refl

rmdir_local :
    (disk : Disk) (p q : Text) → text_eq q p ≡ false → view (remove_dir p disk).1 q ≡ view disk q
unfolding remove_dir view text_eq
rmdir_local full p q h = refl
rmdir_local no_link p q h = elim (Bool-cases (text_eq p dir)) [
  | inl e ↦
      (let apart : text_eq q dir ≡ false =
          subst (λ r. text_eq q r ≡ false) ((text_eq_iff p dir).0 e) h in
        rw (remove_dir, e, apart) refl)
  | inr e ↦ rw (remove_dir, e) refl
]
rmdir_local gone p q h = refl

unlink_physical :
    (disk : Disk) (p q : Text) → physical disk q ≡ true → physical (remove_file p disk).1 q ≡ true
unfolding remove_file physical
unlink_physical full p q h = elim (Bool-cases (text_eq p dir_link)) [
  | inl e ↦ rw (remove_file, e) refl
  | inr e ↦ rw (remove_file, e) h
]
unlink_physical no_link p q h = refl
unlink_physical gone p q h = refl

rmdir_physical :
    (disk : Disk) (p q : Text) → physical disk q ≡ true → physical (remove_dir p disk).1 q ≡ true
unfolding remove_dir physical
rmdir_physical full p q h = h
rmdir_physical no_link p q h = elim (Bool-cases (text_eq p dir)) [
  | inl e ↦ rw (remove_dir, e) refl
  | inr e ↦ rw (remove_dir, e) refl
]
rmdir_physical gone p q h = refl

-- A name does not begin with `l/`.
name_apart : (n : Text) → IsName n → starts_with (codes "l/") n ≡ false
unfolding starts_with strip_prefix contains_char
name_apart [] ok = refl
name_apart (c ∷ []) ok = ground arith
name_apart (c ∷ d ∷ n) ok = let bare = ok.no_slash in ground (arith, bare)

below_dir : (n : Text) → IsName n → physical full (join_path dir n) ≡ true
unfolding physical join_path trim_end trim_step starts_with strip_prefix
below_dir n ok = let h = name_apart n ok in ground (arith, h)

child_full :
    (p n : Text) (meta : FileAttributes)
    → attributes_of (view full p) ≡ answer meta
    → meta.is_dir ≡ true
    → meta.is_symlink ≡ false
    → IsName n
    → physical full (join_path p n) ≡ true
unfolding view
child_full p n meta e d l ok = elim (Bool-cases (text_eq p dir)) [
  | inl same ↦ rw ((text_eq_iff p dir).0 same) (below_dir n ok)
  | inr other ↦ elim (Bool-cases (text_eq p dir_link)) [
    | inl at_link ↦
        (let q : Path (Reply FileAttributes) (answer (attributes true true)) (answer meta) =
            rw (view, other, at_link) at e in
          absurd (ground (arith, q, l)))
    | inr none_there ↦
        (let q : Path (Reply FileAttributes) (refusal (codes "no such file")) (answer meta) =
            rw (view, other, none_there) at e in
          absurd (cc))
  ]
]

child :
    (disk : Disk) (p n : Text) (meta : FileAttributes)
    → attributes_of (view disk p) ≡ answer meta
    → meta.is_dir ≡ true
    → meta.is_symlink ≡ false
    → IsName n
    → physical disk (join_path p n) ≡ true
unfolding physical
child full p n meta e d l ok = child_full p n meta e d l ok
child no_link p n meta e d l ok = refl
child gone p n meta e d l ok = refl

pub local : IsLocal server view physical
local = record {
  stats = λ disk p q. refl;
  lists = λ disk p q. refl;
  unlinks = λ disk p q here. unlink_local disk p q;
  rmdirs = λ disk p q here. rmdir_local disk p q;
  stats_physical = λ disk p q h. h;
  lists_physical = λ disk p q h. h;
  unlinks_physical = λ disk p q here. unlink_physical disk p q;
  rmdirs_physical = λ disk p q here. rmdir_physical disk p q;
  child = λ disk p n meta here e d l ok dots. child disk p n meta e d l ok;
  named = λ disk p es h. subst AllNames h (all_named disk p);
}
