-- ===== src/Examples/Disk/Laws.antt =====
-- The laws of the server with one directory and one link.
use research_ssh_next.Prelude.{
  ◌≤◌, Text, true, false, ◌≡◌, inl, inr, refl, sym, List, [], All, Option, none, some, is_some,
  Bool-cases, length, codes, text_eq, text_eq_iff, starts_with, contains_char, trim_end, trim_step,
  if◌then◌else◌, arith,
}
use mathlib.Core.Path.{subst}
use mathlib.Core.Option.{some-ne-none, some-injective}
use research_ssh_next.Russh.Sftp.{join_path}
use research_ssh_next.Russh.Sftp.Server.{Reply, answer, refusal, FileAttributes}
use research_ssh_next.Russh.Sftp.Ops.{is_dots}
use research_ssh_next.Russh.Sftp.Remove.Posix.{
  Node, link, directory, is_directory, HasKind, names_of, AreEntries, in_entries, IsPosix,
}
use research_ssh_next.Russh.Sftp.Remove.Terminates.{IsBounded}
use research_ssh_next.Russh.Sftp.Paths.{IsName, below}
use research_ssh_next.Examples.Disk.{
  Disk, full, no_link, gone, dir, dir_link, attributes, attributes_of, view, dot_and_link,
  entries_at, remove_file, remove_dir, server,
}

in_case :
    (P : Disk → Text → Node → Type 0) (disk : Disk) (p : Text) (k : Node) (q : Text) (j : Node)
    → text_eq p q ≡ true
    → Path (Option Node) (some j) (some k)
    → P disk q j
    → P disk p k
in_case P disk p k q j e h x =
    subst (λ r. P disk r k) (sym ((text_eq_iff p q).0 e))
      (subst (λ i. P disk q i) (some-injective j k h) x)

-- What holds of the three entries of the three states holds of all.
by_view :
    (P : Disk → Text → Node → Type 0)
    → P full dir directory
    → P full dir_link link
    → P no_link dir directory
    → (disk : Disk) (p : Text) (k : Node) → view disk p ≡ some k
    → P disk p k
unfolding view
by_view P a b c full p k h = elim (Bool-cases (text_eq p dir)) [
  | inl e ↦ in_case P full p k dir directory e (rw e at h) a
  | inr e ↦ elim (Bool-cases (text_eq p dir_link)) [
    | inl f ↦ in_case P full p k dir_link link f (rw (e, f) at h) b
    | inr f ↦ absurd (some-ne-none k (sym (rw (e, f) at h)))
  ]
]
by_view P a b c no_link p k h = elim (Bool-cases (text_eq p dir)) [
  | inl e ↦ in_case P no_link p k dir directory e (rw e at h) c
  | inr e ↦ absurd (some-ne-none k (sym (rw e at h)))
]
by_view P a b c gone p k h = absurd (some-ne-none k (sym h))

-- The laws of a server, one by one.
abbrev HasAttributes : Disk → Text → Node → Type 0
HasAttributes disk p k =
    (meta : FileAttributes) × (server.symlink_metadata p disk ≡ (answer meta, disk))
    × HasKind k meta

all_attributes : (disk : Disk) (p : Text) (k : Node) → view disk p ≡ some k → HasAttributes disk p k
unfolding view text_eq
all_attributes =
    by_view HasAttributes (attributes false true, refl, (refl, refl))
      (attributes true true, refl, refl) (attributes false true, refl, (refl, refl))

abbrev IsShort : Disk → Text → Node → Type 0
IsShort disk p k = length p ≤ 4

all_short : (disk : Disk) (p : Text) (k : Node) → view disk p ≡ some k → length p ≤ 4
all_short = by_view IsShort (omega arith) (omega arith) (omega arith)

-- Both `Path`s hold no entry below the link.
abbrev IsLeaf : Disk → Text → Node → Type 0
IsLeaf disk p k = (q : Text) → is_directory k ≡ false → below p q ≡ true → view disk q ≡ none

at_text : (P : Text → Type 0) (q r : Text) → text_eq q r ≡ true → P r → P q
at_text P q r e x = subst P (sym ((text_eq_iff q r).0 e)) x

below_link : (q : Text) → below dir_link q ≡ true → view full q ≡ none
unfolding view text_eq starts_with
below_link q h = elim (Bool-cases (text_eq q dir)) [
  | inl e ↦ at_text (λ r. below dir_link r ≡ true → view full r ≡ none) q dir e (λ x. absurd (cc)) h
  | inr e ↦ elim (Bool-cases (text_eq q dir_link)) [
    | inl f ↦
        at_text (λ r. below dir_link r ≡ true → view full r ≡ none) q dir_link f (λ x. absurd (cc))
          h
    | inr f ↦ rw (view, e, f) refl
  ]
]

all_leaves : (disk : Disk) (p : Text) (k : Node) → view disk p ≡ some k → IsLeaf disk p k
all_leaves = by_view IsLeaf (λ q f. absurd (cc)) (λ q f b. below_link q b) (λ q f. absurd (cc))

abbrev HasEntries : Disk → Text → Node → Type 0
HasEntries disk p k =
    k ≡ directory
    → (es : List (Text × FileAttributes)) × (server.read_dir p disk ≡ (answer es, disk))
      × AreEntries (view disk) p (names_of es)
      × ((q : Text)
          → below p q ≡ true
          → is_some (view disk q) ≡ true
          → in_entries p (names_of es) q ≡ true)

l-IsName : IsName (codes "l")
l-IsName = record { nonempty = λ h. cc; no_slash = unfold contains_char in refl }

full_covered :
    (q : Text)
    → below dir q ≡ true
    → is_some (view full q) ≡ true
    → in_entries dir (names_of dot_and_link) q ≡ true
unfolding view text_eq starts_with names_of is_dots join_path trim_end trim_step
full_covered q b h = elim (Bool-cases (text_eq q dir)) [
  | inl e ↦
      at_text (λ r. below dir r ≡ true → in_entries dir (names_of dot_and_link) r ≡ true) q dir e
        (λ x. absurd (cc)) b
  | inr e ↦ elim (Bool-cases (text_eq q dir_link)) [
    | inl f ↦ at_text (λ r. in_entries dir (names_of dot_and_link) r ≡ true) q dir_link f refl
    | inr f ↦ (let x : false ≡ true = rw (view, e, f) at h in absurd (cc))
  ]
]

no_link_covered :
    (q : Text) → below dir q ≡ true → is_some (view no_link q) ≡ true → in_entries dir [] q ≡ true
unfolding view text_eq starts_with
no_link_covered q b h = elim (Bool-cases (text_eq q dir)) [
  | inl e ↦ at_text (λ r. below dir r ≡ true → in_entries dir [] r ≡ true) q dir e (λ x. cc) b
  | inr e ↦ rw (view, e) at h
]

all_entries : (disk : Disk) (p : Text) (k : Node) → view disk p ≡ some k → HasEntries disk p k
unfolding entries_at text_eq names_of is_dots join_path trim_end trim_step view
all_entries =
    by_view HasEntries (λ e. (dot_and_link, refl, (l-IsName, refl, refl, tt), full_covered))
      (λ e. absurd (cc)) (λ e. ([], refl, tt, no_link_covered))

abbrev CanUnlink : Disk → Text → Node → Type 0
CanUnlink disk p k =
    is_directory k ≡ false
    → (disk' : Disk) × (server.remove_file p disk ≡ (answer tt, disk'))
      × ((q : Text) → view disk' q ≡ (if text_eq q p then none else view disk q))

link_taken : (q : Text) → view no_link q ≡ (if text_eq q dir_link then none else view full q)
unfolding view text_eq
link_taken q = elim (Bool-cases (text_eq q dir_link)) [
  | inl e ↦
      at_text (λ r. view no_link r ≡ (if text_eq r dir_link then none else view full r)) q dir_link
        e refl
  | inr e ↦ rw e refl
]

all_unlinks : (disk : Disk) (p : Text) (k : Node) → view disk p ≡ some k → CanUnlink disk p k
unfolding remove_file text_eq
all_unlinks =
    by_view CanUnlink (λ e. absurd (cc)) (λ e. (no_link, refl, link_taken)) (λ e. absurd (cc))

abbrev CanRmdir : Disk → Text → Node → Type 0
CanRmdir disk p k =
    k ≡ directory
    → ((q : Text) → below p q ≡ true → view disk q ≡ none)
    → (disk' : Disk) × (server.remove_dir p disk ≡ (answer tt, disk'))
      × ((q : Text) → view disk' q ≡ (if text_eq q p then none else view disk q))

dir_taken : (q : Text) → view gone q ≡ (if text_eq q dir then none else view no_link q)
unfolding view
dir_taken q = ground arith

all_rmdirs : (disk : Disk) (p : Text) (k : Node) → view disk p ≡ some k → CanRmdir disk p k
unfolding remove_dir text_eq view starts_with
all_rmdirs =
    by_view CanRmdir (λ e empty. absurd (some-ne-none link (empty dir_link refl)))
      (λ e. absurd (cc)) (λ e empty. (gone, refl, dir_taken))

pub posix : IsPosix server view 4
posix = record {
  attributes = all_attributes;
  entries = λ disk p v. all_entries disk p directory v refl;
  leaf = λ disk p q k v f b. all_leaves disk p k v q f b;
  unlinks = λ disk p k v f. all_unlinks disk p k v f;
  rmdirs = λ disk p v empty. all_rmdirs disk p directory v refl empty;
  bounded = all_short;
}

abbrev pub AllNames : Reply (List (Text × FileAttributes)) → Type 0
AllNames (answer es) = All IsName (names_of es)
AllNames (refusal e) = Unit {0}

pub all_named : (disk : Disk) (p : Text) → AllNames (entries_at p disk)
unfolding entries_at names_of is_dots text_eq
all_named full p = elim (Bool-cases (text_eq p dir)) [
  | inl e ↦ rw (entries_at, e) (l-IsName, tt)
  | inr e ↦ rw (entries_at, e) tt
]
all_named no_link p = elim (Bool-cases (text_eq p dir)) [
  | inl e ↦ rw (entries_at, e) tt
  | inr e ↦ rw (entries_at, e) tt
]
all_named gone p = tt

shallow :
    (o : Option Node) (disk : Disk) (p : Text) (meta : FileAttributes)
    → view disk p ≡ o
    → attributes_of o ≡ answer meta
    → length p ≤ 4
shallow none disk p meta v h = absurd (cc)
shallow (some k) disk p meta v h = all_short disk p k v

pub bounded : IsBounded server 4
bounded = record {
  shallow = λ disk p meta h real. shallow (view disk p) disk p meta refl h;
  named = λ disk p es h. subst AllNames h (all_named disk p);
}
