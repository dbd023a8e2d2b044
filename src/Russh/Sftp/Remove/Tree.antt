-- ===== src/Russh/Sftp/Remove/Tree.antt =====
-- providers/russh.rs: what a recursive removal takes from the server.
use research_ssh_next.Prelude.{
  ℕ, zero, suc, ◌+◌, ◌<◌, Text, true, false, ◌≡◌, refl, ◌∙◌, inl, inr, List, [], ◌∷◌, Option, none,
  some, is_some, Bool-cases, length, codes, if◌then◌else◌, arith,
}
use research_ssh_next.Core.{done}
use research_ssh_next.Russh.Sftp.{Sftp, join_path}
use research_ssh_next.Russh.Sftp.Server.{Reply, answer, FileAttributes, SftpServer}
use research_ssh_next.Russh.Sftp.Ops.{ask, settle, is_dots}
use research_ssh_next.Russh.Sftp.Remove.{
  Fueled, and_then, is_real_dir, remove_entries, read_and_remove, unlink, remove_one_dir, remove_as,
  remove_step, remove,
}
use research_ssh_next.Russh.Sftp.Remove.Posix.{
  Node, file, link, directory, is_directory, HasKind, names_of, AreEntries, in_entries, Removed,
  IsPosix,
}
use research_ssh_next.Russh.Sftp.Remove.Gone.{
  some-of_is_some, still_entries, both_gone, leaf_gone, all_in, directory_gone,
}
use research_ssh_next.Russh.Sftp.Paths.{
  IsName, IsClean, below, inside, join_path-IsClean, length-join_path, inside-below, not_below_self,
  resolve_path_clean,
}

module _ {H Sv : Type 0} (server : SftpServer H Sv) (view : Sv → Text → Option Node) (max : ℕ)
    (posix : IsPosix server view max) where
  -- A call that removes trees, in states that differ in the server alone.
  abbrev Removes : (Text → Sftp Sv → Fueled Sv) → Text → Sftp Sv → Type 0
  Removes call p s =
      (sv : Sv) × (call p s ≡ some (done tt, record s { server = sv }))
      × Removed (view s.server) p (view sv)

  remove_names : (Text → Sftp Sv → Fueled Sv) → Text → List Text → Sftp Sv → Fueled Sv
  remove_names call dir [] s = some (done tt, s)
  remove_names call dir (n ∷ ns) s = and_then (call (join_path dir n) s) (remove_names call dir ns)

  remove_entries_names :
      (call : Text → Sftp Sv → Fueled Sv) (dir : Text) (es : List (Text × FileAttributes))
      (s : Sftp Sv)
      → remove_entries server call dir es s ≡ remove_names call dir (names_of es) s
  unfolding remove_entries remove_names names_of
  remove_entries_names call dir [] s = refl
  remove_entries_names call dir ((n, meta) ∷ es) s = elim (Bool-cases (is_dots n)) [
    | inl e ↦ rw (e, remove_entries, names_of) (remove_entries_names call dir es s)
    | inr e ↦
        rw (e, remove_entries, names_of)
          (λ i. and_then (call (join_path dir n) s) (λ s'. remove_entries_names call dir es s' i))
  ]

  ask_answer :
      {A : Type 0} (stage : Text) (request : Sv → Reply A × Sv) (s : Sftp Sv) (a : A) (sv : Sv)
      → request s.server ≡ (answer a, sv)
      → ask server stage request s ≡ (done a, record s { server = sv })
  unfolding ask settle
  ask_answer stage request s a sv e = rw e refl

  module _ (call : Text → Sftp Sv → Fueled Sv) (dir : Text) (clean : IsClean dir)
      (removes : (n : Text) (s : Sftp Sv)
        → IsName n
        → is_some (view s.server (join_path dir n)) ≡ true
        → Removes call (join_path dir n) s) where
    names_removed :
        (ns : List Text) (s : Sftp Sv)
        → AreEntries (view s.server) dir ns
        → (sv : Sv) × (remove_names call dir ns s ≡ some (done tt, record s { server = sv }))
          × ((q : Text) → view sv q ≡ (if in_entries dir ns q then none else view s.server q))
    unfolding remove_names
    names_removed [] s all = (s.server, refl, λ q. refl)
    names_removed (n ∷ ns) s all =
        let (sv1, e1, r1) = removes n s all.0 all.1 in
        let kept = still_entries (view s.server) (view sv1) dir n ns clean all.0 r1 all.2 all.3 in
        let (sv2, e2, r2) = names_removed ns (record s { server = sv1 }) kept in
        (
          sv2,
          rw e1 e2,
          λ q.
              r2 q
              ∙ both_gone (in_entries dir ns q) (inside (join_path dir n) q) (view s.server q)
                  (view sv1 q) (r1 q),
        )

  -- `remove_as` on an entry that is no directory.
  leaf-Removed :
      (call : Text → Sftp Sv → Fueled Sv) (meta : FileAttributes) (p : Text) (s : Sftp Sv)
      (k : Node)
      → view s.server p ≡ some k
      → is_directory k ≡ false
      → is_real_dir meta ≡ false
      → (sv : Sv) × (remove_as server call meta p true s ≡ some (done tt, record s { server = sv }))
        × Removed (view s.server) p (view sv)
  unfolding remove_as unlink
  leaf-Removed call meta p s k v l d =
      let (sv, e, r) = posix.unlinks s.server p k v l in
      let run = ask_answer (codes "remove") (server.remove_file p) s tt sv e in
      (
        sv,
        rw (d, remove_as, run, unlink) refl,
        λ q. r q ∙ leaf_gone p q (view s.server q) (posix.leaf s.server p q k v l),
      )

  in_children :
      (p : Text)
      → IsClean p
      → (ns : List Text) (q : Text) → in_entries p ns q ≡ true
      → below p q ≡ true
  in_children p c [] q h = cc
  in_children p c (n ∷ ns) q h = elim (Bool-cases (inside (join_path p n) q)) [
    | inl t ↦ inside-below p c n q t
    | inr f ↦ in_children p c ns q (rw f at h)
  ]

  not_in_children :
      (p : Text)
      → IsClean p
      → (ns : List Text) (q : Text) → below p q ≡ false
      → in_entries p ns q ≡ false
  not_in_children p c ns q h = elim (Bool-cases (in_entries p ns q)) [
    | inl t ↦ (let bad = in_children p c ns q t in absurd (cc))
    | inr f ↦ f
  ]

  -- `remove_as` on a directory.
  directory-Removed :
      (call : Text → Sftp Sv → Fueled Sv) (meta : FileAttributes) (p : Text) (s : Sftp Sv)
      → IsClean p
      → ((n : Text) (s : Sftp Sv)
          → IsName n
          → is_some (view s.server (join_path p n)) ≡ true
          → Removes call (join_path p n) s)
      → view s.server p ≡ some directory
      → is_real_dir meta ≡ true
      → (sv : Sv) × (remove_as server call meta p true s ≡ some (done tt, record s { server = sv }))
        × Removed (view s.server) p (view sv)
  unfolding remove_as read_and_remove remove_one_dir
  directory-Removed call meta p s c removes v d =
      let (es, listed, all, complete) = posix.entries s.server p v in
      let ns = names_of es in
      let (sv1, e1, r1) = names_removed call p c removes ns s all in
      let still : view sv1 p ≡ some directory =
        r1 p ∙ (rw (not_in_children p c ns p (not_below_self p)) v) in
      let empty : (q : Text) → below p q ≡ true → view sv1 q ≡ none =
        λ q b. r1 q ∙ all_in (in_entries p ns q) (view s.server q) (complete q b) in
      let (sv2, e2, r2) = posix.rmdirs sv1 p still empty in
      let read = ask_answer (codes "read_dir") (server.read_dir p) s es s.server listed in
      let last =
        ask_answer (codes "rmdir") (server.remove_dir p) (record s { server = sv1 }) tt sv2 e2 in
      (
        sv2,
        rw
            (
              remove_as,
              d,
              read_and_remove,
              read,
              remove_entries_names call p es s,
              e1,
              remove_one_dir,
              last,
            )
            refl,
        λ q.
            directory_gone p q (in_entries p ns q) (view s.server q) (view sv1 q) (view sv2 q)
              (empty q) (not_in_children p c ns q) (r1 q) (r2 q),
      )

  by_kind :
      (call : Text → Sftp Sv → Fueled Sv) (meta : FileAttributes) (p : Text) (s : Sftp Sv)
      (k : Node)
      → IsClean p
      → ((n : Text) (s : Sftp Sv)
          → IsName n
          → is_some (view s.server (join_path p n)) ≡ true
          → Removes call (join_path p n) s)
      → view s.server p ≡ some k
      → is_real_dir meta ≡ is_directory k
      → (sv : Sv) × (remove_as server call meta p true s ≡ some (done tt, record s { server = sv }))
        × Removed (view s.server) p (view sv)
  by_kind call meta p s file c removes v d = leaf-Removed call meta p s file v refl d
  by_kind call meta p s link c removes v d = leaf-Removed call meta p s link v refl d
  by_kind call meta p s directory c removes v d = directory-Removed call meta p s c removes v d

  real_dir_iff :
      (k : Node) (meta : FileAttributes) → HasKind k meta → is_real_dir meta ≡ is_directory k
  unfolding is_real_dir
  real_dir_iff directory meta h = ground arith
  real_dir_iff link meta h = ground arith
  real_dir_iff file meta h = ground arith

  -- Over a server as in `IsPosix`, with fuel above the length of the longest path, removing a tree at
  -- a physical path succeeds, whatever the kinds of its entries: afterwards nothing is left at the
  -- path or below it, and everything else is as before, what the links of the tree point to included.
  pub remove_tree :
      (fuel : ℕ) (p : Text) (s : Sftp Sv) (k : Node)
      → max < fuel + length p
      → IsClean p
      → view s.server p ≡ some k
      → Removes (λ q. remove server fuel q true) p s
  unfolding remove remove_step
  remove_tree zero p s k h c v = absurd (omega (arith, posix.bounded s.server p k v))
  remove_tree (suc fuel) p s k h c v =
      let call = λ (q : Text). remove server fuel q true in
      let (meta, stated, kind) = posix.attributes s.server p k v in
      let resolved = resolve_path_clean server.canonicalize p s c in
      let lstat = ask_answer (codes "stat") (server.symlink_metadata p) s meta s.server stated in
      let deeper : (n : Text) (t : Sftp Sv)
          → IsName n
          → is_some (view t.server (join_path p n)) ≡ true
          → Removes call (join_path p n) t =
        λ n t ok there.
          let (j, at) = some-of_is_some (view t.server (join_path p n)) there in
          remove_tree fuel (join_path p n) t j (omega (arith, length-join_path p c n ok))
            (join_path-IsClean p c n ok) at in
      let (sv, e, r) = by_kind call meta p s k c deeper v (real_dir_iff k meta kind) in
      (sv, rw (resolved, lstat) e, r)
