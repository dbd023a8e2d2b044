-- ===== src/Russh/Sftp/Remove/Frame.antt =====
-- providers/russh.rs: what a removal leaves alone, whatever it meets.
use research_ssh_next.Prelude.{
  ℕ, zero, suc, Text, Bool, true, false, ◌≡◌, refl, sym, ◌∙◌, inl, inr, List, [], ◌∷◌, All, Option,
  none, some, Bool-cases, codes, text_eq, text_eq_iff, text_eq_refl, arith,
}
use mathlib.Core.Path.{subst}
use research_ssh_next.Core.{CoreResult, done, fail}
use research_ssh_next.Russh.Sftp.{Sftp, join_path}
use research_ssh_next.Russh.Sftp.Server.{Reply, answer, refusal, FileAttributes, SftpServer}
use research_ssh_next.Russh.Sftp.Ops.{ask, settle, is_dots}
use research_ssh_next.Russh.Sftp.Remove.{
  Fueled, and_then, with_answer, is_real_dir, remove_entries, read_and_remove, unlink,
  remove_one_dir, remove_as, remove_step, remove,
}
use research_ssh_next.Russh.Sftp.Remove.Posix.{Node, names_of}
use research_ssh_next.Russh.Sftp.Paths.{
  IsName, IsClean, inside, join_path-IsClean, inside_child, resolve_path_clean,
}
use research_ssh_next.Russh.Sftp.Remove.Local.{IsLocal, real_dir}

module _ {H Sv : Type 0} (server : SftpServer H Sv) (view : Sv → Text → Option Node)
    (physical : Sv → Text → Bool) (local : IsLocal server view physical) (root : Text) where
  -- A path that the removal may touch.
  record IsWithin (p : Text) : Type 0 where
    clean : IsClean p
    within : inside root p ≡ true

  abbrev Keeps : Sftp Sv → Sftp Sv → Type 0
  Keeps s s' =
      ((q : Text) → inside root q ≡ false → view s'.server q ≡ view s.server q)
      × ((q : Text) → physical s.server q ≡ true → physical s'.server q ≡ true)

  -- The entries of a directory at `p` have physical paths.
  abbrev Kids : Text → Sftp Sv → Type 0
  Kids p s = (n : Text) → IsName n → is_dots n ≡ false → physical s.server (join_path p n) ≡ true

  abbrev Frames : Sftp Sv → Fueled Sv → Type 0
  Frames s none = Unit {0}
  Frames s (some (x, s')) = Keeps s s'

  Frames-after : (s s' : Sftp Sv) (r : Fueled Sv) → Keeps s s' → Frames s' r → Frames s r
  Frames-after s s' none h k = tt
  Frames-after s s' (some (x, t)) h k = (λ q o. k.0 q o ∙ h.0 q o, λ q w. k.1 q (h.1 q w))

  and_then-Frames :
      (s : Sftp Sv) (r : Fueled Sv) (k : Sftp Sv → Fueled Sv)
      → Frames s r
      → ((t : Sftp Sv) → Keeps s t → Frames t (k t))
      → Frames s (and_then r k)
  and_then-Frames s none k h all = tt
  and_then-Frames s (some (done _, t)) k h all = Frames-after s t (k t) h (all t h)
  and_then-Frames s (some (fail e, t)) k h all = h

  with_answer-Frames :
      {A : Type 0} (s : Sftp Sv) (r : CoreResult A × Sftp Sv) (k : A → Sftp Sv → Fueled Sv)
      → Keeps s r.1
      → ((a : A) → r.0 ≡ done a → Frames r.1 (k a r.1))
      → Frames s (with_answer r k)
  with_answer-Frames s (done a, t) k h all = Frames-after s t (k a t) h (all a refl)
  with_answer-Frames s (fail e, t) k h all = h

  apart : (p q : Text) → IsWithin p → inside root q ≡ false → text_eq q p ≡ false
  apart p q w o = elim (Bool-cases (text_eq q p)) [
    | inr f ↦ f
    | inl e ↦
        (let same : inside root p ≡ false =
            subst (λ r. inside root r ≡ false) ((text_eq_iff q p).0 e) o in
          let clash : true ≡ false = sym w.within ∙ same in absurd (cc))
  ]

  settle-Keeps :
      {A : Type 0} (stage : Text) (s : Sftp Sv) (r : Reply A × Sv)
      → ((q : Text) → inside root q ≡ false → view r.1 q ≡ view s.server q)
      → ((q : Text) → physical s.server q ≡ true → physical r.1 q ≡ true)
      → Keeps s (settle server stage s r).1
  unfolding settle
  settle-Keeps stage s (answer a, sv) h k = (h, k)
  settle-Keeps stage s (refusal e, sv) h k = (h, k)

  settle_done :
      {A : Type 0} (stage : Text) (s : Sftp Sv) (r : Reply A × Sv) (a : A)
      → (settle server stage s r).0 ≡ done a
      → r.0 ≡ answer a
  unfolding settle
  settle_done stage s (answer b, sv) a h = cc
  settle_done stage s (refusal e, sv) a h = cc

  ask-Keeps :
      {A : Type 0} (stage : Text) (request : Sv → Reply A × Sv) (s : Sftp Sv)
      → ((q : Text) → inside root q ≡ false → view (request s.server).1 q ≡ view s.server q)
      → ((q : Text) → physical s.server q ≡ true → physical (request s.server).1 q ≡ true)
      → Keeps s (ask server stage request s).1
  unfolding ask
  ask-Keeps stage request s h k = settle-Keeps stage s (request s.server) h k

  module _ (call : Text → Sftp Sv → Fueled Sv)
      (frames : (p : Text) (s : Sftp Sv)
        → IsWithin p
        → physical s.server p ≡ true
        → Frames s (call p s)) where
    entries-Frames :
        (dir : Text) (es : List (Text × FileAttributes)) (s : Sftp Sv)
        → IsWithin dir
        → All IsName (names_of es)
        → Kids dir s
        → Frames s (remove_entries server call dir es s)
    unfolding remove_entries names_of
    entries-Frames dir [] s w names kids = (λ q o. refl, λ q k. k)
    entries-Frames dir ((n, meta) ∷ es) s w names kids = elim (Bool-cases (is_dots n)) [
      | inl d ↦ rw (remove_entries, d) (entries-Frames dir es s w (rw (names_of, d) at names) kids)
      | inr d ↦
          (let all : All IsName (n ∷ names_of es) = rw (names_of, d) at names in
            let child : IsWithin (join_path dir n) = record {
              clean = join_path-IsClean dir w.clean n all.0;
              within = inside_child root dir n w.clean w.within;
            } in
            rw (remove_entries, d)
              (and_then-Frames s (call (join_path dir n) s) (remove_entries server call dir es)
                (frames (join_path dir n) s child (kids n all.0 d))
                (λ t k.
                  entries-Frames dir es t w all.1 (λ m a b. k.1 (join_path dir m) (kids m a b)))))
    ]

    rmdir-Frames :
        (p : Text) (t : Sftp Sv)
        → IsWithin p
        → physical t.server p ≡ true
        → Frames t (remove_one_dir server call p t)
    unfolding remove_one_dir
    rmdir-Frames p t w here =
        ask-Keeps (codes "rmdir") (server.remove_dir p) t
          (λ q o. local.rmdirs t.server p q here (apart p q w o))
          (λ q k. local.rmdirs_physical t.server p q here k)

    read-Frames :
        (p : Text) (s : Sftp Sv)
        → IsWithin p
        → Kids p s
        → Frames s (read_and_remove server call p s)
    unfolding read_and_remove settle ask
    read-Frames p s w kids =
        let kept =
          ask-Keeps (codes "read_dir") (server.read_dir p) s (λ q o. local.lists s.server p q)
            (λ q k. local.lists_physical s.server p q k) in
        with_answer-Frames s (ask server (codes "read_dir") (server.read_dir p) s)
          (remove_entries server call p) kept
          (λ es e.
            entries-Frames p es (ask server (codes "read_dir") (server.read_dir p) s).1 w
              (local.named s.server p es
                (settle_done (codes "read_dir") s (server.read_dir p s.server) es e))
              (λ n a b. kept.1 (join_path p n) (kids n a b)))

    as-Frames :
        (meta : FileAttributes) (p : Text) (recursive : Bool) (s : Sftp Sv)
        → IsWithin p
        → physical s.server p ≡ true
        → (is_real_dir meta ≡ true → Kids p s)
        → Frames s (remove_as server call meta p recursive s)
    unfolding remove_as unlink
    as-Frames meta p recursive s w here kids = elim (Bool-cases (is_real_dir meta)) [
      | inr d ↦
          rw (remove_as, d)
            (ask-Keeps (codes "remove") (server.remove_file p) s
              (λ q o. local.unlinks s.server p q here (apart p q w o))
              (λ q k. local.unlinks_physical s.server p q here k))
      | inl d ↦ elim (Bool-cases recursive) [
        | inr r ↦ rw (remove_as, d, r) (rmdir-Frames p s w here)
        | inl r ↦
            rw (remove_as, d, r)
              (and_then-Frames s (read_and_remove server call p s) (remove_one_dir server call p)
                (read-Frames p s w (kids d)) (λ t k. rmdir-Frames p t w (k.1 p here)))
      ]
    ]

    step-Frames :
        (p : Text) (recursive : Bool) (s : Sftp Sv)
        → IsWithin p
        → physical s.server p ≡ true
        → Frames s (remove_step server call p recursive s)
    unfolding remove_step settle ask
    step-Frames p recursive s w here =
        let kept =
          ask-Keeps (codes "stat") (server.symlink_metadata p) s (λ q o. local.stats s.server p q)
            (λ q k. local.stats_physical s.server p q k) in
        rw (resolve_path_clean server.canonicalize p s w.clean) (
          with_answer-Frames s (ask server (codes "stat") (server.symlink_metadata p) s)
            (λ meta. remove_as server call meta p recursive) kept
            (λ meta e.
              as-Frames meta p recursive (ask server (codes "stat") (server.symlink_metadata p) s).1
                w (kept.1 p here)
                (λ d n a b. kept.1 (join_path p n) (
                  local.child s.server p n meta here
                    (settle_done (codes "stat") s (server.symlink_metadata p s.server) meta e)
                    (real_dir meta d).0 (real_dir meta d).1 a b))))

  remove-Frames :
      (fuel : ℕ) (p : Text) (recursive : Bool) (s : Sftp Sv)
      → IsWithin p
      → physical s.server p ≡ true
      → Frames s (remove server fuel p recursive s)
  unfolding remove
  remove-Frames zero p recursive s w here = tt
  remove-Frames (suc fuel) p recursive s w here =
      step-Frames (λ q. remove server fuel q true) (λ q t v k. remove-Frames fuel q true t v k) p
        recursive s w here

module _ {H Sv : Type 0} (server : SftpServer H Sv) (view : Sv → Text → Option Node)
    (physical : Sv → Text → Bool) (local : IsLocal server view physical) where
  -- Whatever a removal at a physical path returns, an error in the middle of a tree included, what is
  -- neither at the path nor below it is as before, the targets of links too, over a server whose
  -- requests at a physical path change the entry there alone and make no link, and whose listings
  -- give, but for the two dot entries, only names that are not empty and hold no slash.
  pub remove_outside :
      (fuel : ℕ) (p : Text) (recursive : Bool) (s s' : Sftp Sv) (r : CoreResult (Unit {0}))
      → IsClean p
      → physical s.server p ≡ true
      → remove server fuel p recursive s ≡ some (r, s')
      → (q : Text) → inside p q ≡ false
      → view s'.server q ≡ view s.server q
  remove_outside fuel p recursive s s' r clean here e =
      (subst (Frames server view physical local p s) e (
        remove-Frames server view physical local p fuel p recursive s
          (record { clean = clean; within = ground (arith, text_eq_refl p) }) here)).0
