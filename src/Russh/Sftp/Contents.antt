-- ===== src/Russh/Sftp/Contents.antt =====
-- providers/russh.rs: what `write_file` and `copy` leave in the files, and what `read_file` reads.
pub mod Written
use research_ssh_next.Prelude.{
  ℕ, zero, suc, ◌<◌, Text, Bytes, Bool, true, ◌≡◌, refl, sym, ap, ◌∙◌, List, Option, none, some,
  ◌==◌, take, text_eq, text_eq_iff, starts_with, [], codes, ltb, if◌then◌else◌, Bool-cases,
  Option-cases, inl, inr, arith,
}
use mathlib.Core.Path.{subst}
use research_ssh_next.Core.{CoreResult, done, fail}
use research_ssh_next.Fs.ReadsBack.{capped}
use research_ssh_next.Russh.Sftp.{Sftp, home_dir, resolve_dir, resolve_path}
use research_ssh_next.Russh.Sftp.Resolve.{resolve_path-resolve_dir}
use research_ssh_next.Russh.Sftp.Server.{Reply, answer, refusal, SftpServer}
use research_ssh_next.Russh.Sftp.Ops.{
  Method, ◌>>=◌, pure, settle, ask, path_of, read_file, write_file, copy,
}

-- From one state to the next the paths that are apart from `p` keep their contents, and stay apart
-- from it.
pub record SameBut {Sv : Type 0} (content : Sv → Text → Option Bytes)
    (apart : Sv → Text → Text → Bool) (p : Text) (sv sv' : Sv) : Type 0 where
  pub kept :
      (q : Text) → apart sv q p ≡ true → (content sv' q ≡ content sv q) × (apart sv' q p ≡ true)

-- All contents are kept, and where each path leads.
pub record Same {Sv : Type 0} (content : Sv → Text → Option Bytes) (apart : Sv → Text → Text → Bool)
    (sv sv' : Sv) : Type 0 where
  pub contents : (q : Text) → content sv' q ≡ content sv q
  pub leads : (q p : Text) → apart sv' q p ≡ apart sv q p

module _ {Sv : Type 0} {content : Sv → Text → Option Bytes} {apart : Sv → Text → Text → Bool} where
  pub Same-refl : {sv : Sv} → Same content apart sv sv
  Same-refl = record { contents = λ q. refl; leads = λ q p. refl }

  pub Same-trans :
      {sv sv1 sv2 : Sv}
      → Same content apart sv sv1
      → Same content apart sv1 sv2
      → Same content apart sv sv2
  Same-trans a b = record {
    contents = λ q. b.contents q ∙ a.contents q;
    leads = λ q p. b.leads q p ∙ a.leads q p;
  }

  pub SameBut-trans :
      {p : Text} {sv sv1 sv2 : Sv}
      → SameBut content apart p sv sv1
      → SameBut content apart p sv1 sv2
      → SameBut content apart p sv sv2
  SameBut-trans a b = record {
    kept = λ q n. let (e, m) = a.kept q n in let (e', m') = b.kept q m in (e' ∙ e, m');
  }

  pub Same-SameBut :
      {p : Text} {sv sv1 sv2 : Sv}
      → Same content apart sv sv1
      → SameBut content apart p sv1 sv2
      → SameBut content apart p sv sv2
  Same-SameBut {p} a b = record {
    kept = λ q n. let (e, m) = b.kept q (a.leads q p ∙ n) in (e ∙ a.contents q, m);
  }

-- What the methods rely on of the server: `content` is what can be read at a path, `apart` says that
-- two paths lead to different places, and `At sv h p` that the handle stands at the start of the file
-- at the path. Paths that are not apart, through a link, `..` or a doubled slash, may share a file.
-- Any request to create or to write may be refused.
pub record KeepsFiles {H Sv : Type 0} (server : SftpServer H Sv)
    (content : Sv → Text → Option Bytes) (apart : Sv → Text → Text → Bool)
    (At : Sv → H → Text → Type 0) : Type 0 where
  -- REALPATH changes no file
  pub resolves : (p : Text) (sv : Sv) → Same content apart sv (server.canonicalize p sv).1
  -- OPEN with create and truncate leaves an empty file
  pub creates :
      (p : Text) (sv : Sv) (h : H) (sv' : Sv)
      → server.create p sv ≡ (answer h, sv')
      → (content sv' p ≡ some []) × At sv' h p × SameBut content apart p sv sv'
  -- WRITE from the start of an empty file leaves what was written
  pub writes :
      (p : Text) (h : H) (bytes : Bytes) (sv sv' : Sv)
      → At sv h p
      → content sv p ≡ some []
      → server.write_all h bytes sv ≡ (answer tt, sv')
      → (content sv' p ≡ some bytes) × SameBut content apart p sv sv'
  -- what can be read is read whole, or up to a length
  pub opens :
      (p : Text) (sv : Sv) (c : Bytes)
      → content sv p ≡ some c
      → (h : H) × (sv' : Sv) × (server.open_file p sv ≡ (answer h, sv'))
        × At sv' h p
        × Same content apart sv sv'
  pub reads_all :
      (p : Text) (h : H) (sv : Sv) (c : Bytes)
      → At sv h p
      → content sv p ≡ some c
      → (sv' : Sv) × (server.read_to_end h sv ≡ (answer c, sv')) × Same content apart sv sv'
  pub reads_some :
      (n : ℕ) (p : Text) (h : H) (sv : Sv) (c : Bytes)
      → At sv h p
      → content sv p ≡ some c
      → (sv' : Sv) × (server.read_to_end_of_take n h sv ≡ (answer (take n c), sv'))
        × Same content apart sv sv'
  pub reads :
      (p : Text) (sv : Sv) (c : Bytes)
      → content sv p ≡ some c
      → (sv' : Sv) × (server.read p sv ≡ (answer c, sv')) × Same content apart sv sv'

settled :
    {H Sv A : Type 0} (server : SftpServer H Sv) (stage : Text) (s s' : Sftp Sv) (r : Reply A × Sv)
    (a : A)
    → settle server stage s r ≡ (done a, s')
    → (r ≡ (answer a, r.1)) × (s' ≡ record s { server = r.1 })
unfolding settle
settled server stage s s' (answer b, sv) a h = ground (arith, h)
settled server stage s s' (refusal e, sv) a h = ground (arith, h)

module _ {Sv : Type 0} where
  -- A step that returns a value.
  pub bind-done :
      {A B : Type 0} (m : Method Sv A) (f : A → Method Sv B) (s : Sftp Sv) (a : A) (s1 : Sftp Sv)
      → m s ≡ (done a, s1)
      → (m >>= f) s ≡ f a s1
  bind-done m f s a s1 e = ap (λ r. ((λ u. r) >>= f) s) e

module _ {H Sv : Type 0} (server : SftpServer H Sv) where
  -- The path of the server that a request's path stands for.
  abbrev pub resolved : Text → Sftp Sv → Text
  resolved path s = (resolve_path server.canonicalize path s).0

  pub ask-answer :
      {A : Type 0} (stage : Text) (request : Sv → Reply A × Sv) (s : Sftp Sv) (a : A) (sv : Sv)
      → request s.server ≡ (answer a, sv)
      → ask server stage request s ≡ (done a, record s { server = sv })
  unfolding ask settle
  ask-answer stage request s a sv e = ap (settle server stage s) e

  pub path_of-resolve_path :
      (path p : Text) (s s1 : Sftp Sv)
      → resolve_path server.canonicalize path s ≡ (p, s1)
      → path_of server path s ≡ (done p, s1)
  unfolding path_of
  path_of-resolve_path path p s s1 e = ap (λ (r : Text × Sftp Sv). (done r.0, r.1)) e

  first_answer :
      {A B : Type 0} (stage : Text) (r : Reply A × Sv) (f : A → Method Sv B) (s : Sftp Sv) (b : B)
      (s' : Sftp Sv)
      → ((λ u. settle server stage s r) >>= f) s ≡ (done b, s')
      → (a : A) × (r ≡ (answer a, r.1)) × (f a (record s { server = r.1 }) ≡ (done b, s'))
  unfolding settle
  first_answer stage (answer a, sv) f s b s' h = (a, refl, h)
  first_answer stage (refusal e, sv) f s b s' h = ground (arith, h)

  -- Creating a file and writing to it, where both requests are granted.
  pub created :
      (stage stage' : Text) (q : Text) (bytes : Bytes) (s s' : Sftp Sv)
      → (ask server stage (server.create q) >>= (λ h. ask server stage' (server.write_all h bytes)))
          s
        ≡ (done tt, s')
      → (h : H) × (sv : Sv) × (server.create q s.server ≡ (answer h, sv))
        × (server.write_all h bytes sv ≡ (answer tt, s'.server))
        × (s'.home ≡ s.home)
  unfolding ask
  created stage stage' q bytes s s' e =
      let r = server.create q s.server in
      let (h, made, rest) =
        first_answer stage r (λ h. ask server stage' (server.write_all h bytes)) s tt s' e in
      let (wrote, same) =
        settled server stage' (record s { server = r.1 }) s' (server.write_all h bytes r.1) tt
          rest in
      (
        h,
        r.1,
        made,
        wrote ∙ ap (λ (t : Sftp Sv). (answer tt, t.server)) (sym same),
        ap (λ (t : Sftp Sv). t.home) same,
      )
