-- ===== src/Russh/Sftp/Contents/Written.antt =====
-- providers/russh.rs: what is read over SFTP after `write_file` and `copy`.
use research_ssh_next.Prelude.{
  ℕ, Text, Bytes, Bool, true, false, ◌≡◌, refl, sym, ◌∙◌, Option, some, ◌==◌, take, codes, ltb,
  if◌then◌else◌, Bool-cases, Option-cases, inl, inr, arith,
}
use research_ssh_next.Core.{done}
use research_ssh_next.Fs.ReadsBack.{capped}
use research_ssh_next.Russh.Sftp.{Sftp, home_dir, resolve_dir, resolve_path}
use research_ssh_next.Russh.Sftp.Resolve.{resolve_again}
use research_ssh_next.Russh.Sftp.Server.{SftpServer}
use research_ssh_next.Russh.Sftp.Ops.{Method, ◌>>=◌, ask, path_of, read_file, write_file, copy}
use research_ssh_next.Russh.Sftp.Contents.{
  resolved, SameBut, Same, Same-refl, Same-trans, SameBut-trans, Same-SameBut, KeepsFiles,
  bind-done, ask-answer, path_of-resolve_path, created,
}

module _ {H Sv : Type 0} (server : SftpServer H Sv) {content : Sv → Text → Option Bytes}
    {apart : Sv → Text → Text → Bool} {At : Sv → H → Text → Type 0}
    (keeps : KeepsFiles server content apart At) where
  created-content :
      (stage stage' : Text) (q : Text) (bytes : Bytes) (s s' : Sftp Sv)
      → (ask server stage (server.create q) >>= (λ h. ask server stage' (server.write_all h bytes)))
          s
        ≡ (done tt, s')
      → (content s'.server q ≡ some bytes)
        × SameBut content apart q s.server s'.server
        × (s'.home ≡ s.home)
  created-content stage stage' q bytes s s' e =
      let (h, sv, made, wrote, same) = created server stage stage' q bytes s s' e in
      let (empty, here, others) = keeps.creates q s.server h sv made in
      let (full, rest) = keeps.writes q h bytes sv s'.server here empty wrote in
      (full, SameBut-trans others rest, same)

  home-Same : (s : Sftp Sv) → Same content apart s.server (home_dir server.canonicalize s).1.server
  unfolding home_dir
  home-Same s = elim (Option-cases s.home) [
    | inl e ↦ rw (e, home_dir) (keeps.resolves (codes ".") s.server)
    | inr (home, e) ↦ rw (e, home_dir) Same-refl
  ]

  resolve_path-Same :
      (path : Text) (s : Sftp Sv)
      → Same content apart s.server (resolve_path server.canonicalize path s).1.server
  unfolding resolve_path resolve_dir
  resolve_path-Same path s = record {
    contents = λ q. let h = (home-Same s).contents q in ground (arith, h);
    leads = λ q p. let h = (home-Same s).leads q p in ground (arith, h);
  }

  unfoldable read_tail : ℕ → H → Method Sv Bytes
  read_tail max_len file =
      if ltb 0 max_len
      then ask server (codes "read") (server.read_to_end_of_take max_len file)
      else ask server (codes "read") (server.read_to_end file)

  read_tail-capped :
      (max_len : ℕ) (h : H) (p : Text) (s : Sftp Sv) (c : Bytes)
      → At s.server h p
      → content s.server p ≡ some c
      → (t : Sftp Sv) × (read_tail max_len h s ≡ (done (capped max_len c), t))
        × Same content apart s.server t.server
  unfolding read_tail
  read_tail-capped max_len h p s c here e = elim (Bool-cases (ltb 0 max_len)) [
    | inl some_cap ↦
        let (sv, got, same) = keeps.reads_some max_len p h s.server c here e in
        let capped_so : (max_len == 0) ≡ false = ground arith in
        (
          record s { server = sv },
          rw (read_tail, some_cap, capped_so)
              (ask-answer server (codes "read") (server.read_to_end_of_take max_len h) s
                (take max_len c) sv got),
          same,
        )
    | inr no_cap ↦
        let (sv, got, same) = keeps.reads_all p h s.server c here e in
        let capped_so : (max_len == 0) ≡ true = ground arith in
        (
          record s { server = sv },
          rw (read_tail, no_cap, capped_so)
              (ask-answer server (codes "read") (server.read_to_end h) s c sv got),
          same,
        )
  ]

  rewrite_at : Text → Text → Bytes → Text → Method Sv (Unit {0})
  rewrite_at stage stage' bytes q =
      ask server stage (server.create q) >>= (λ h. ask server stage' (server.write_all h bytes))

  -- What can be read at the path that a request stands for is what `read_file` returns.
  read_file-capped :
      (path p : Text) (max_len : ℕ) (s : Sftp Sv) (c : Bytes)
      → resolve_path server.canonicalize path s ≡ (p, s)
      → content s.server p ≡ some c
      → (t : Sftp Sv) × (read_file server path max_len s ≡ (done (capped max_len c), t))
        × Same content apart s.server t.server
  unfolding read_file read_tail
  read_file-capped path p max_len s c r e =
      let (h, sv, opened, here, same) = keeps.opens p s.server c e in
      let opening = ask server (codes "open") (server.open_file p) in
      let (t, got, same') =
        read_tail-capped max_len h p (record s { server = sv }) c here (same.contents p ∙ e) in
      (
        t,
        bind-done (path_of server path)
              (λ q. ask server (codes "open") (server.open_file q) >>= read_tail max_len) s p s
              (path_of-resolve_path server path p s s r)
            ∙ (bind-done opening (read_tail max_len) s h (record s { server = sv })
                  (ask-answer server (codes "open") (server.open_file p) s h sv opened)
                ∙ got),
        Same-trans same same',
      )

  -- Where a write over SFTP succeeds, a read of the same path returns what was written, up to the
  -- cap, and the paths that lead elsewhere have kept their contents, over a server with the laws of
  -- `KeepsFiles`.
  pub write_file-read_file :
      (path : Text) (bytes : Bytes) (max_len : ℕ) (s s' : Sftp Sv)
      → write_file server path bytes s ≡ (done tt, s')
      → (t : Sftp Sv) × (read_file server path max_len s' ≡ (done (capped max_len bytes), t))
        × SameBut content apart (resolved server path s) s.server s'.server
  unfolding write_file rewrite_at
  write_file-read_file path bytes max_len s s' e =
      let (p, s1) = resolve_path server.canonicalize path s in
      let (full, others, home) = created-content (codes "create") (codes "write") p bytes s1 s' (
        sym (
          bind-done (path_of server path) (rewrite_at (codes "create") (codes "write") bytes) s p s1
            (path_of-resolve_path server path p s s1 refl))
        ∙ e) in
      let (t, got, same) =
        read_file-capped path p max_len s' bytes (resolve_again server.canonicalize path s s' home)
          full in
      (t, got, Same-SameBut (resolve_path-Same path s) others)

  -- Where a copy over SFTP of a file that can be read succeeds, a read of the target returns the
  -- content that the source had, up to the cap, and the paths that lead elsewhere than the target
  -- have kept their contents, over a server with the laws of `KeepsFiles`.
  pub copy-read_file :
      (from to : Text) (c : Bytes) (max_len : ℕ) (s s' : Sftp Sv)
      → content s.server (resolved server from s) ≡ some c
      → copy server from to s ≡ (done tt, s')
      → let s1 = (resolve_path server.canonicalize from s).1 in
        (t : Sftp Sv) × (read_file server to max_len s' ≡ (done (capped max_len c), t))
        × SameBut content apart (resolved server to s1) s.server s'.server
  unfolding copy rewrite_at
  copy-read_file from to c max_len s s' h e =
      let (p, s1) = resolve_path server.canonicalize from s in
      let (q, s2) = resolve_path server.canonicalize to s1 in
      let (sv, read, same) =
        keeps.reads p s2.server c
          ((resolve_path-Same to s1).contents p ∙ ((resolve_path-Same from s).contents p ∙ h)) in
      let s3 = record s2 { server = sv } in
      let after_q = λ (i : Text) (j : Text).
        ask server (codes "copy read") (server.read i)
        >>= (λ bytes. rewrite_at (codes "copy create") (codes "copy write") bytes j) in
      let first =
        bind-done (path_of server from) (λ i. path_of server to >>= after_q i) s p s1
          (path_of-resolve_path server from p s s1 refl) in
      let second =
        bind-done (path_of server to) (after_q p) s1 q s2
          (path_of-resolve_path server to q s1 s2 refl) in
      let third =
        bind-done (ask server (codes "copy read") (server.read p))
          (λ bytes. rewrite_at (codes "copy create") (codes "copy write") bytes q) s2 c s3
          (ask-answer server (codes "copy read") (server.read p) s2 c sv read) in
      let (full, others, home) =
        created-content (codes "copy create") (codes "copy write") q c s3 s'
          (sym third ∙ (sym second ∙ (sym first ∙ e))) in
      let (t, got, kept) =
        read_file-capped to q max_len s' c (resolve_again server.canonicalize to s1 s' home) full in
      (
        t,
        got,
        Same-SameBut
            (Same-trans (resolve_path-Same from s) (Same-trans (resolve_path-Same to s1) same))
            others,
      )
