-- ===== src/Russh/Sftp/Resolve.antt =====
-- providers/russh.rs: what the two ways to resolve a path have in common.
use research_ssh_next.Prelude.{
  Text, ◌≡◌, refl, Option, some, none, Bool-cases, Option-cases, arith, inl, inr, [], codes,
  text_eq, starts_with,
}
use research_ssh_next.Russh.Sftp.{Sftp, home_dir, resolve_dir, resolve_path}

module _ {Sv : Type 0} (canonicalize : Text → Sv → Option Text × Sv) where
  same_resolution :
      (path : Text) (s : Sftp Sv)
      → resolve_path canonicalize path s ≡ resolve_dir canonicalize path s
  unfolding resolve_path resolve_dir
  same_resolution path s = elim (Bool-cases (text_eq path [])) [
    | inl e ↦ rw (e, resolve_path) refl
    | inr e ↦ elim (Bool-cases (text_eq path (codes "."))) [
      | inl d ↦ rw (e, d, resolve_path) refl
      | inr d ↦ elim (Bool-cases (starts_with (codes "/") path)) [
        | inl a ↦ rw (e, d, a, resolve_path, resolve_dir) refl
        | inr a ↦ rw (e, d, a, resolve_path, resolve_dir) refl
      ]
    ]
  ]

  home_once :
      (server : Sv) (home : Option Text)
      → home_dir canonicalize (home_dir canonicalize (record { server = server; home = home })).1
        ≡ (
          (home_dir canonicalize (record { server = server; home = home })).0,
          (home_dir canonicalize (record { server = server; home = home })).1,
        )
  unfolding home_dir
  home_once server none = refl
  home_once server (some home) = refl

  -- Files and directories resolve alike, and once the home directory has been asked for it stays the
  -- same and the server is not asked again.
  pub resolve_path-resolve_dir :
      (path : Text) (s : Sftp Sv)
      → (resolve_path canonicalize path s ≡ resolve_dir canonicalize path s)
        × (home_dir canonicalize (home_dir canonicalize s).1
            ≡ ((home_dir canonicalize s).0, (home_dir canonicalize s).1))
  resolve_path-resolve_dir path s = (same_resolution path s, home_once s.server s.home)

  -- Whatever else has changed, the home directory that was found stays.
  home_again :
      (s t : Sftp Sv)
      → t.home ≡ (home_dir canonicalize s).1.home
      → home_dir canonicalize t ≡ ((home_dir canonicalize s).0, t)
  unfolding home_dir
  home_again s t e = elim (Option-cases s.home) [
    | inl h ↦ ground arith
    | inr (home, h) ↦ ground arith
  ]

  pub resolve_again :
      (path : Text) (s t : Sftp Sv)
      → t.home ≡ (resolve_path canonicalize path s).1.home
      → resolve_path canonicalize path t ≡ ((resolve_path canonicalize path s).0, t)
  unfolding resolve_path resolve_dir
  resolve_again path s t e = let h = home_again s t in ground (arith, h)
