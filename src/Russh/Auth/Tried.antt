-- ===== src/Russh/Auth/Tried.antt =====
-- providers/russh.rs: what the loop over the candidate keys does, by what the server answers.
use research_ssh_next.Prelude.{
  ◌+◌, Text, Bool, true, false, ◌≡◌, ◌≢◌, ◌∙◌, arith, refl, sym, ap, ◌⊎◌, inl, inr, List, [], ◌∷◌,
  Option, some, Bool-cases, ◌++◌, codes, sym,
}
use mathlib.Core.Path.{subst}
use research_ssh_next.Russh.Auth.{
  Loaded, loaded, load_error, Answer, accepts, rejects, broken, Server, PublicKeyAuthReport,
  try_publickey_auth,
}

Loaded-cases :
    {K : Type 0}
    → (x : Loaded K) → ((key : K) × (x ≡ loaded key)) ⊎ ((e : Text) × (x ≡ load_error e))
Loaded-cases (loaded key) = inl (key, refl)
Loaded-cases (load_error e) = inr (e, refl)

pub Answer-cases : (a : Answer) → (a ≡ accepts) ⊎ ((a ≡ rejects) ⊎ ((e : Text) × (a ≡ broken e)))
Answer-cases accepts = inl refl
Answer-cases rejects = inr (inl refl)
Answer-cases (broken e) = inr (inr (e, refl))

module _ {K Sv : Type 0} (server : Server K Sv) (username : Text) where
  module _ (phrase : Option Text) (explicit_key : Bool) where
    -- The key at `path` was loaded, and the server accepted it.
    abbrev pub Took : Text → Sv → Sv → Type 0
    Took path sv sv' =
        (key : K) × (server.load_secret_key path phrase ≡ loaded key)
        × (server.authenticate_publickey username key sv ≡ (accepts, sv'))

    -- The key at `path` was of no use: it could not be loaded, and nobody had asked for it, or the
    -- server did not accept it.
    abbrev pub Passed : Text → Sv → Sv → Type 0
    Passed path sv sv' =
        ((e : Text) × (server.load_secret_key path phrase ≡ load_error e)
          × (explicit_key ≡ false)
          × (sv ≡ sv'))
        ⊎ ((key : K) × (a : Answer) × (server.load_secret_key path phrase ≡ loaded key)
            × (server.authenticate_publickey username key sv ≡ (a, sv'))
            × (a ≢ accepts))

    -- No candidate was of use.
    abbrev pub Refused : List Text → Sv → Sv → Type 0
    Refused [] sv sv' = sv ≡ sv'
    Refused (path ∷ paths) sv sv' = (sv1 : Sv) × Passed path sv sv1 × Refused paths sv1 sv'

    -- The server accepted the first candidate of use, and was asked nothing after it.
    abbrev pub Accepted : List Text → Sv → Sv → Type 0
    Accepted [] sv sv' = ⊥
    Accepted (path ∷ paths) sv sv' =
        Took path sv sv' ⊎ ((sv1 : Sv) × Passed path sv sv1 × Accepted paths sv1 sv')

    abbrev attempt : List Text → PublicKeyAuthReport → Sv → PublicKeyAuthReport × Sv
    attempt paths report sv = try_publickey_auth server username phrase explicit_key paths report sv

    -- A key of no use leaves the two flags of the report.
    try-Passed :
        (path : Text) (paths : List Text) (report : PublicKeyAuthReport) (sv sv1 : Sv)
        → Passed path sv sv1
        → (noted : PublicKeyAuthReport) × (attempt (path ∷ paths) report sv
            ≡ attempt paths noted sv1)
          × (noted.authenticated ≡ report.authenticated)
          × (noted.fatal_load_error ≡ report.fatal_load_error)
    unfolding try_publickey_auth
    try-Passed path paths report sv sv1 (inl (e, l, x, same)) = (
      record report {
        attempted = report.attempted + 1;
        last_error = some (codes "private key load failed for " ++ (path ++ (codes ": " ++ e)));
      },
      rw (l, x, same, attempt, try_publickey_auth) refl,
      refl,
      refl,
    )
    try-Passed path paths report sv sv1 (inr (key, accepts, l, a, other)) = absurd (other refl)
    try-Passed path paths report sv sv1 (inr (key, rejects, l, a, other)) =
        let a0 = ap (λ (r : Answer × Sv). r.0) a in
        let a1 = ap (λ (r : Answer × Sv). r.1) a in
        (
          record report {
            attempted = report.attempted + 1;
            last_error = some (codes "public-key authentication rejected for " ++ path);
          },
          rw (l, a0, a1, attempt, try_publickey_auth) refl,
          refl,
          refl,
        )
    try-Passed path paths report sv sv1 (inr (key, broken e, l, a, other)) =
        let a0 = ap (λ (r : Answer × Sv). r.0) a in
        let a1 = ap (λ (r : Answer × Sv). r.1) a in
        (
          record report {
            attempted = report.attempted + 1;
            last_error =
                some (codes "public-key authentication failed for " ++ (path ++ (codes ": " ++ e)));
          },
          rw (l, a0, a1, attempt, try_publickey_auth) refl,
          refl,
          refl,
        )

    try-Took :
        (path : Text) (paths : List Text) (report : PublicKeyAuthReport) (sv sv' : Sv)
        → Took path sv sv'
        → attempt (path ∷ paths) report sv
          ≡ (record report { attempted = report.attempted + 1; authenticated = true }, sv')
    unfolding try_publickey_auth
    try-Took path paths report sv sv' (key, l, a) =
        let a0 = ap (λ (r : Answer × Sv). r.0) a in
        let a1 = ap (λ (r : Answer × Sv). r.1) a in rw (l, a0, a1, attempt, try_publickey_auth) refl

    -- An explicit key that cannot be loaded ends the loop.
    try_fatal :
        (path e : Text) (paths : List Text) (report : PublicKeyAuthReport) (sv : Sv)
        → server.load_secret_key path phrase ≡ load_error e
        → explicit_key ≡ true
        → (attempt (path ∷ paths) report sv).0.fatal_load_error ≡ true
    unfolding try_publickey_auth
    try_fatal path e paths report sv l x = rw (l, x, attempt, try_publickey_auth) refl

    -- What becomes of one candidate.
    candidate-cases :
        (path : Text) (sv : Sv)
        → ((sv' : Sv) × Took path sv sv')
          ⊎ (((sv1 : Sv) × Passed path sv sv1)
              ⊎ ((e : Text) × (server.load_secret_key path phrase ≡ load_error e)
                  × (explicit_key ≡ true)))
    candidate-cases path sv = elim (Loaded-cases (server.load_secret_key path phrase)) [
      | inl (key, l) ↦
          (let next = (server.authenticate_publickey username key sv).1 in
            elim (Answer-cases (server.authenticate_publickey username key sv).0) [
              | inl a ↦ inl (next, (key, l, λ i. (a i, next)))
              | inr (inl a) ↦
                  inr (inl (next, inr (key, rejects, l, λ i. (a i, next), λ q. ground (arith, q))))
              | inr (inr (e, a)) ↦
                  inr (inl (next, inr (key, broken e, l, λ i. (a i, next), λ q. ground (arith, q))))
            ])
      | inr (e, l) ↦ elim (Bool-cases explicit_key) [
        | inl x ↦ inr (inr (e, l, x))
        | inr x ↦ inr (inl (sv, inl (e, l, x, refl)))
      ]
    ]

    -- What a report and a state say of the candidates.
    abbrev pub Says : List Text → Sv → PublicKeyAuthReport × Sv → Type 0
    Says paths sv all =
        (all.0.fatal_load_error ≡ true)
        ⊎ ((all.0.fatal_load_error ≡ false)
            × (((all.0.authenticated ≡ true) × Accepted paths sv all.1)
                ⊎ ((all.0.authenticated ≡ false) × Refused paths sv all.1)))

    Says-Passed :
        (path : Text) (paths : List Text) (sv sv1 : Sv) (all : PublicKeyAuthReport × Sv)
        → Passed path sv sv1
        → Says paths sv1 all
        → Says (path ∷ paths) sv all
    Says-Passed path paths sv sv1 all p (inl f) = inl f
    Says-Passed path paths sv sv1 all p (inr (f, inl (a, k))) = inr (f, inl (a, inr (sv1, p, k)))
    Says-Passed path paths sv sv1 all p (inr (f, inr (a, k))) = inr (f, inr (a, (sv1, p, k)))

    pub try-Says :
        (paths : List Text) (report : PublicKeyAuthReport) (sv : Sv)
        → report.authenticated ≡ false
        → report.fatal_load_error ≡ false
        → Says paths sv (try_publickey_auth server username phrase explicit_key paths report sv)
    unfolding try_publickey_auth
    try-Says [] report sv h f = inr (f, inr (h, refl))
    try-Says (path ∷ paths) report sv h f = elim (candidate-cases path sv) [
      | inl (sv', took) ↦
          subst (Says (path ∷ paths) sv) (sym (try-Took path paths report sv sv' took))
            (inr (f, inl (refl, inl took)))
      | inr (inl (sv1, passed)) ↦
          (let (noted, e, a, fatal) = try-Passed path paths report sv sv1 passed in
            subst (Says (path ∷ paths) sv) (sym e) (
              Says-Passed path paths sv sv1 (attempt paths noted sv1) passed
                (try-Says paths noted sv1 (a ∙ h) (fatal ∙ f))))
      | inr (inr (e, l, x)) ↦ inl (try_fatal path e paths report sv l x)
    ]

    -- The report and the state after candidates of which one was accepted, or none.
    abbrev Reports : Bool → List Text → PublicKeyAuthReport → Sv → Sv → Type 0
    Reports flag paths report sv sv' =
        (r : PublicKeyAuthReport) × (attempt paths report sv ≡ (r, sv'))
        × (r.authenticated ≡ flag)
        × (r.fatal_load_error ≡ false)

    pub Refused-try :
        (paths : List Text) (report : PublicKeyAuthReport) (sv sv' : Sv)
        → report.authenticated ≡ false
        → report.fatal_load_error ≡ false
        → Refused paths sv sv'
        → Reports false paths report sv sv'
    unfolding try_publickey_auth
    Refused-try [] report sv sv' h f e = (report, λ i. (report, e i), h, f)
    Refused-try (path ∷ paths) report sv sv' h f (sv1, passed, rest) =
        let (noted, e, a, fatal) = try-Passed path paths report sv sv1 passed in
        let (r, e', a', fatal') = Refused-try paths noted sv1 sv' (a ∙ h) (fatal ∙ f) rest in
        (r, e ∙ e', a', fatal')

    pub Accepted-try :
        (paths : List Text) (report : PublicKeyAuthReport) (sv sv' : Sv)
        → report.fatal_load_error ≡ false
        → Accepted paths sv sv'
        → Reports true paths report sv sv'
    Accepted-try [] report sv sv' f k = absurd k
    Accepted-try (path ∷ paths) report sv sv' f (inl took) =
        (_, try-Took path paths report sv sv' took, refl, f)
    Accepted-try (path ∷ paths) report sv sv' f (inr (sv1, passed, rest)) =
        let (noted, e, a, fatal) = try-Passed path paths report sv sv1 passed in
        let (r, e', a', fatal') = Accepted-try paths noted sv1 sv' (fatal ∙ f) rest in
        (r, e ∙ e', a', fatal')
