-- ===== src/Russh/Auth/Order.antt =====
-- providers/russh.rs: what leads to a successful authentication, and in what order it is tried.
use research_ssh_next.Prelude.{
  Text, Bytes, Bool, true, false, ◌≡◌, ◌↔◌, ◌∙◌, refl, sym, ap, ◌⊎◌, inl, inr, List, Option, none,
  some, Option-cases, Bool-cases, sym,
}
use mathlib.Core.Path.{subst}
use research_ssh_next.Core.{CoreError, CoreResult, done, fail}
use research_ssh_next.Russh.Auth.{
  accepts, Server, PublicKeyAuthReport, no_report, try_publickey_auth, try_password, authenticate,
  conclude, after_keys, passphrase_text, password_done,
}
use research_ssh_next.Russh.Auth.Tried.{
  Answer-cases, Refused, Accepted, Says, try-Says, Refused-try, Accepted-try,
}

module _ {K Sv : Type 0} (server : Server K Sv) (username : Text) where
  -- The server accepted this password on a connection in state `sv`.
  abbrev pub AcceptedPassword : Option Bytes → Sv → Sv → Type 0
  AcceptedPassword secret sv sv' =
      (bytes : Bytes) × (password : Text) × (secret ≡ some bytes)
      × (server.from_utf8 bytes ≡ some password)
      × (server.authenticate_password username password sv ≡ (accepts, sv'))

CoreResult-cases {ℓ} :
    {A : Type ℓ} → (r : CoreResult A) → ((a : A) × (r ≡ done a)) ⊎ ((e : CoreError) × (r ≡ fail e))
CoreResult-cases (done a) = inl (a, refl)
CoreResult-cases (fail e) = inr (e, refl)

module _ {K Sv : Type 0} (server : Server K Sv) (username : Text) where
  try_password-AcceptedPassword :
      (secret : Option Bytes) (sv sv' : Sv)
      → try_password server username secret sv ≡ (done true, sv')
      → AcceptedPassword server username secret sv sv'
  unfolding try_password
  try_password-AcceptedPassword none sv sv' h = cc
  try_password-AcceptedPassword (some bytes) sv sv' h =
      elim (Option-cases (server.from_utf8 bytes)) [
        | inl n ↦ (let bad = rw (n, try_password) at h in cc)
        | inr (password, n) ↦
            elim (Answer-cases (server.authenticate_password username password sv).0) [
              | inl a ↦
                  (let good : (server.authenticate_password username password sv).1 ≡ sv' =
                      ap (λ r. r.1) (rw (n, a, try_password) at h) in
                    (bytes, password, refl, n, λ i. (a i, good i)))
              | inr (inl a) ↦ (let bad = rw (n, a, try_password, password_done) at h in cc)
              | inr (inr (e, a)) ↦ (let bad = rw (n, a, try_password, password_done) at h in cc)
            ]
      ]

  accepted_by_password :
      (report : PublicKeyAuthReport) (secret : Option Bytes) (sv' : Sv) (r : CoreResult Bool × Sv)
      → conclude server username report secret r ≡ (done tt, sv')
      → r ≡ (done true, sv')
  unfolding conclude
  accepted_by_password report secret sv' (fail e, sv) h = cc
  accepted_by_password report secret sv' (done true, sv) h = λ i. (done true, (h i).1)
  accepted_by_password report secret sv' (done false, sv) h = cc

  after_keys-accepted :
      (report : PublicKeyAuthReport) (secret : Option Bytes) (sv sv' : Sv)
      → after_keys server username secret (report, sv) ≡ (done tt, sv')
      → ((report.authenticated ≡ true) × (sv ≡ sv'))
        ⊎ ((report.authenticated ≡ false) × AcceptedPassword server username secret sv sv')
  unfolding after_keys
  after_keys-accepted report secret sv sv' h = elim (Bool-cases report.fatal_load_error) [
    | inl f ↦ (let bad = rw (f, after_keys) at h in cc)
    | inr f ↦ elim (Bool-cases report.authenticated) [
      | inl a ↦ inl (a, ap (λ r. r.1) (rw (f, a, after_keys) at h))
      | inr a ↦ inr (
        a,
        try_password-AcceptedPassword secret sv sv' (
            accepted_by_password report secret sv' (try_password server username secret sv)
              (rw (f, a, after_keys) at h)),
      )
    ]
  ]

  AcceptedPassword-after_keys :
      (report : PublicKeyAuthReport) (secret : Option Bytes) (sv sv' : Sv)
      → report.fatal_load_error ≡ false
      → report.authenticated ≡ false
      → AcceptedPassword server username secret sv sv'
      → after_keys server username secret (report, sv) ≡ (done tt, sv')
  unfolding after_keys try_password conclude
  AcceptedPassword-after_keys report secret sv sv' f a (bytes, password, given, n, accepted) =
      rw (f, a, after_keys, given, n, try_password, accepted, password_done, conclude) refl

  -- How a connection is authenticated: by the first candidate key of use, or, where there is none, by
  -- the password.
  abbrev pub IsAuthentic : Option Text → Bool → List Text → Option Bytes → Sv → Sv → Type 0
  IsAuthentic phrase explicit_key candidates secret sv sv' =
      Accepted server username phrase explicit_key candidates sv sv'
      ⊎ ((sv1 : Sv) × Refused server username phrase explicit_key candidates sv sv1
          × AcceptedPassword server username secret sv1 sv')

  keys-IsAuthentic :
      (phrase : Option Text) (explicit_key : Bool) (candidates : List Text) (secret : Option Bytes)
      (sv sv' : Sv) (all : PublicKeyAuthReport × Sv)
      → Says server username phrase explicit_key candidates sv all
      → after_keys server username secret all ≡ (done tt, sv')
      → IsAuthentic phrase explicit_key candidates secret sv sv'
  unfolding after_keys
  keys-IsAuthentic phrase explicit_key candidates secret sv sv' (report, sv1) (inl f) h =
      (let bad = rw (f, after_keys) at h in cc)
  keys-IsAuthentic phrase explicit_key candidates secret sv sv' (report, sv1) (inr (f, says)) h =
      elim (after_keys-accepted report secret sv1 sv' h) [
        | inl (a, e) ↦ elim says [
          | inl (_, k) ↦
              inl (subst (Accepted server username phrase explicit_key candidates sv) e k)
          | inr (n, _) ↦ absurd (cc (sym a ∙ n))
        ]
        | inr (a, password) ↦ elim says [
          | inl (y, _) ↦ absurd (cc (sym a ∙ y))
          | inr (_, k) ↦ inr (sv1, k, password)
        ]
      ]

  IsAuthentic-keys :
      (phrase : Option Text) (explicit_key : Bool) (candidates : List Text) (secret : Option Bytes)
      (sv sv' : Sv)
      → IsAuthentic phrase explicit_key candidates secret sv sv'
      → after_keys server username secret
          (try_publickey_auth server username phrase explicit_key candidates no_report sv)
        ≡ (done tt, sv')
  unfolding after_keys
  IsAuthentic-keys phrase explicit_key candidates secret sv sv' (inl k) =
      let (r, e, a, f) =
        Accepted-try server username phrase explicit_key candidates no_report sv sv' refl k in
      ap (after_keys server username secret) e ∙ rw (f, a, after_keys) refl
  IsAuthentic-keys phrase explicit_key candidates secret sv sv' (inr (sv1, k, password)) =
      let (r, e, a, f) =
        Refused-try server username phrase explicit_key candidates no_report sv sv1 refl refl k in
      ap (after_keys server username secret) e
      ∙ AcceptedPassword-after_keys r secret sv1 sv' f a password

  -- Authentication succeeds exactly where the passphrase can be read and the server accepts the first
  -- candidate key of use, or the password after it has accepted none of the candidates. A candidate
  -- is passed over where the server does not accept it, or where it cannot be loaded and was not
  -- given explicitly.
  pub authenticate-accepted :
      (candidates : List Text) (explicit_key : Bool) (passphrase secret : Option Bytes)
      (sv sv' : Sv)
      → (authenticate server username candidates explicit_key passphrase secret sv ≡ (done tt, sv'))
        ↔ ((phrase : Option Text) × (passphrase_text server username passphrase ≡ done phrase)
            × IsAuthentic phrase explicit_key candidates secret sv sv')
  unfolding authenticate
  authenticate-accepted candidates explicit_key passphrase secret sv sv' = (
    λ h. elim (CoreResult-cases (passphrase_text server username passphrase)) [
      | inr (e, p) ↦ (let bad = rw (p, authenticate) at h in cc)
      | inl (phrase, p) ↦ (
        phrase,
        p,
        keys-IsAuthentic phrase explicit_key candidates secret sv sv'
            (try_publickey_auth server username phrase explicit_key candidates no_report sv)
            (try-Says server username phrase explicit_key candidates no_report sv refl refl)
            (rw (p, authenticate) at h),
      )
    ],
    λ (phrase, p, k).
        rw (p, authenticate) (IsAuthentic-keys phrase explicit_key candidates secret sv sv' k),
  )
