-- ===== src/Russh/Auth/HostKey.antt =====
-- providers/russh.rs: when a host key is accepted.
use research_ssh_next.Prelude.{
  ℕ, Text, Bool, true, ◌≡◌, refl, ◌↔◌, ◌⊎◌, inl, inr, Option, none, some, arith,
}
use research_ssh_next.Russh.Auth.{KnownHost, matches, unknown, refused, check_server_key}

-- A key is accepted exactly if the host is known by it, or if the host is unknown and the user says
-- yes to the prompt that was shown, whether or not the key can be appended to the known hosts; the
-- user is asked about an unknown host alone, never about a changed key; and a key is learned exactly
-- if it was accepted and not known before, and appending it succeeds.
pub check_server_key_lem :
    (known : KnownHost) (gate : Option (Text → Bool)) (appends : Bool) (fingerprint host : Text)
    (port : ℕ)
    → (((check_server_key known gate appends fingerprint host port).accepted ≡ true) ↔ (
        (known ≡ matches)
        ⊎ ((ask : Text → Bool) × (prompt : Text) × (known ≡ unknown)
            × (gate ≡ some ask)
            × ((check_server_key known gate appends fingerprint host port).prompted ≡ some prompt)
            × (ask prompt ≡ true))))
      × (((check_server_key known gate appends fingerprint host port).prompted ≡ none)
          ⊎ (known ≡ unknown))
      × (((check_server_key known gate appends fingerprint host port).learned ≡ true) ↔ (
          ((check_server_key known gate appends fingerprint host port).accepted ≡ true)
          × (known ≡ unknown)
          × (appends ≡ true)))
unfolding check_server_key
check_server_key_lem matches gate appends fingerprint host port =
    ((λ h. inl refl, λ h. refl), inl refl, (λ h. cc, λ h. ground arith))
check_server_key_lem refused gate appends fingerprint host port =
    ((λ h. cc, λ h. ground arith), inl refl, (λ h. cc, λ h. ground arith))
check_server_key_lem unknown none appends fingerprint host port =
    ((λ h. cc, λ h. ground arith), inl refl, (λ h. cc, λ h. ground arith))
check_server_key_lem unknown (some ask) appends fingerprint host port = (
  (
    λ h. inr (ask, _, refl, refl, refl, h),
    elim [ inl e ↦ cc | inr (ask', prompt, _, e, q, y) ↦ cc ],
  ),
  inr refl,
  (λ h. (ground arith, refl, ground arith), λ h. ground arith),
)
