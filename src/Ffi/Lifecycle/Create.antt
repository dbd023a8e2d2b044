-- ===== src/Ffi/Lifecycle/Create.antt =====
-- ffi.rs: when `rscore_session_create` makes a session, and which one.
use research_ssh_next.Prelude.{
  Text, Bytes, Bool, true, false, ◌&&◌, ◌≡◌, refl, ◌⊎◌, inl, inr, Option, none, some, Option-cases,
  if◌then◌else◌,
}
use mathlib.Core.Option
use research_ssh_next.Core.{RsErrorCode}
use research_ssh_next.Provider.{ConnectionConfig}
use research_ssh_next.Ffi.Events.{new_emitter}
use research_ssh_next.Ffi.Calls.{good, bad, cstr_to_string}
use research_ssh_next.Ffi.Lifecycle.{RsSessionConfig, Created, spawn, create_with, session_create}

-- The parameters with the two texts decoded.
abbrev pub with_texts : RsSessionConfig → Option Text → Option Text → Option ConnectionConfig
with_texts config (some host) (some username) =
    some (record { host = host; port = config.port; username = username; kind = config.provider })
with_texts config (some host) none = none
with_texts config none username = none

-- A session and the code `Ok`, or null and another code.
abbrev pub IsOutcome : Option ConnectionConfig → Created → Type 0
IsOutcome (some c) r = r ≡ (some (spawn c new_emitter), RsErrorCode.ok)
IsOutcome none r =
    (r.0 ≡ none) × ((r.1 ≡ RsErrorCode.null_argument) ⊎ (r.1 ≡ RsErrorCode.invalid_utf8))

module _ (from_utf8 : Bytes → Option Text) where
  abbrev pub text_at : Option Bytes → Option Text
  text_at p = Option.bind p from_utf8

  -- The connection that the arguments describe, in whatever order they are looked at.
  abbrev pub described : Bool → Option RsSessionConfig → Bool → Option ConnectionConfig
  described core config cb =
      if core && cb
      then Option.bind config (λ c. with_texts c (text_at c.host) (text_at c.username))
      else none

  decode-cases :
      (p : Option Bytes)
      → ((s : Text) × (cstr_to_string from_utf8 p ≡ good s) × (text_at p ≡ some s))
        ⊎ ((code : RsErrorCode) × (cstr_to_string from_utf8 p ≡ bad code)
            × (text_at p ≡ none)
            × ((code ≡ RsErrorCode.null_argument) ⊎ (code ≡ RsErrorCode.invalid_utf8)))
  unfolding cstr_to_string Option.bind
  decode-cases none = inr (RsErrorCode.null_argument, refl, refl, inl refl)
  decode-cases (some bytes) = elim (Option-cases (from_utf8 bytes)) [
    | inl e ↦ inr (RsErrorCode.invalid_utf8, rw (cstr_to_string, e) refl, rw e refl, inr refl)
    | inr (s, e) ↦ inl (s, rw (cstr_to_string, e) refl, rw e refl)
  ]

  create_with-IsOutcome :
      (config : RsSessionConfig)
      → IsOutcome
          (with_texts config (text_at config.host) (text_at config.username))
          (create_with from_utf8 config)
  unfolding create_with
  create_with-IsOutcome config = elim (decode-cases config.host) [
    | inr (code, e, t, c) ↦ rw (create_with, e, t) (refl, c)
    | inl (host, e, t) ↦ elim (decode-cases config.username) [
      | inr (code, f, u, c) ↦ rw (create_with, e, t, f, u) (refl, c)
      | inl (username, f, u) ↦ rw (create_with, e, t, f, u) refl
    ]
  ]

  -- A session is made, with the code `Ok`, exactly where the core, the parameters and the callback
  -- are given and both texts can be read, and it is for what they say; otherwise the pointer is null
  -- and the code says that an argument was null or not UTF-8.
  pub session_create_lem :
      (core : Bool) (config : Option RsSessionConfig) (cb : Bool)
      → IsOutcome (described core config cb) (session_create from_utf8 core config cb)
  unfolding session_create Option.bind
  session_create_lem false config cb = (refl, inl refl)
  session_create_lem true none true = (refl, inl refl)
  session_create_lem true none false = (refl, inl refl)
  session_create_lem true (some config) false = (refl, inl refl)
  session_create_lem true (some config) true = create_with-IsOutcome config
