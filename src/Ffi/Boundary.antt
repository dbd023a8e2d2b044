-- ===== src/Ffi/Boundary.antt =====
-- ffi.rs with runtime.rs: the core and its runtime, the panic guards, and the calls that touch no
-- command. What the builder of the runtime returns is a parameter.
use research_ssh_next.Prelude.{Text, ◌≡◌, refl, ◌⊎◌, inl, inr, ◌++◌, Option, none, some, codes}
use mathlib.Core.Option
use research_ssh_next.Core.{RsErrorCode, CoreResult, done, fail, with_detail}
use research_ssh_next.Ffi.Lifecycle.{RsSession}

-- `none` is a panic.
unfoldable pub guard_code : Option RsErrorCode → RsErrorCode
guard_code r = Option.get_or r RsErrorCode.panic

-- The outer `none` is a panic, the inner one the null pointer that the code returns.
unfoldable pub guard_ptr : {A : Type 0} → Option (Option A) → Option A
guard_ptr r = Option.get_or r none

-- What `out` points to, where it is not null.
unfoldable pub set_err : Option RsErrorCode → RsErrorCode → Option RsErrorCode
set_err none code = none
set_err (some old) code = some code

module _ {R : Type 0} where
  -- `CoreRuntime::new`, of the runtime or the text of its error.
  unfoldable pub new_runtime : R ⊎ Text → CoreResult R
  new_runtime (inl runtime) = done runtime
  new_runtime (inr e) = fail (with_detail RsErrorCode.runtime_error (codes "runtime build: " ++ e))

  unfoldable pub core_create : R ⊎ Text → Option RsErrorCode → Option R × Option RsErrorCode
  unfolding new_runtime set_err
  core_create built out = elim (new_runtime built) [
    | done runtime ↦ (some runtime, set_err out RsErrorCode.ok)
    | fail e ↦ (none, set_err out e.code)
  ]

  -- `rscore_destroy`: nothing of the core is left.
  unfoldable pub core_destroy : Option R → Option R
  core_destroy core = none

-- `rscore_session_cancel`. The wake-up that it sends decides how the awaited call of the driver ends
-- and changes nothing else.
unfoldable pub session_cancel : Option RsSession → RsErrorCode × Option RsSession
session_cancel none = (RsErrorCode.null_argument, none)
session_cancel (some s) = (RsErrorCode.ok, some s)

-- A core is returned exactly with the code `Ok`, and where the runtime could not be built the code
-- says so; a code is written only where there is a place for it.
pub core_create_lem :
    {R : Type 0} (built : R ⊎ Text) (old : RsErrorCode)
    → ((core : R) × (core_create built (some old) ≡ (some core, some RsErrorCode.ok))
        × (core_create built none ≡ (some core, none)))
      ⊎ ((core_create built (some old) ≡ (none, some RsErrorCode.runtime_error))
          × (core_create built none ≡ (none, none)))
unfolding core_create
core_create_lem (inl core) old = inl (core, refl, refl)
core_create_lem (inr e) old = inr (refl, refl)
