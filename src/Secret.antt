-- ===== src/Secret.antt =====
-- rust-core/src/secret.rs: the buffer that holds passwords and passphrases. That it is wiped when it
-- is dropped is left to the library that it wraps.
use research_ssh_next.Prelude.{
  ℕ, Text, Bytes, Bool, true, false, ◌≡◌, refl, ap, ◌↔◌, [], ◌∷◌, ◌++◌, codes, decimal, length,
  arith,
}

pub record Secret : Type 0 where
  pub bytes : Bytes

unfoldable pub from_bytes : Bytes → Secret
from_bytes bytes = record { bytes = bytes }

unfoldable pub expose : Secret → Bytes
expose s = s.bytes

unfoldable pub len : Secret → ℕ
len s = length s.bytes

unfoldable pub is_empty : Secret → Bool
is_empty s = elim s.bytes [ [] ↦ true | b ∷ bs ↦ false ]

-- `{:?}`
unfoldable pub debug_text : Secret → Text
unfolding len decimal
debug_text s = codes "Secret([" ++ (decimal (len s) ++ codes " bytes redacted])")

is_empty-from_bytes : (a : Bytes) → (is_empty (from_bytes a) ≡ true) ↔ (a ≡ [])
unfolding is_empty from_bytes
is_empty-from_bytes [] = ground arith
is_empty-from_bytes (b ∷ bs) = ground arith

-- What is exposed is what was put in, and what is printed tells no more of it than its length.
pub from_bytes_lem :
    (a b : Bytes)
    → (expose (from_bytes a) ≡ a)
      × ((is_empty (from_bytes a) ≡ true) ↔ (a ≡ []))
      × (length a ≡ length b → debug_text (from_bytes a) ≡ debug_text (from_bytes b))
unfolding from_bytes expose len debug_text
from_bytes_lem a b = (
  refl,
  is_empty-from_bytes a,
  λ h. ap (λ n. codes "Secret([" ++ (decimal n ++ codes " bytes redacted])")) h,
)
