-- ===== src/Prelude/Texts.antt =====
-- Rust's `str` as the list of its code points, and the operations of `str` that the program uses.
use Prim.Native.Char.{code}
use Prim.Native.Nat.{ℕ, ◌+◌}
use Prim.Native.String.{String}
use mathlib.Core.Path.{◌≡◌, refl}
use mathlib.Core.Logic.{◌↔◌}
use mathlib.Core.Bool.{Bool, true, false, ◌&&◌}
use mathlib.Core.List.{List, [], ◌∷◌, ◌++◌}
use mathlib.Core.Option.{Option, none, some}
use native.Mathlib.Omega.{arith}
use research_ssh_next.Prelude.Tests.{◌==◌, ==_iff, if◌then◌else◌, leb, is_some}

abbrev pub Text : Type 0
Text = List ℕ

abbrev pub Bytes : Type 0
Bytes = List ℕ

-- A literal.
abbrev pub codes : String → Text
codes String.[] = []
codes (String.◌∷◌ c s) = code c ∷ codes s

unfoldable pub text_eq : Text → Text → Bool
text_eq [] [] = true
text_eq [] (d ∷ t) = false
text_eq (c ∷ s) [] = false
text_eq (c ∷ s) (d ∷ t) = (c == d) && text_eq s t

-- `s.strip_prefix(p)`
unfoldable pub strip_prefix : Text → Text → Option Text
strip_prefix [] s = some s
strip_prefix (p ∷ ps) [] = none
strip_prefix (p ∷ ps) (c ∷ s) = if p == c then strip_prefix ps s else none

-- `s.starts_with(p)`
unfoldable pub starts_with : Text → Text → Bool
unfolding strip_prefix
starts_with p s = is_some (strip_prefix p s)

-- `s.contains(p)`
unfoldable pub contains_text : Text → Text → Bool
unfolding starts_with
contains_text p [] = starts_with p []
contains_text p (c ∷ s) = if starts_with p (c ∷ s) then true else contains_text p s

-- `s.contains(c)` for a character
unfoldable pub contains_char : ℕ → Text → Bool
contains_char x [] = false
contains_char x (c ∷ s) = if x == c then true else contains_char x s

-- `s.replacen(from, to, 1)`
unfoldable pub replace_first : Text → Text → Text → Text
unfolding strip_prefix
replace_first from to [] = elim (strip_prefix from []) [ none ↦ [] | some r ↦ to ++ r ]
replace_first from to (c ∷ s) = elim (strip_prefix from (c ∷ s)) [
  | none ↦ c ∷ replace_first from to s
  | some r ↦ to ++ r
]

unfoldable pub trim_step : (ℕ → Bool) → ℕ → Text → Text
trim_step p c [] = if p c then [] else c ∷ []
trim_step p c (d ∷ t) = c ∷ d ∷ t

-- `s.trim_end_matches(p)`
unfoldable pub trim_end : (ℕ → Bool) → Text → Text
unfolding trim_step
trim_end p [] = []
trim_end p (c ∷ s) = trim_step p c (trim_end p s)

-- `s.to_ascii_lowercase()`, a character at a time
unfoldable pub lower : ℕ → ℕ
lower c = if leb b'A' c && leb c b'Z' then c + 32 else c

pub text_eq_iff : (s t : Text) → (text_eq s t ≡ true) ↔ (s ≡ t)
unfolding text_eq
text_eq_iff [] [] = (λ _. refl, λ _. refl)
text_eq_iff [] (d ∷ t) = ground arith
text_eq_iff (c ∷ s) [] = ground arith
text_eq_iff (c ∷ s) (d ∷ t) = ground (arith, ==_iff c d, text_eq_iff s t)

pub text_eq_refl : (s : Text) → text_eq s s ≡ true
text_eq_refl s = (text_eq_iff s s).1 refl

pub text_eq-append : (p s t : Text) → text_eq (p ++ s) (p ++ t) ≡ text_eq s t
unfolding text_eq
text_eq-append [] s t = refl
text_eq-append (c ∷ p) s t = ground (arith, text_eq-append p s t)

pub strip_prefix-append : (p s : Text) → strip_prefix p (p ++ s) ≡ some s
unfolding strip_prefix
strip_prefix-append [] s = refl
strip_prefix-append (c ∷ p) s = ground (arith, strip_prefix-append p s)

pub strip_prefix-eq-some : (p s r : Text) → strip_prefix p s ≡ some r → s ≡ p ++ r
unfolding strip_prefix
strip_prefix-eq-some [] s r h = ground arith
strip_prefix-eq-some (c ∷ p) [] r h = cc
strip_prefix-eq-some (c ∷ p) (d ∷ s) r h = ground (arith, strip_prefix-eq-some p s r)

pub replace_first-append : (p t r : Text) → replace_first p t (p ++ r) ≡ t ++ r
unfolding replace_first
replace_first-append [] t [] = refl
replace_first-append [] t (c ∷ r) = refl
replace_first-append (c ∷ p) t r = ground (arith, strip_prefix-append p r)
