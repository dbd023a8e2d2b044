-- ===== src/Prelude/Format.antt =====
-- `str::trim`, `str::split(..).nth(1)`, the decimal form of a number, and the UTF-8 bytes of a text.
use Prim.Native.Nat.{ℕ, zero, suc, ◌+◌, ◌/◌, ◌%◌}
use mathlib.Core.Bool.{Bool, ◌&&◌, ◌||◌}
use mathlib.Core.List.{[], ◌∷◌, ◌++◌}
use mathlib.Core.Option.{Option, none, some}
use research_ssh_next.Prelude.Tests.{◌==◌, ltb, leb, if◌then◌else◌}
use research_ssh_next.Prelude.Texts.{Text, Bytes, strip_prefix, starts_with, trim_end}

-- `char::is_whitespace`
unfoldable pub is_whitespace : ℕ → Bool
is_whitespace c =
    (leb 9 c && leb c 13)
    || c == 32
    || c == 0x85
    || c == 0xa0
    || c == 0x1680
    || (leb 0x2000 c && leb c 0x200a)
    || c == 0x2028
    || c == 0x2029
    || c == 0x202f
    || c == 0x205f
    || c == 0x3000

unfoldable pub trim_start : (ℕ → Bool) → Text → Text
trim_start p [] = []
trim_start p (c ∷ s) = if p c then trim_start p s else c ∷ s

unfoldable pub trim : Text → Text
unfolding trim_start trim_end is_whitespace
trim s = trim_end is_whitespace (trim_start is_whitespace s)

-- What stands behind the first `pat`.
unfoldable pub after_first : Text → Text → Option Text
unfolding strip_prefix
after_first pat [] = strip_prefix pat []
after_first pat (c ∷ s) = elim (strip_prefix pat (c ∷ s)) [
  | some rest ↦ some rest
  | none ↦ after_first pat s
]

-- What stands before the first `pat`.
unfoldable pub before_first : Text → Text → Text
unfolding starts_with
before_first pat [] = []
before_first pat (c ∷ s) =
    let rest = before_first pat s in if starts_with pat (c ∷ s) then [] else c ∷ rest

-- `s.split(pat).nth(1).unwrap_or_default()` for a nonempty `pat`
unfoldable pub second_part : Text → Text → Text
unfolding after_first before_first
second_part pat s = elim (after_first pat s) [ none ↦ [] | some rest ↦ before_first pat rest ]

decimal_on : ℕ → ℕ → Text
decimal_on zero n = []
decimal_on (suc fuel) n =
    let more = decimal_on fuel (n / 10) in
    if ltb n 10 then (48 + n) ∷ [] else more ++ (48 + n % 10) ∷ []

-- `{}` of an unsigned number below 2^64, which has 20 digits at most.
unfoldable pub decimal : ℕ → Text
unfolding decimal_on
decimal n = decimal_on 20 n

unfoldable pub utf8_char : ℕ → Bytes
utf8_char c =
    if ltb c 0x80
    then c ∷ []
    else if ltb c 0x800
    then (0xc0 + c / 0x40) ∷ (0x80 + c % 0x40) ∷ []
    else if ltb c 0x10000
    then (0xe0 + c / 0x1000) ∷ (0x80 + c / 0x40 % 0x40) ∷ (0x80 + c % 0x40) ∷ []
    else (0xf0 + c / 0x40000)
      ∷ (0x80 + c / 0x1000 % 0x40)
      ∷ (0x80 + c / 0x40 % 0x40)
      ∷ (0x80 + c % 0x40)
      ∷ []

-- `String::into_bytes`
unfoldable pub into_bytes : Text → Bytes
unfolding utf8_char
into_bytes [] = []
into_bytes (c ∷ s) = utf8_char c ++ into_bytes s
