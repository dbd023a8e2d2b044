-- ===== src/Russh/Patterns.antt =====
-- providers/russh.rs: the host patterns of an OpenSSH configuration.
pub mod Denotation
pub mod Clauses
use research_ssh_next.Prelude.{
  ℕ, Text, Bytes, into_bytes, Bool, true, false, ◌&&◌, ◌||◌, List, [], ◌∷◌, ◌==◌, if◌then◌else◌,
  lower, is_whitespace, Option, none, some,
}

-- `eq_ignore_ascii_case`
unfoldable pub eq_ignore_case : ℕ → ℕ → Bool
eq_ignore_case a b = lower a == lower b

-- `inner` of `host_pattern_matches`, over the bytes of the pattern and of the host. A `let` waits, so
-- that a branch makes its own calls alone.
unfoldable pub matches_bytes : Bytes → Bytes → Bool
unfolding eq_ignore_case
matches_bytes [] [] = true
matches_bytes [] (t ∷ ts) = false
matches_bytes (c ∷ p) [] = let skip = matches_bytes p [] in if c == b'*' then skip else false
matches_bytes (c ∷ p) (t ∷ ts) =
    let skip = matches_bytes p (t ∷ ts) in
    let take = matches_bytes (c ∷ p) ts in
    let next = matches_bytes p ts in
    if c == b'*'
    then (if skip then true else take)
    else if c == b'?'
    then next
    else if eq_ignore_case c t
    then next
    else false

unfoldable pub host_pattern_matches : Text → Text → Bool
unfolding matches_bytes into_bytes
host_pattern_matches pattern host = matches_bytes (into_bytes pattern) (into_bytes host)

add_char : ℕ → List Text → List Text
add_char c [] = (c ∷ []) ∷ []
add_char c (w ∷ ws) = (c ∷ w) ∷ ws

-- `split_whitespace`, where `starts` says that the next character begins a word.
words_from : Text → List Text
words_from [] = [] ∷ []
words_from (c ∷ s) =
    let rest = words_from s in if is_whitespace c then [] ∷ rest else add_char c rest

drop_empty : List Text → List Text
drop_empty [] = []
drop_empty ([] ∷ ws) = drop_empty ws
drop_empty ((c ∷ w) ∷ ws) = (c ∷ w) ∷ drop_empty ws

unfoldable pub split_whitespace : Text → List Text
unfolding words_from add_char drop_empty
split_whitespace s = drop_empty (words_from s)

-- `pattern.strip_prefix('!')`
unfoldable pub strip_negation : Text → Option Text
strip_negation [] = none
strip_negation (c ∷ w) = if c == b'!' then some w else none

-- The loop of `host_clause_matches`.
unfoldable pub clause_loop : List Text → Bool → Text → Bool
clause_loop [] positive host = positive
clause_loop (w ∷ ws) positive host = elim (strip_negation w) [
  | some negated ↦
      (let rest = clause_loop ws positive host in
        if host_pattern_matches negated host then false else rest)
  | none ↦ clause_loop ws (if host_pattern_matches w host then true else positive) host
]

unfoldable pub host_clause_matches : Text → Text → Bool
unfolding clause_loop split_whitespace
host_clause_matches patterns host = clause_loop (split_whitespace patterns) false host
