-- ===== src/Russh/Patterns/Clauses.antt =====
-- providers/russh.rs: which hosts a `Host` line of the configuration applies to.
use research_ssh_next.Prelude.{
  Text, Bool, true, false, not, ◌&&◌, ◌||◌, ◌≡◌, List, [], ◌∷◌, none, some, any, arith,
}
use research_ssh_next.Russh.Patterns.{
  host_pattern_matches, strip_negation, split_whitespace, clause_loop, host_clause_matches,
}

-- A word with `!` that forbids the host, and a word without it that names the host.
abbrev pub forbids : Text → Text → Bool
forbids host w = elim (strip_negation w) [
  | none ↦ false
  | some negated ↦ host_pattern_matches negated host
]

abbrev pub names : Text → Text → Bool
names host w = elim (strip_negation w) [ none ↦ host_pattern_matches w host | some negated ↦ false ]

clause_loop_lem :
    (ws : List Text) (positive : Bool) (host : Text)
    → clause_loop ws positive host
      ≡ (not (any (forbids host) ws) && (positive || any (names host) ws))
unfolding clause_loop
clause_loop_lem [] positive host = ground arith
clause_loop_lem (w ∷ ws) positive host =
    ground (arith, clause_loop_lem ws positive host, clause_loop_lem ws true host)

-- A clause applies exactly where no word with `!` matches the host and some other word does,
-- whatever the order of the words.
pub host_clause_matches_lem :
    (patterns host : Text)
    → host_clause_matches patterns host ≡ (
        not (any (forbids host) (split_whitespace patterns))
        && any (names host) (split_whitespace patterns))
unfolding host_clause_matches
host_clause_matches_lem patterns host = clause_loop_lem (split_whitespace patterns) false host
