-- ===== src/Russh/Keys.antt =====
-- providers/russh.rs: the identity files that a connection tries. What the platform does with
-- paths and files is a record of functions.
pub mod Candidates
pub mod Blocks
use research_ssh_next.Prelude.{
  ℕ, zero, suc, Text, Bool, true, false, not, ◌&&◌, ◌||◌, ◌==◌, List, [], ◌∷◌, ◌++◌, ◌-◌, map,
  Option, none, some, codes, text_eq, strip_prefix, starts_with, if◌then◌else◌, length, any, trim,
  trim_start, trim_end, is_whitespace, lower, decimal,
}
use research_ssh_next.Russh.Patterns.{host_clause_matches}

-- `std::path` and `std::fs` as the program uses them: paths are texts, `join` appends a component,
-- `read_config` is the text of a file, if it can be read.
pub record Platform : Type 0 where
  pub home_dir : Option Text
  -- equality of `PathBuf`
  pub same_path : Text → Text → Bool
  pub join : Text → Text → Text
  pub is_absolute : Text → Bool
  pub is_file : Text → Bool
  pub read_to_string : Text → Option Text

-- `trim_matches('"')`
trim_quotes : Text → Text
trim_quotes s = trim_end (λ c. c == b'"') (trim_start (λ c. c == b'"') s)

-- `replace(from, to)` for a nonempty `from`; `skip` counts the characters of a found `from` that
-- are still to be passed over.
replace_from : ℕ → Text → Text → Text → Text
replace_from skip from to [] = []
replace_from zero from to (c ∷ s) =
    let found = to ++ replace_from (length from - 1) from to s in
    let other = c ∷ replace_from zero from to s in if starts_with from (c ∷ s) then found else other
replace_from (suc k) from to (c ∷ s) = replace_from k from to s

unfoldable pub replace_all : Text → Text → Text → Text
unfolding replace_from starts_with
replace_all from to s = replace_from 0 from to s

add_to_line : Bool → ℕ → List Text → List Text
add_to_line true c ls = [] ∷ ls
add_to_line false c [] = (c ∷ []) ∷ []
add_to_line false c (l ∷ ls) = (c ∷ l) ∷ ls

-- `lines()`: at each line feed. The carriage return that `lines` takes off too is left to the `trim`
-- of each line.
unfoldable pub split_lines : Text → List Text
unfolding add_to_line
split_lines [] = []
split_lines (c ∷ s) = add_to_line (c == 10) c (split_lines s)

-- `splitn(2, char::is_whitespace)`: the first word, and what stands behind one white space.
unfoldable pub split_key : Text → Text × Text
split_key [] = ([], [])
split_key (c ∷ s) =
    let (key, value) = split_key s in if is_whitespace c then ([], s) else (c ∷ key, value)

module _ (os : Platform) where
  expand_home : Text → Text
  expand_home value = elim os.home_dir [
    | none ↦ value
    | some home ↦
        if text_eq value (codes "~") then home else (elim (strip_prefix (codes "~/") value) [
          | none ↦ value
          | some rest ↦ os.join home rest
        ])
  ]

  unfoldable pub expand_identity_file : Text → Text → Text → Text → ℕ → Text
  unfolding trim_quotes replace_all expand_home decimal
  expand_identity_file raw ssh_dir host username port =
      let value = replace_all (codes "%p") (decimal port) (
        replace_all (codes "%r") username (
          replace_all (codes "%n") host
            (replace_all (codes "%h") host (expand_home (trim_quotes raw))))) in
      if os.is_absolute value then value else os.join ssh_dir value

  -- The body of the loop over the lines: whether the current `Host` applies, and the new files.
  unfoldable pub config_line : Text → Text → Text → ℕ → Text → Bool → Bool × List Text
  unfolding split_key trim
  config_line ssh_dir host username port raw active =
      let line = trim raw in
      if text_eq line [] || starts_with (codes "#") line
      then (active, [])
      else (let (key, rest) = split_key line in
          let key = map lower key in
          let value = trim rest in
          if text_eq key (codes "host")
          then (host_clause_matches value host, [])
          else if active && (text_eq key (codes "identityfile") && not (text_eq value []))
          then (active, expand_identity_file value ssh_dir host username port ∷ [])
          else (active, []))

  unfoldable pub config_lines : Text → Text → Text → ℕ → List Text → Bool → List Text
  unfolding config_line
  config_lines ssh_dir host username port [] active = []
  config_lines ssh_dir host username port (raw ∷ lines) active =
      let (active', found) = config_line ssh_dir host username port raw active in
      found ++ config_lines ssh_dir host username port lines active'

  unfoldable pub identity_files_from_ssh_config : Text → Text → Text → ℕ → List Text
  unfolding config_lines split_lines
  identity_files_from_ssh_config ssh_dir host username port =
      elim (os.read_to_string (os.join ssh_dir (codes "config"))) [
        | none ↦ []
        | some text ↦ config_lines ssh_dir host username port (split_lines text) false
      ]

  -- The loop of `keys_in_dir`: `path.is_file() && seen.insert(path.clone())`, where the set compares
  -- paths as `PathBuf` does.
  unfoldable pub keep_new : List Text → List Text → List Text
  keep_new seen [] = []
  keep_new seen (path ∷ paths) =
      let kept = path ∷ keep_new (path ∷ seen) paths in
      let rest = keep_new seen paths in
      if os.is_file path && not (any (os.same_path path) seen) then kept else rest

  unfoldable pub candidates : Text → Text → Text → ℕ → List Text
  unfolding identity_files_from_ssh_config
  candidates ssh_dir host username port =
      identity_files_from_ssh_config ssh_dir host username port
      ++ map (λ name. os.join ssh_dir name)
          (codes "id_ed25519" ∷ codes "id_ecdsa" ∷ codes "id_rsa" ∷ [])

  unfoldable pub keys_in_dir : Text → Text → Text → ℕ → List Text
  unfolding keep_new candidates
  keys_in_dir ssh_dir host username port = keep_new [] (candidates ssh_dir host username port)
