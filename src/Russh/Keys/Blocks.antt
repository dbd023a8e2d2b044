-- ===== src/Russh/Keys/Blocks.antt =====
-- providers/russh.rs: the ssh configuration as blocks, each under its `Host` line.
use research_ssh_next.Prelude.{
  ℕ, Text, Bool, true, false, not, ◌&&◌, ◌||◌, ◌≡◌, refl, ap, ◌∙◌, List, [], ◌∷◌, ◌++◌, map, none,
  some, codes, text_eq, starts_with, if◌then◌else◌, trim, lower, Option-cases, inl, inr, arith,
}
use mathlib.Core.List.{flat_map}
use research_ssh_next.Russh.Patterns.{host_clause_matches}
use research_ssh_next.Russh.Keys.{
  Platform, split_key, split_lines, expand_identity_file, config_line, config_lines,
  identity_files_from_ssh_config,
}

-- What a line of the configuration says.
pub data Line : Type 0 where
  host identity_file : Text → Line
  other : Line

-- The line of a keyword in lower case.
abbrev said : Text → Text → Line
said key value =
    if text_eq key (codes "host")
    then Line.host value
    else if text_eq key (codes "identityfile") && not (text_eq value [])
    then Line.identity_file value
    else Line.other

unfoldable pub line_of : Text → Line
unfolding split_key
line_of raw =
    let line = trim raw in
    if text_eq line [] || starts_with (codes "#") line
    then Line.other
    else said (map lower (split_key line).0) (trim (split_key line).1)

-- The values of the `IdentityFile` lines before the first `Host` line, and then those of each block
-- with the patterns of its `Host` line.
unfoldable pub blocks : List Line → List Text × List (Text × List Text)
blocks [] = ([], [])
blocks (Line.host patterns ∷ lines) =
    let (files, later) = blocks lines in ([], (patterns, files) ∷ later)
blocks (Line.identity_file value ∷ lines) =
    let (files, later) = blocks lines in (value ∷ files, later)
blocks (Line.other ∷ lines) = blocks lines

module _ (os : Platform) (ssh_dir host username : Text) (port : ℕ) where
  abbrev pub expanded : List Text → List Text
  expanded files = map (λ value. expand_identity_file os value ssh_dir host username port) files

  -- The files of a block, if its patterns apply to the host.
  abbrev pub files_of : Text × List Text → List Text
  files_of (patterns, files) = if host_clause_matches patterns host then expanded files else []

  -- What a line does to the loop.
  effect : Line → Bool → Bool × List Text
  effect (Line.host patterns) active = (host_clause_matches patterns host, [])
  effect (Line.identity_file value) active = (active, if active then expanded (value ∷ []) else [])
  effect Line.other active = (active, [])

  config_line-effect :
      (raw : Text) (active : Bool)
      → config_line os ssh_dir host username port raw active ≡ effect (line_of raw) active
  unfolding config_line line_of effect
  config_line-effect raw active = ground arith

  effects : List Line → Bool → List Text
  unfolding effect
  effects [] active = []
  effects (l ∷ ls) active = let (active', found) = effect l active in found ++ effects ls active'

  config_lines-effects :
      (raws : List Text) (active : Bool)
      → config_lines os ssh_dir host username port raws active ≡ effects (map line_of raws) active
  unfolding config_lines effects
  config_lines-effects [] active = refl
  config_lines-effects (raw ∷ raws) active =
      let step = config_line-effect raw active in
      ap (λ (r : Bool × List Text). r.1 ++ config_lines os ssh_dir host username port raws r.0) step
      ∙ ap (λ fs. (effect (line_of raw) active).1 ++ fs)
          (config_lines-effects raws (effect (line_of raw) active).0)

  effects-blocks :
      (ls : List Line) (active : Bool)
      → effects ls active
        ≡ (if active then expanded (blocks ls).0 else []) ++ flat_map files_of (blocks ls).1
  unfolding effects effect blocks flat_map
  effects-blocks [] true = refl
  effects-blocks [] false = refl
  effects-blocks (Line.host patterns ∷ ls) true =
      effects-blocks ls (host_clause_matches patterns host)
  effects-blocks (Line.host patterns ∷ ls) false =
      effects-blocks ls (host_clause_matches patterns host)
  effects-blocks (Line.identity_file value ∷ ls) true =
      ap (λ fs. expand_identity_file os value ssh_dir host username port ∷ fs)
        (effects-blocks ls true)
  effects-blocks (Line.identity_file value ∷ ls) false = effects-blocks ls false
  effects-blocks (Line.other ∷ ls) active = effects-blocks ls active

  -- The identity files that the configuration names for a host are those of the blocks whose `Host`
  -- line applies to it, in the order of the file, each expanded; what stands before the first `Host`
  -- line names none, and neither does a configuration that cannot be read.
  pub identity_files_lem :
      identity_files_from_ssh_config os ssh_dir host username port
      ≡ (elim (os.read_to_string (os.join ssh_dir (codes "config"))) [
        | none ↦ []
        | some text ↦ flat_map files_of (blocks (map line_of (split_lines text))).1
      ])
  unfolding identity_files_from_ssh_config
  identity_files_lem = elim (Option-cases (os.read_to_string (os.join ssh_dir (codes "config")))) [
    | inl e ↦ rw (e, identity_files_from_ssh_config) refl
    | inr (text, e) ↦
        rw (e, identity_files_from_ssh_config)
          (config_lines-effects (split_lines text) false
            ∙ effects-blocks (map line_of (split_lines text)) false)
  ]
