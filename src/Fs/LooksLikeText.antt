-- ===== src/Fs/LooksLikeText.antt =====
-- fs.rs: `looks_like_text`, the allow-list by which the file tree offers the editor.
pub mod Laws
use research_ssh_next.Prelude.{
  ℕ, Text, Bool, true, false, ◌||◌, List, [], ◌∷◌, ◌==◌, map, any, codes, text_eq, Option, none,
  some, if◌then◌else◌, lower,
}

-- `to_ascii_lowercase` of a whole text
abbrev pub to_ascii_lowercase : Text → Text
to_ascii_lowercase = map lower

-- `rsplit_once(sep)`, the part behind the last separator
pub rsplit_once_tail : ℕ → Text → Option Text
rsplit_once_tail sep [] = none
rsplit_once_tail sep (c ∷ s) = elim (rsplit_once_tail sep s) [
  | some ext ↦ some ext
  | none ↦ if c == sep then some s else none
]

abbrev pub text_exts : List Text
text_exts = map codes (
    "txt" ∷ "md" ∷ "rst" ∷ "log" ∷ "csv" ∷ "tsv" ∷ "json" ∷ "yaml" ∷ "yml" ∷ "toml" ∷ "ini" ∷ "cfg"
    ∷ "conf" ∷ "env" ∷ "py" ∷ "pyi" ∷ "ipynb" ∷ "c" ∷ "h" ∷ "cc" ∷ "cpp" ∷ "cxx" ∷ "hpp" ∷ "hxx"
    ∷ "rs" ∷ "go" ∷ "java" ∷ "kt" ∷ "js" ∷ "ts" ∷ "tsx" ∷ "jsx" ∷ "sh" ∷ "bash" ∷ "zsh" ∷ "fish"
    ∷ "r" ∷ "jl" ∷ "m" ∷ "lua" ∷ "pl" ∷ "rb" ∷ "php" ∷ "sql" ∷ "html" ∷ "css" ∷ "xml" ∷ "tex"
    ∷ "bib" ∷ "make" ∷ "cmake" ∷ "gradle" ∷ "dockerfile" ∷ "gitignore" ∷ [])

abbrev pub special_names : List Text
special_names = map codes ("makefile" ∷ "dockerfile" ∷ "cmakelists.txt" ∷ ".gitignore" ∷ [])

is_text_ext : Option Text → Bool
is_text_ext none = false
is_text_ext (some ext) = any (text_eq ext) text_exts

pub looks_like_text : Text → Bool
unfolding is_text_ext rsplit_once_tail text_eq
looks_like_text name =
    let lowered = to_ascii_lowercase name in
    if any (text_eq lowered) special_names
    then true
    else is_text_ext (rsplit_once_tail b'.' lowered)
