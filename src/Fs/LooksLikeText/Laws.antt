-- ===== src/Fs/LooksLikeText/Laws.antt =====
-- fs.rs: which parts of a name the heuristic reads.
use research_ssh_next.Prelude.{
  ℕ, Text, false, [], ◌∷◌, ◌++◌, ◌≡◌, refl, arith, none, some, contains_char, lower,
}
use research_ssh_next.Fs.LooksLikeText.{looks_like_text, rsplit_once_tail, to_ascii_lowercase}

lower_idem : (c : ℕ) → lower (lower c) ≡ lower c
unfolding lower
lower_idem c = ground arith

map-lower_idem : (s : Text) → to_ascii_lowercase (to_ascii_lowercase s) ≡ to_ascii_lowercase s
map-lower_idem [] = refl
map-lower_idem (c ∷ s) = cc (lower_idem c, map-lower_idem s)

-- Whether a name looks like text does not depend on the case of its letters.
pub looks_like_text-lower :
    (name : Text) → looks_like_text (to_ascii_lowercase name) ≡ looks_like_text name
unfolding looks_like_text
looks_like_text-lower name = rw map-lower_idem

rsplit_once_tail-no_sep :
    (sep : ℕ) (ext : Text) → contains_char sep ext ≡ false → rsplit_once_tail sep ext ≡ none
unfolding rsplit_once_tail contains_char
rsplit_once_tail-no_sep sep [] h = refl
rsplit_once_tail-no_sep sep (c ∷ s) h = ground (arith, rsplit_once_tail-no_sep sep s)

rsplit_once_tail-append :
    (sep : ℕ) (stem ext : Text)
    → contains_char sep ext ≡ false
    → rsplit_once_tail sep (stem ++ sep ∷ ext) ≡ some ext
unfolding rsplit_once_tail
rsplit_once_tail-append sep [] ext h = ground (arith, rsplit_once_tail-no_sep sep ext h)
rsplit_once_tail-append sep (c ∷ stem) ext h =
    ground (arith, rsplit_once_tail-append sep stem ext h)
