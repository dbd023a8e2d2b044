-- ===== src/Russh/Keys/Candidates.antt =====
-- providers/russh.rs: which identity files are tried, and in what order.
use research_ssh_next.Prelude.{Text, Bool, true, false, ◌≡◌, List, [], ◌∷◌, any}
use research_ssh_next.Russh.Keys.{Platform}

-- What is relied on of the equality of paths: it is an equivalence, and equal paths name the same
-- file.
pub record ComparesPaths (os : Platform) : Type 0 where
  pub same_refl : (p : Text) → os.same_path p p ≡ true
  pub same_sym : (p q : Text) → os.same_path p q ≡ true → os.same_path q p ≡ true
  pub same_trans :
      (p q r : Text) → os.same_path p q ≡ true → os.same_path q r ≡ true → os.same_path p r ≡ true
  pub same_is_file : (p q : Text) → os.same_path p q ≡ true → os.is_file p ≡ os.is_file q

-- A path that is equal to `path` is in the list.
abbrev pub member : Platform → Text → List Text → Bool
member os path = any (os.same_path path)

-- No two paths of the list are equal.
abbrev pub Distinct : Platform → List Text → Type 0
Distinct os [] = Unit {0}
Distinct os (path ∷ paths) = (member os path paths ≡ false) × Distinct os paths

-- `xs` is `ys` with some elements left out, in the same order.
pub data IsSublist : List Text → List Text → Type 0 where
  nil : IsSublist [] []
  keep : {xs ys : List Text} (path : Text) → IsSublist xs ys → IsSublist (path ∷ xs) (path ∷ ys)
  leave : {xs ys : List Text} (path : Text) → IsSublist xs ys → IsSublist xs (path ∷ ys)
