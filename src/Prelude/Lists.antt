-- ===== src/Prelude/Lists.antt =====
-- Lists measured by native numbers, under the library's names, and a predicate on all elements.
use Prim.Native.Nat.{ℕ, zero, suc, ◌+◌, min}
use mathlib.Core.Path.{◌≡◌, refl, sym, ap, ◌∙◌}
use mathlib.Core.Bool.{Bool, false, ◌||◌}
use mathlib.Core.List.{List, [], ◌∷◌, ◌++◌, flat_map, append-nil, append_assoc}
use mathlib.Core.Option.{Option, none, some}
use native.Mathlib.Omega.{arith}

module _ {ℓ} {A : Type ℓ} where
  abbrev pub length : List A → ℕ
  length [] = 0
  length (x ∷ xs) = suc (length xs)

  abbrev pub get_elem? : List A → ℕ → Option A
  get_elem? [] i = none
  get_elem? (x ∷ xs) zero = some x
  get_elem? (x ∷ xs) (suc i) = get_elem? xs i

  abbrev pub take : ℕ → List A → List A
  take zero xs = []
  take (suc n) [] = []
  take (suc n) (x ∷ xs) = x ∷ take n xs

  abbrev pub replicate : ℕ → A → List A
  replicate zero a = []
  replicate (suc n) a = a ∷ replicate n a

  abbrev pub any : (A → Bool) → List A → Bool
  any p [] = false
  any p (x ∷ xs) = p x || any p xs

  abbrev pub All {κ} : (A → Type κ) → List A → Type κ
  All P [] = Unit
  All P (x ∷ xs) = P x × All P xs

  -- `map` with a function that may fail, which fails where one of its calls does.
  abbrev pub map_all {κ} : {B : Type κ} → (A → Option B) → List A → Option (List B)
  map_all f [] = some []
  map_all f (x ∷ xs) = elim (f x) [
    | none ↦ none
    | some b ↦ elim (map_all f xs) [ none ↦ none | some bs ↦ some (b ∷ bs) ]
  ]

  pub take-length : (xs : List A) → take (length xs) xs ≡ xs
  take-length [] = refl
  take-length (x ∷ xs) = ap (λ ys. x ∷ ys) (take-length xs)

  pub map_all_cons {κ} :
      {B : Type κ} (f : A → Option B) (x : A) (xs : List A) {b : B} {bs : List B}
      → f x ≡ some b
      → map_all f xs ≡ some bs
      → map_all f (x ∷ xs) ≡ some (b ∷ bs)
  map_all_cons f x xs h k = rw (h, k, map_all) refl

  pub get_elem?-append :
      (xs ys : List A) (i : ℕ) (a : A) → get_elem? xs i ≡ some a → get_elem? (xs ++ ys) i ≡ some a
  get_elem?-append [] ys i a h = cc
  get_elem?-append (x ∷ xs) ys zero a h = h
  get_elem?-append (x ∷ xs) ys (suc i) a h = get_elem?-append xs ys i a h

  pub get_elem?-length :
      (xs : List A) (a : A) (ys : List A) → get_elem? (xs ++ a ∷ ys) (length xs) ≡ some a
  get_elem?-length [] a ys = refl
  get_elem?-length (x ∷ xs) a ys = get_elem?-length xs a ys

  pub length-append : (xs ys : List A) → length (xs ++ ys) ≡ length xs + length ys
  length-append [] ys = omega arith
  length-append (x ∷ xs) ys = omega (arith, length-append xs ys)

  pub length-take : (n : ℕ) (xs : List A) → length (take n xs) ≡ min n (length xs)
  length-take zero xs = omega arith
  length-take (suc n) [] = omega arith
  length-take (suc n) (x ∷ xs) = omega (arith, length-take n xs)

  pub All-append {κ} : (P : A → Type κ) (xs ys : List A) → All P xs → All P ys → All P (xs ++ ys)
  All-append P [] ys hx hy = hy
  All-append P (x ∷ xs) ys hx hy = (hx.0, All-append P xs ys hx.1 hy)

pub flat_map-append {ℓ κ} :
    {A : Type ℓ} {B : Type κ} (f : A → List B) (xs ys : List A)
    → flat_map f (xs ++ ys) ≡ flat_map f xs ++ flat_map f ys
unfolding flat_map
flat_map-append f [] ys = refl
flat_map-append f (x ∷ xs) ys =
    ap (λ zs. f x ++ zs) (flat_map-append f xs ys)
    ∙ sym (append_assoc (f x) (flat_map f xs) (flat_map f ys))

pub flat_map-snoc {ℓ κ} :
    {A : Type ℓ} {B : Type κ} (f : A → List B) (xs : List A) (x : A)
    → flat_map f (xs ++ x ∷ []) ≡ flat_map f xs ++ f x
unfolding flat_map
flat_map-snoc f xs x =
    flat_map-append f xs (x ∷ []) ∙ ap (λ zs. flat_map f xs ++ zs) (append-nil (f x))
