-- ===== src/Prelude/Maps.antt =====
-- `HashMap<String, V>` as an association list, and `HashSet<String>` as a map to the unit type.
-- Rust iterates over either in an unspecified order: the model's loops go from the back.
use mathlib.Core.Path.{◌≡◌, refl}
use mathlib.Core.Bool.{Bool, false, not, ◌&&◌, ◌||◌}
use mathlib.Core.Logic.{inl, inr}
use mathlib.Core.List.{List, [], ◌∷◌}
use mathlib.Core.Option.{Option, none, some}
use native.Mathlib.Omega.{arith}
use research_ssh_next.Prelude.Tests.{if◌then◌else◌, is_some, Bool-cases}
use research_ssh_next.Prelude.Texts.{Text, text_eq, text_eq_iff}

abbrev pub Dict {ℓ} : Type ℓ → Type ℓ
Dict V = List (Text × V)

abbrev pub TextSet : Type 0
TextSet = Dict (Unit {0})

module _ {ℓ} {V : Type ℓ} where
  unfoldable pub lookup : Text → Dict V → Option V
  lookup k [] = none
  lookup k ((j, v) ∷ m) = if text_eq j k then some v else lookup k m

  unfoldable pub erase : Text → Dict V → Dict V
  erase k [] = []
  erase k ((j, v) ∷ m) = let rest = erase k m in if text_eq j k then rest else (j, v) ∷ rest

  unfoldable pub insert : Text → V → Dict V → Dict V
  unfolding erase
  insert k v m = (k, v) ∷ erase k m

  unfoldable pub contains : Text → Dict V → Bool
  unfolding lookup
  contains k m = is_some (lookup k m)

  -- Both `retain` and `iter().filter()`, by a test on the key.
  unfoldable pub retain : (Text → Bool) → Dict V → Dict V
  retain p [] = []
  retain p ((j, v) ∷ m) = let rest = retain p m in if p j then (j, v) ∷ rest else rest

  -- `for (k, _) in gone { m.remove(k) }`
  unfoldable pub erase_all : Dict V → Dict V → Dict V
  unfolding erase
  erase_all [] m = m
  erase_all ((k, v) ∷ gone) m = erase k (erase_all gone m)

  -- `for (k, v) in moved { m.insert(f(k), v) }`
  unfoldable pub insert_all : (Text → Text) → Dict V → Dict V → Dict V
  unfolding insert
  insert_all f [] m = m
  insert_all f ((k, v) ∷ moved) m = insert (f k) v (insert_all f moved m)

  pub lookup-erase :
      (k j : Text) (m : Dict V) → lookup j (erase k m) ≡ (if text_eq k j then none else lookup j m)
  unfolding lookup erase
  lookup-erase k j [] = ground arith
  lookup-erase k j ((i, v) ∷ m) =
      ground (arith, lookup-erase k j m, text_eq_iff i k, text_eq_iff i j, text_eq_iff k j)

  pub lookup-insert :
      (k j : Text) (v : V) (m : Dict V)
      → lookup j (insert k v m) ≡ (if text_eq k j then some v else lookup j m)
  unfolding lookup insert
  lookup-insert k j v m = ground (arith, lookup-erase k j m)

  pub lookup-retain :
      (p : Text → Bool) (j : Text) (m : Dict V)
      → lookup j (retain p m) ≡ (if p j then lookup j m else none)
  unfolding lookup retain
  lookup-retain p j [] = ground arith
  lookup-retain p j ((i, v) ∷ m) = elim (Bool-cases (text_eq i j)) [
    | inl e ↦ rw (← (text_eq_iff i j).0 e) (ground (arith, lookup-retain p i m, text_eq_iff i i))
    | inr e ↦ ground (arith, lookup-retain p j m)
  ]

  -- Erasing the entries that a test selects leaves the others.
  pub lookup-erase_all :
      (p : Text → Bool) (j : Text) (m n : Dict V)
      → lookup j (erase_all (retain p m) n) ≡ (if contains j m && p j then none else lookup j n)
  unfolding erase_all contains lookup retain
  lookup-erase_all p j [] n = refl
  lookup-erase_all p j ((i, v) ∷ m) n = elim (Bool-cases (text_eq i j)) [
    | inl e ↦ rw (← (text_eq_iff i j).0 e) (
        ground (
          arith,
          text_eq_iff i i,
          lookup-erase i i (erase_all (retain p m) n),
          lookup-erase_all p i m n,
        ))
    | inr e ↦ ground (arith, lookup-erase i j (erase_all (retain p m) n), lookup-erase_all p j m n)
  ]

  -- The collect-then-erase loop.
  pub lookup-erase_selected :
      (p : Text → Bool) (j : Text) (m : Dict V)
      → lookup j (erase_all (retain p m) m) ≡ (if p j then none else lookup j m)
  unfolding contains
  lookup-erase_selected p j m = ground (arith, lookup-erase_all p j m m)

  pub contains-erase_selected :
      (p : Text → Bool) (j : Text) (m : Dict V)
      → contains j (erase_all (retain p m) m) ≡ (not (p j) && contains j m)
  unfolding contains
  contains-erase_selected p j m = ground (arith, lookup-erase_selected p j m)

  pub contains-insert :
      (k j : Text) (v : V) (m : Dict V) → contains j (insert k v m) ≡ (text_eq k j || contains j m)
  unfolding contains
  contains-insert k j v m = ground (arith, lookup-insert k j v m)

  pub contains-retain :
      (p : Text → Bool) (j : Text) (m : Dict V) → contains j (retain p m) ≡ (p j && contains j m)
  unfolding contains
  contains-retain p j m = ground (arith, lookup-retain p j m)

  -- A map has one entry for each key.
  abbrev pub Unique : Dict V → Type 0
  Unique [] = Unit {0}
  Unique ((k, v) ∷ m) = (contains k m ≡ false) × Unique m

  pub Unique-erase : (k : Text) (m : Dict V) → Unique m → Unique (erase k m)
  unfolding erase contains
  Unique-erase k [] u = tt
  Unique-erase k ((j, v) ∷ m) (h, u) = elim (Bool-cases (text_eq j k)) [
    | inl e ↦ rw e (Unique-erase k m u)
    | inr e ↦ rw e (ground (arith, lookup-erase k j m), Unique-erase k m u)
  ]

  -- No key is left behind by the deletion, so the new entry is the only one.
  pub Unique-insert : (k : Text) (v : V) (m : Dict V) → Unique m → Unique (insert k v m)
  unfolding insert contains
  Unique-insert k v m u = (ground (arith, lookup-erase k k m, text_eq_iff k k), Unique-erase k m u)

  pub Unique-retain : (p : Text → Bool) (m : Dict V) → Unique m → Unique (retain p m)
  unfolding retain contains
  Unique-retain p [] u = tt
  Unique-retain p ((j, v) ∷ m) (h, u) = elim (Bool-cases (p j)) [
    | inl e ↦ rw e (ground (arith, lookup-retain p j m), Unique-retain p m u)
    | inr e ↦ rw e (Unique-retain p m u)
  ]

  pub Unique-erase_all : (gone m : Dict V) → Unique m → Unique (erase_all gone m)
  unfolding erase_all
  Unique-erase_all [] m u = u
  Unique-erase_all ((k, v) ∷ gone) m u =
      Unique-erase k (erase_all gone m) (Unique-erase_all gone m u)

  pub Unique-insert_all :
      (f : Text → Text) (moved m : Dict V) → Unique m → Unique (insert_all f moved m)
  unfolding insert_all
  Unique-insert_all f [] m u = u
  Unique-insert_all f ((k, v) ∷ moved) m u =
      Unique-insert (f k) v (insert_all f moved m) (Unique-insert_all f moved m u)

pub ruleset dict_laws = (lookup-erase, lookup-insert, lookup-retain)
