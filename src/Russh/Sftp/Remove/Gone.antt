-- ===== src/Russh/Sftp/Remove/Gone.antt =====
-- What is at each path, after removals, where a removal took one entry or what is inside it.
use research_ssh_next.Prelude.{
  Text, Bool, true, false, ◌||◌, ◌≡◌, refl, ◌∙◌, inl, inr, List, [], ◌∷◌, any, Option, none, some,
  is_some, Bool-cases, text_eq, if◌then◌else◌, arith,
}
use research_ssh_next.Russh.Sftp.{join_path}
use research_ssh_next.Russh.Sftp.Remove.Posix.{Node, AreEntries, Removed}
use research_ssh_next.Russh.Sftp.Paths.{IsName, IsClean, below, inside, siblings_apart}

pub some-of_is_some : {A : Type 0} (o : Option A) → is_some o ≡ true → (a : A) × (o ≡ some a)
some-of_is_some none h = absurd (cc)
some-of_is_some (some a) h = (a, refl)

pub still_entries :
    (look look' : Text → Option Node) (dir n : Text) (ns : List Text)
    → IsClean dir
    → IsName n
    → Removed look (join_path dir n) look'
    → any (text_eq n) ns ≡ false
    → AreEntries look dir ns
    → AreEntries look' dir ns
still_entries look look' dir n [] c h r fresh all = tt
still_entries look look' dir n (m ∷ ns) c h r fresh all =
    let apart : text_eq n m ≡ false = ground (arith, fresh) in
    let rest : any (text_eq n) ns ≡ false = ground (arith, fresh) in
    let here : look' (join_path dir m) ≡ look (join_path dir m) =
      r (join_path dir m) ∙ (rw (siblings_apart dir c n m h all.0 apart) refl) in
    (all.0, rw here all.1, all.2, still_entries look look' dir n ns c h r rest all.3)

pub both_gone :
    (later here : Bool) (old new : Option Node)
    → new ≡ (if here then none else old)
    → (if later then none else new) ≡ (if here || later then none else old)
both_gone later here old new h = ground arith

pub leaf_gone :
    (p q : Text) (old : Option Node)
    → (below p q ≡ true → old ≡ none)
    → (if text_eq q p then none else old) ≡ (if inside p q then none else old)
leaf_gone p q old h = elim (Bool-cases (below p q)) [
  | inl b ↦ ground (arith, h b)
  | inr n ↦ ground arith
]

pub all_in :
    (listed : Bool) (old : Option Node)
    → (is_some old ≡ true → listed ≡ true)
    → (if listed then none else old) ≡ none
all_in true old h = refl
all_in false none h = refl
all_in false (some k) h = cc (h refl)

pub directory_gone :
    (p q : Text) (listed : Bool) (old mid new : Option Node)
    → (below p q ≡ true → mid ≡ none)
    → (below p q ≡ false → listed ≡ false)
    → mid ≡ (if listed then none else old)
    → new ≡ (if text_eq q p then none else mid)
    → new ≡ (if inside p q then none else old)
directory_gone p q listed old mid new empty apart m n = elim (Bool-cases (below p q)) [
  | inl b ↦ ground (arith, empty b)
  | inr b ↦ ground (arith, apart b)
]
