-- ===== src/System/Ledger.antt =====
-- The request ids that a list of commands carries, told apart by the callback that answers.
use research_ssh_next.Prelude.{
  append_assoc, ℕ, zero, suc, ◌+◌, ◌==◌, ◌≡◌, refl, ap, sym, ◌∙◌, List, [], ◌∷◌, ◌++◌,
  if◌then◌else◌, arith,
}
use research_ssh_next.Session.Driver.{Command}
use research_ssh_next.Session.Handle.Ids.{ids_after}

abbrev pub file_ids_of : Command → List ℕ
file_ids_of (Command.fs id op) = id ∷ []
file_ids_of c = []

abbrev pub task_ids_of : Command → List ℕ
task_ids_of (Command.exec id line timeout_ms) = id ∷ []
task_ids_of c = []

-- Of a list of commands, in order.
abbrev pub ids_by : (Command → List ℕ) → List Command → List ℕ
ids_by of [] = []
ids_by of (c ∷ cs) = of c ++ ids_by of cs

abbrev pub request_ids_of : Command → List ℕ
request_ids_of c = file_ids_of c ++ task_ids_of c

-- A command that a client sends while the session lives.
abbrev pub IsOrdinary : Command → Type 0
IsOrdinary Command.shutdown = ⊥
IsOrdinary c = Unit {0}

-- How often a number stands in a list.
abbrev pub times : ℕ → List ℕ → ℕ
times n [] = 0
times n (x ∷ xs) = let rest = times n xs in if x == n then suc rest else rest

-- The ids among what the calls returned, where 0 reports a failure.
abbrev pub accepted : List ℕ → List ℕ
accepted [] = []
accepted (zero ∷ xs) = accepted xs
accepted (suc n ∷ xs) = suc n ∷ accepted xs

pub ids_by-append :
    (of : Command → List ℕ) (cs ds : List Command)
    → ids_by of (cs ++ ds) ≡ ids_by of cs ++ ids_by of ds
ids_by-append of [] ds = refl
ids_by-append of (c ∷ cs) ds =
    ap (λ ids. of c ++ ids) (ids_by-append of cs ds)
    ∙ sym (append_assoc (of c) (ids_by of cs) (ids_by of ds))

pub accepted-append : (xs ys : List ℕ) → accepted (xs ++ ys) ≡ accepted xs ++ accepted ys
accepted-append [] ys = refl
accepted-append (zero ∷ xs) ys = accepted-append xs ys
accepted-append (suc n ∷ xs) ys = ap (λ zs. suc n ∷ zs) (accepted-append xs ys)

pub times-append : (n : ℕ) (xs ys : List ℕ) → times n (xs ++ ys) ≡ times n xs + times n ys
times-append n [] ys = omega arith
times-append n (x ∷ xs) ys = ground (arith, times-append n xs ys)

-- Each request is answered by one of the two callbacks.
pub times-ids :
    (n : ℕ) (cs : List Command)
    → times n (ids_by file_ids_of cs) + times n (ids_by task_ids_of cs)
      ≡ times n (ids_by request_ids_of cs)
times-ids n [] = refl
times-ids n (c ∷ cs) = omega (
  arith,
  times-ids n cs,
  times-append n (file_ids_of c) (ids_by file_ids_of cs),
  times-append n (task_ids_of c) (ids_by task_ids_of cs),
  times-append n (request_ids_of c) (ids_by request_ids_of cs),
  times-append n (file_ids_of c) (task_ids_of c),
)

-- One more number at the end.
pub ids_after-suc : (n k : ℕ) → ids_after n (suc k) ≡ ids_after n k ++ (n + suc k) ∷ []
ids_after-suc n zero = refl
ids_after-suc n (suc k) =
    let shift : n + 1 + suc k ≡ n + suc (suc k) = omega arith in
    ap (λ ids. (n + 1) ∷ ids)
      (ids_after-suc (n + 1) k ∙ ap (λ m. ids_after (n + 1) k ++ m ∷ []) shift)

pub ids_after_next : (n : ℕ) → ids_after 0 (n + 1) ≡ ids_after 0 n ++ (n + 1) ∷ []
ids_after_next n =
    let next : n + 1 ≡ suc n = omega arith in
    let last : 0 + suc n ≡ n + 1 = omega arith in
    ap (ids_after 0) next ∙ (ids_after-suc 0 n ∙ ap (λ m. ids_after 0 n ++ m ∷ []) last)

pub accepted_next :
    (xs : List ℕ) (n : ℕ) → accepted (xs ++ (n + 1) ∷ []) ≡ accepted xs ++ (n + 1) ∷ []
accepted_next xs n =
    let next : n + 1 ≡ suc n = omega arith in rw (next) (accepted-append xs (suc n ∷ []))
