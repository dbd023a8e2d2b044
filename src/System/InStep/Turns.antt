-- ===== src/System/InStep/Turns.antt =====
-- A turn of the driver keeps it in step with the handle, and takes a command if one waits.
use research_ssh_next.Prelude.{
  append-nil, append_assoc, then_branch, ℕ, suc, ◌+◌, ◌≤◌, Text, Bytes, true, ◌≡◌, ◌⊎◌, inl, inr,
  refl, sym, ap, ◌∙◌, List, [], ◌∷◌, ◌++◌, length, length-append, All, Option, none, some,
  get_elem?, get_elem?-length, arith,
}
use mathlib.Core.Path.{subst}
use research_ssh_next.Fs.{FileProvider}
use research_ssh_next.Provider.{SshProvider}
use research_ssh_next.Session.Driver.{Command, Race, Driver, Input}
use research_ssh_next.Session.Handlers.{step}
use research_ssh_next.Session.Answers.{serve_input, step-view}
use research_ssh_next.Session.Answers.Keeps.{View, view}
use research_ssh_next.System.{System, take_turn}
use research_ssh_next.System.InStep.{IsInStep}
use research_ssh_next.System.Ledger.{file_ids_of, task_ids_of, ids_by, IsOrdinary, ids_by-append}

-- A driver that runs with both callbacks registered, and what it has answered.
record Answers (v : View) (file_ids task_ids : List ℕ) : Type 0 where
  runs : v.running ≡ true
  has_files : v.has_file_emitter ≡ true
  has_tasks : v.has_task_emitter ≡ true
  files : v.file_ids ≡ file_ids
  tasks : v.task_ids ≡ task_ids

command-Answers :
    (c : Command) (race : Race) (v : View) (fs ts : List ℕ)
    → IsOrdinary c
    → Answers v fs ts
    → Answers (serve_input (Input.command c race) v) (fs ++ file_ids_of c) (ts ++ task_ids_of c)
command-Answers Command.shutdown race v fs ts ok a = absurd ok
command-Answers (Command.fs id op) race v fs ts ok a = ground (arith, append-nil ts)
command-Answers (Command.exec id line t) race v fs ts ok a = ground (arith, append-nil fs)
command-Answers Command.connect race v fs ts ok a = rw (append-nil fs, append-nil ts) a
command-Answers c race v fs ts ok a = rw (append-nil fs, append-nil ts) a

get_elem?-past {ℓ} : {A : Type ℓ} (xs : List A) → get_elem? (xs ++ []) (length xs) ≡ none
get_elem?-past [] = refl
get_elem?-past (x ∷ xs) = get_elem?-past xs

ids_by-snoc :
    (of : Command → List ℕ) (cs : List Command) (c : Command)
    → ids_by of (cs ++ c ∷ []) ≡ ids_by of cs ++ of c
ids_by-snoc of cs c =
    ids_by-append of cs (c ∷ []) ∙ ap (λ ids. ids_by of cs ++ ids) (append-nil (of c))

waiting-cases {ℓ} :
    {A : Type ℓ} (xs : List A) → (xs ≡ []) ⊎ ((x : A) × (rest : List A) × (xs ≡ x ∷ rest))
waiting-cases [] = inl refl
waiting-cases (x ∷ rest) = inr (x, rest, refl)

module _ {P S : Type 0} (ssh : SshProvider P S) (files : FileProvider S) where
  IsInStep-Answers :
      {w m : ℕ} (sys : System P S) (i : IsInStep w m sys)
      → Answers (view sys.driver) (ids_by file_ids_of i.served) (ids_by task_ids_of i.served)
  IsInStep-Answers sys i = record {
    runs = i.runs;
    has_files = i.has_files;
    has_tasks = i.has_tasks;
    files = i.files;
    tasks = i.tasks;
  }

  step-Answers :
      (j : Input) (d : Driver P S) (fs ts : List ℕ)
      → d.running ≡ true
      → Answers (serve_input j (view d)) fs ts
      → Answers (view (step ssh files j d)) fs ts
  step-Answers j d fs ts h a =
      subst (λ v. Answers v fs ts)
        (sym (step-view ssh files j d ∙ then_branch d.running (serve_input j (view d)) (view d) h))
        a

  -- What the provider pushes, and the turn of the event queue, answer nothing.
  pub silent-IsInStep :
      {w m : ℕ} (j : Input) (sys : System P S)
      → ((v : View) → serve_input j v ≡ v)
      → IsInStep w m sys
      → IsInStep (suc w) (suc m) (record sys { driver = step ssh files j sys.driver })
  silent-IsInStep j sys silent i =
      let a =
        step-Answers j sys.driver (ids_by file_ids_of i.served) (ids_by task_ids_of i.served) i.runs
          (rw (silent (view sys.driver)) (IsInStep-Answers sys i)) in
      record {
        served = i.served;
        waiting = i.waiting;
        whole = i.whole;
        place = i.place;
        few = omega (arith, i.few);
        ordinary = i.ordinary;
        receives = i.receives;
        runs = a.runs;
        has_files = a.has_files;
        has_tasks = a.has_tasks;
        files = a.files;
        tasks = a.tasks;
        given = i.given;
        numbered = i.numbered;
        counted = omega (arith, i.counted);
      }

  module _ (from_utf8 : Bytes → Option Text) {w m : ℕ} (race : Race) (sys : System P S)
      (i : IsInStep (suc w) m sys) where
    next_at :
        (c : Command) (rest : List Command)
        → i.waiting ≡ c ∷ rest
        → get_elem? sys.session.sent sys.taken ≡ some c
    next_at c rest e =
        ap (λ cs. get_elem? cs sys.taken) (i.whole ∙ ap (λ cs. i.served ++ cs) e)
        ∙ (ap (get_elem? (i.served ++ c ∷ rest)) i.place ∙ get_elem?-length i.served c rest)

    none_at : i.waiting ≡ [] → get_elem? sys.session.sent sys.taken ≡ none
    none_at e =
        ap (λ cs. get_elem? cs sys.taken) (i.whole ∙ ap (λ cs. i.served ++ cs) e)
        ∙ (ap (get_elem? (i.served ++ [])) i.place ∙ get_elem?-past i.served)

    idle : i.waiting ≡ [] → IsInStep w m sys
    idle e = record {
      served = i.served;
      waiting = [];
      whole = i.whole ∙ ap (λ cs. i.served ++ cs) e;
      place = i.place;
      few = omega arith;
      ordinary = tt;
      receives = i.receives;
      runs = i.runs;
      has_files = i.has_files;
      has_tasks = i.has_tasks;
      files = i.files;
      tasks = i.tasks;
      given = i.given;
      numbered = i.numbered;
      counted = i.counted;
    }

    taken-IsInStep :
        (c : Command) (rest : List Command)
        → i.waiting ≡ c ∷ rest
        → IsInStep w m (record sys {
          driver = step ssh files (Input.command c race) sys.driver;
          taken = sys.taken + 1;
        })
    taken-IsInStep c rest e =
        let ok : IsOrdinary c × All IsOrdinary rest = subst (All IsOrdinary) e i.ordinary in
        let fewer : length rest ≤ w = omega (arith, i.few, ap length e) in
        let a =
          step-Answers (Input.command c race) sys.driver
            (ids_by file_ids_of i.served ++ file_ids_of c)
            (ids_by task_ids_of i.served ++ task_ids_of c) i.runs
            (command-Answers c race (view sys.driver) (ids_by file_ids_of i.served)
              (ids_by task_ids_of i.served) ok.0 (IsInStep-Answers sys i)) in
        record {
          served = i.served ++ c ∷ [];
          waiting = rest;
          whole =
              i.whole ∙ (ap (λ cs. i.served ++ cs) e ∙ sym (append_assoc i.served (c ∷ []) rest));
          place = omega (arith, i.place, length-append i.served (c ∷ []));
          few = fewer;
          ordinary = ok.1;
          receives = i.receives;
          runs = a.runs;
          has_files = a.has_files;
          has_tasks = a.has_tasks;
          files = a.files ∙ sym (ids_by-snoc file_ids_of i.served c);
          tasks = a.tasks ∙ sym (ids_by-snoc task_ids_of i.served c);
          given = i.given;
          numbered = i.numbered;
          counted = i.counted;
        }

    pub turn-IsInStep : IsInStep w m (take_turn ssh files from_utf8 race sys)
    unfolding take_turn
    turn-IsInStep = elim (waiting-cases i.waiting) [
      | inl e ↦ rw (take_turn, none_at e) (idle e)
      | inr (c, rest, e) ↦ rw (take_turn, next_at c rest e) (taken-IsInStep c rest e)
    ]
