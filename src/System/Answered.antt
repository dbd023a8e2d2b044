-- ===== src/System/Answered.antt =====
-- What the C side gets for all that it asks for.
use research_ssh_next.Prelude.{
  append-nil, ℕ, suc, ◌+◌, ◌^◌, ◌≤◌, ◌<◌, Text, Bytes, ◌≡◌, refl, sym, ap, ◌∙◌, List, [], ◌∷◌, ◌++◌,
  map, length, Option, some, arith,
}
use mathlib.Core.Path.{subst}
use research_ssh_next.Fs.{FileProvider}
use research_ssh_next.Provider.{SshProvider}
use research_ssh_next.Session.Driver.{Command, Race, Input, start}
use research_ssh_next.Session.Handle.Ids.{ids_after}
use research_ssh_next.Ffi.Calls.{
  bytes_to_vec, key_path_of, passphrase_of, session_connect, session_disconnect, session_send,
  session_set_password, session_set_private_key,
}
use research_ssh_next.Ffi.Events.{Emitter, new_emitter}
use research_ssh_next.Ffi.Files.{RsFsResult, emit_file_results}
use research_ssh_next.Ffi.Tasks.{RsExecResult, emit_task_results}
use research_ssh_next.System.{System, Action, registered, take_turn, act, play, hand_over}
use research_ssh_next.System.Delivered.{
  flatten, file_record_id, task_record_id, handed_files, handed_tasks,
}
use research_ssh_next.System.InStep.{IsInStep}
use research_ssh_next.System.InStep.Actions.{
  more, calls-IsInStep, with_session-Calls, send-Calls, key-Calls, request-IsInStep,
}
use research_ssh_next.System.InStep.Turns.{silent-IsInStep, turn-IsInStep}
use research_ssh_next.System.Ledger.{file_ids_of, task_ids_of, ids_by, times, accepted, times-ids}

no_more {ℓ} : {A : Type ℓ} (xs : List A) → length xs ≤ 0 → xs ≡ []
no_more [] h = refl
no_more (x ∷ xs) h = absurd (omega arith)

module _ {P S : Type 0} where
  -- What the two callbacks have got: a record for each queued request of their kind, under its id and
  -- in the order of the requests, and so each id that a call returned as often as calls returned it,
  -- where these are the numbers from 1 on.
  abbrev pub IsAnswered : System P S → Type 0
  IsAnswered sys =
      (fe : Emitter RsFsResult) × (te : Emitter RsExecResult) × (hand_over emit_file_results
          sys.driver.file_results new_emitter
        ≡ some fe)
      × (hand_over emit_task_results sys.driver.task_results new_emitter ≡ some te)
      × (map file_record_id (flatten fe.calls) ≡ ids_by file_ids_of sys.session.sent)
      × (map task_record_id (flatten te.calls) ≡ ids_by task_ids_of sys.session.sent)
      × ((n : ℕ)
          → times n (map file_record_id (flatten fe.calls))
              + times n (map task_record_id (flatten te.calls))
            ≡ times n (accepted sys.returned))
      × (accepted sys.returned ≡ ids_after 0 sys.session.next_request_id)

  answered : {m : ℕ} (sys : System P S) → IsInStep 0 m sys → IsAnswered sys
  answered sys i =
      let (fe, fh, fi) = handed_files sys.driver.file_results new_emitter refl in
      let (te, th, ti) = handed_tasks sys.driver.task_results new_emitter refl in
      let all : sys.session.sent ≡ i.served =
        i.whole ∙ (ap (λ cs. i.served ++ cs) (no_more i.waiting i.few) ∙ append-nil i.served) in
      let f = fi ∙ (i.files ∙ ap (ids_by file_ids_of) (sym all)) in
      let t = ti ∙ (i.tasks ∙ ap (ids_by task_ids_of) (sym all)) in
      (
        fe,
        te,
        fh,
        th,
        f,
        t,
        (λ n.
            ap (λ ids. times n ids + times n (map task_record_id (flatten te.calls))) f
            ∙ (ap (λ ids. times n (ids_by file_ids_of sys.session.sent) + times n ids) t
                ∙ (times-ids n sys.session.sent ∙ ap (times n) (sym i.given)))),
        i.numbered,
      )

module _ {P S : Type 0} (ssh : SshProvider P S) (files : FileProvider S)
    (from_utf8 : Bytes → Option Text) where
  act-IsInStep :
      {w m : ℕ} (a : Action) (sys : System P S)
      → suc m < 2 ^ 64
      → IsInStep w m sys
      → IsInStep (suc w) (suc m) (act ssh files from_utf8 a sys)
  unfolding act session_connect session_disconnect session_send session_set_password
      session_set_private_key
  act-IsInStep Action.connect sys h i =
      calls-IsInStep (session_connect (some sys.session)) sys
        (with_session-Calls Command.connect sys.session i.receives refl tt) i
  act-IsInStep Action.disconnect sys h i =
      calls-IsInStep (session_disconnect (some sys.session)) sys
        (with_session-Calls Command.disconnect sys.session i.receives refl tt) i
  act-IsInStep (Action.send buffer len) sys h i =
      calls-IsInStep (session_send buffer len (some sys.session)) sys
        (send-Calls Command.send (bytes_to_vec buffer len) sys.session i.receives (λ b. refl)
          (λ b. tt))
        i
  act-IsInStep (Action.set_password buffer len) sys h i =
      calls-IsInStep (session_set_password buffer len (some sys.session)) sys
        (send-Calls Command.set_secret (bytes_to_vec buffer len) sys.session i.receives (λ b. refl)
          (λ b. tt))
        i
  act-IsInStep (Action.set_private_key path phrase len) sys h i =
      calls-IsInStep (session_set_private_key from_utf8 path phrase len (some sys.session)) sys
        (key-Calls (key_path_of from_utf8 path) (passphrase_of from_utf8 phrase len) sys.session
          i.receives)
        i
  act-IsInStep (Action.request call) sys h i = request-IsInStep ssh files from_utf8 call sys h i
  act-IsInStep {w = w} {m = m} (Action.turn race) sys h i =
      let after = take_turn ssh files from_utf8 race sys in
      let roomy : IsInStep (suc w) m sys =
        more sys.returned sys refl (omega arith) (omega arith) i in
      let done : IsInStep w m after = turn-IsInStep ssh files from_utf8 race sys roomy in
      more after.returned after refl (omega arith) (omega arith) done
  act-IsInStep (Action.pushes ev) sys h i =
      silent-IsInStep ssh files (Input.pushes ev) sys (λ v. refl) i
  act-IsInStep Action.drain sys h i = silent-IsInStep ssh files Input.drain sys (λ v. refl) i

  play-IsInStep :
      (w m : ℕ) (todo : List Action) (sys : System P S)
      → m + length todo < 2 ^ 64
      → IsInStep w m sys
      → IsInStep (w + length todo) (m + length todo) (play ssh files from_utf8 todo sys)
  unfolding play
  play-IsInStep w m [] sys h i = more sys.returned sys refl (omega arith) (omega arith) i
  play-IsInStep w m (a ∷ todo) sys h i =
      let last = play ssh files from_utf8 todo (act ssh files from_utf8 a sys) in
      more last.returned last refl (omega arith) (omega arith) (
        play-IsInStep (suc w) (suc m) todo (act ssh files from_utf8 a sys) (omega arith)
          (act-IsInStep a sys (omega arith) i))

  turns-IsInStep :
      {m : ℕ} (races : List Race) (sys : System P S)
      → IsInStep (length races) m sys
      → IsInStep 0 m (play ssh files from_utf8 (map Action.turn races) sys)
  unfolding play act
  turns-IsInStep [] sys i = i
  turns-IsInStep (race ∷ races) sys i =
      turns-IsInStep races (take_turn ssh files from_utf8 race sys)
        (turn-IsInStep ssh files from_utf8 race sys i)

  play-append :
      (xs ys : List Action) (sys : System P S)
      → play ssh files from_utf8 (xs ++ ys) sys
        ≡ play ssh files from_utf8 ys (play ssh files from_utf8 xs sys)
  unfolding play
  play-append [] ys sys = refl
  play-append (x ∷ xs) ys sys = play-append xs ys (act ssh files from_utf8 x sys)

  registered-IsInStep : (p : P) → IsInStep 0 0 (registered {S = S} p)
  unfolding registered start
  registered-IsInStep p = record {
    served = [];
    waiting = [];
    whole = refl;
    place = refl;
    few = omega arith;
    ordinary = tt;
    receives = refl;
    runs = refl;
    has_files = refl;
    has_tasks = refl;
    files = refl;
    tasks = refl;
    given = refl;
    numbered = refl;
    counted = omega arith;
  }

  -- Of a session with both callbacks registered: whatever the C side calls short of destroying it and
  -- the provider does, in any order, and however the calls of the driver end, once the driver has had
  -- as many turns more as there were actions (fewer than 2^64), each request that got an id has been
  -- answered by exactly one record under its id, in the callback of its kind and in the order of the
  -- requests; nothing else is answered, no id is given twice, and no call panics.
  pub play-IsAnswered :
      (p : P) (todo : List Action) (races : List Race)
      → length todo < 2 ^ 64
      → length todo ≤ length races
      → IsAnswered (play ssh files from_utf8 (todo ++ map Action.turn races) (registered p))
  play-IsAnswered p todo races h k =
      let sys = play ssh files from_utf8 todo (registered p) in
      subst IsAnswered (sym (play-append todo (map Action.turn races) (registered p))) (
        answered {m = length todo} _ (
          turns-IsInStep races sys (
            more sys.returned sys refl (omega arith) (omega arith)
              (play-IsInStep 0 0 todo (registered p) (omega arith) (registered-IsInStep p)))))
