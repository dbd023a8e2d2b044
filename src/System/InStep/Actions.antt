-- ===== src/System/InStep/Actions.antt =====
-- Each action keeps the handle and the driver in step.
use research_ssh_next.Prelude.{
  append-nil, append_assoc, ℕ, suc, ◌+◌, ◌^◌, ◌≤◌, ◌<◌, Bytes, Text, true, ◌≡◌, refl, sym, ap, ◌∙◌,
  ◌⊎◌, inl, inr, List, [], ◌∷◌, ◌++◌, length-append, All-append, Option, some, arith,
}
use research_ssh_next.Core.{RsErrorCode}
use research_ssh_next.Fs.{FileProvider}
use research_ssh_next.Provider.{SshProvider}
use research_ssh_next.Session.Driver.{Command}
use research_ssh_next.Session.Handle.{Session, Request, send_cmd}
use research_ssh_next.Session.Handle.Ids.{ids_after, command_of}
use research_ssh_next.Ffi.Calls.{Checked, good, bad, with_session}
use research_ssh_next.Ffi.Calls.Requests.{Call, perform_lem}
use research_ssh_next.System.{System, Action, leave, act}
use research_ssh_next.System.InStep.{IsInStep}
use research_ssh_next.System.Ledger.{
  ids_by, request_ids_of, IsOrdinary, accepted, ids_by-append, ids_after_next, accepted_next,
  accepted-append,
}

abbrev pub sends : Command → Session → Session
sends c s = record s { sent = s.sent ++ c ∷ [] }

-- A call that returns a code sends a command or leaves the session.
abbrev pub Calls : (RsErrorCode × Option Session) → Session → Type 0
Calls r s =
    (r.1 ≡ some s)
    ⊎ ((c : Command) × (request_ids_of c ≡ []) × IsOrdinary c × (r.1 ≡ some (sends c s)))

module _ {P S : Type 0} where
  -- Room for more, and a call that reports a failure.
  pub more :
      {w m w' m' : ℕ} (returned : List ℕ) (sys : System P S)
      → accepted returned ≡ accepted sys.returned
      → w ≤ w'
      → m ≤ m'
      → IsInStep w m sys
      → IsInStep w' m' (record sys { returned = returned })
  more returned sys same le_w le_m i = record {
    served = i.served;
    waiting = i.waiting;
    whole = i.whole;
    place = i.place;
    few = omega (arith, i.few);
    ordinary = i.ordinary;
    receives = i.receives;
    runs = i.runs;
    has_files = i.has_files;
    has_tasks = i.has_tasks;
    files = i.files;
    tasks = i.tasks;
    given = same ∙ i.given;
    numbered = same ∙ i.numbered;
    counted = omega (arith, i.counted);
  }

  -- A command joins the channel, with what the calls for ids have returned by then.
  joins :
      {w m : ℕ} (c : Command) (next : ℕ) (returned : List ℕ) (sys : System P S)
      → IsOrdinary c
      → accepted returned ≡ accepted sys.returned ++ request_ids_of c
      → accepted returned ≡ ids_after 0 next
      → next ≤ suc m
      → IsInStep w m sys
      → IsInStep (suc w) (suc m) (record sys {
        session = record sys.session { sent = sys.session.sent ++ c ∷ []; next_request_id = next };
        returned = returned;
      })
  joins c next returned sys ok new numbered counted i = record {
    served = i.served;
    waiting = i.waiting ++ c ∷ [];
    whole = ap (λ cs. cs ++ c ∷ []) i.whole ∙ append_assoc i.served i.waiting (c ∷ []);
    place = i.place;
    few = omega (arith, i.few, length-append i.waiting (c ∷ []));
    ordinary = All-append IsOrdinary i.waiting (c ∷ []) i.ordinary (ok, tt);
    receives = i.receives;
    runs = i.runs;
    has_files = i.has_files;
    has_tasks = i.has_tasks;
    files = i.files;
    tasks = i.tasks;
    given =
        new
        ∙ (ap (λ ids. ids ++ request_ids_of c) i.given
            ∙ sym (
                ids_by-append request_ids_of sys.session.sent (c ∷ [])
                ∙ ap (λ ids. ids_by request_ids_of sys.session.sent ++ ids)
                    (append-nil (request_ids_of c))));
    numbered = numbered;
    counted = counted;
  }

  pub calls-IsInStep :
      {w m : ℕ} (r : RsErrorCode × Option Session) (sys : System P S)
      → Calls r sys.session
      → IsInStep w m sys
      → IsInStep (suc w) (suc m) (leave r.1 sys)
  calls-IsInStep r sys (inl e) i = rw e (more sys.returned sys refl (omega arith) (omega arith) i)
  calls-IsInStep r sys (inr (c, plain, ok, e)) i = rw e (
      joins c sys.session.next_request_id sys.returned sys ok
        (sym (rw plain (append-nil (accepted sys.returned)))) i.numbered (omega (arith, i.counted))
        i)

pub with_session-Calls :
    (c : Command) (s : Session)
    → s.receiving ≡ true
    → request_ids_of c ≡ []
    → IsOrdinary c
    → Calls (with_session (some s) (send_cmd c)) s
unfolding with_session send_cmd
with_session-Calls c s h plain ok = inr (c, plain, ok, rw h refl)

pub send-Calls :
    (make : Bytes → Command) (buffer : Checked Bytes) (s : Session)
    → s.receiving ≡ true
    → ((bytes : Bytes) → request_ids_of (make bytes) ≡ [])
    → ((bytes : Bytes) → IsOrdinary (make bytes))
    → Calls
        (elim buffer [
          | bad code ↦ (code, some s)
          | good bytes ↦ with_session (some s) (send_cmd (make bytes))
        ])
        s
send-Calls make (bad code) s h plain ok = inl refl
send-Calls make (good bytes) s h plain ok =
    with_session-Calls (make bytes) s h (plain bytes) (ok bytes)

pub key-Calls :
    (key : Checked (Option Text)) (phrase : Checked (Option Bytes)) (s : Session)
    → s.receiving ≡ true
    → Calls
        (elim key [
          | bad code ↦ (code, some s)
          | good key_path ↦ elim phrase [
            | bad code ↦ (code, some s)
            | good passphrase ↦
                with_session (some s) (send_cmd (Command.set_private_key key_path passphrase))
          ]
        ])
        s
key-Calls (bad code) phrase s h = inl refl
key-Calls (good k) (bad code) s h = inl refl
key-Calls (good k) (good p) s h = with_session-Calls (Command.set_private_key k p) s h refl tt

command_of-IsOrdinary : (id : ℕ) (q : Request) → IsOrdinary (command_of id q)
command_of-IsOrdinary id (Request.file_op op) = tt
command_of-IsOrdinary id (Request.command_line line t) = tt

request_ids_of-command_of : (id : ℕ) (q : Request) → request_ids_of (command_of id q) ≡ id ∷ []
request_ids_of-command_of id (Request.file_op op) = refl
request_ids_of-command_of id (Request.command_line line t) = refl

module _ {P S : Type 0} (ssh : SshProvider P S) (files : FileProvider S)
    (from_utf8 : Bytes → Option Text) where
  pub request-IsInStep :
      {w m : ℕ} (call : Call) (sys : System P S)
      → suc m < 2 ^ 64
      → IsInStep w m sys
      → IsInStep (suc w) (suc m) (act ssh files from_utf8 (Action.request call) sys)
  unfolding act
  request-IsInStep call sys bound i =
      elim (perform_lem from_utf8 call sys.session i.receives (omega (arith, i.counted))) [
        | inl (m, e) ↦ rw e (
            more (sys.returned ++ 0 ∷ []) sys
              (accepted-append sys.returned (0 ∷ []) ∙ append-nil (accepted sys.returned))
              (omega arith) (omega arith) i)
        | inr (q, m, e) ↦ rw e (
            let id = sys.session.next_request_id + 1 in
            joins (command_of id q) id (sys.returned ++ id ∷ []) sys (command_of-IsOrdinary id q)
              (accepted_next sys.returned sys.session.next_request_id
                ∙ ap (λ ids. accepted sys.returned ++ ids) (sym (request_ids_of-command_of id q)))
              (accepted_next sys.returned sys.session.next_request_id
                ∙ (ap (λ ids. ids ++ id ∷ []) i.numbered
                    ∙ sym (ids_after_next sys.session.next_request_id)))
              (omega (arith, i.counted)) i)
      ]
