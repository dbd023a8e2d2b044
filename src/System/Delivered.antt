-- ===== src/System/Delivered.antt =====
-- The records that the callbacks get for the driver's results, each result in a call of its own.
use research_ssh_next.Prelude.{
  append-nil, append_assoc, ℕ, true, ◌≡◌, refl, sym, ap, ◌∙◌, List, [], ◌∷◌, ◌++◌, map, Option,
  some,
}
use mathlib.Core.List.{map-append}
use research_ssh_next.Event.{ExecPayload, ExecResult}
use research_ssh_next.Fs.{FilePayload, FileResult}
use research_ssh_next.Ffi.Events.{Emitter, call_back}
use research_ssh_next.Ffi.Files.{RsFsResult, emit_file_results}
use research_ssh_next.Ffi.Files.Delivery
use research_ssh_next.Ffi.Tasks.{RsExecResult, emit_task_results}
use research_ssh_next.Ffi.Tasks.Delivery as Tasks
use research_ssh_next.System.{hand_over}

-- All the records of a callback's calls, in order.
abbrev pub flatten : {E : Type 0} → List (List E) → List E
flatten [] = []
flatten (xs ∷ xss) = xs ++ flatten xss

pub flatten-snoc :
    {E : Type 0} (xss : List (List E)) (xs : List E) → flatten (xss ++ xs ∷ []) ≡ flatten xss ++ xs
flatten-snoc [] xs = append-nil xs
flatten-snoc (ys ∷ xss) xs =
    ap (λ zs. ys ++ zs) (flatten-snoc xss xs) ∙ sym (append_assoc ys (flatten xss) xs)

module _ {E R : Type 0} (emit : List R → Emitter E → Option (Emitter E)) (id_of : E → ℕ)
    (id : R → ℕ)
    (emits : (r : R) (em : Emitter E)
      → em.active ≡ true
      → (out : E) × (emit (r ∷ []) em ≡ some (record em { calls = em.calls ++ (out ∷ []) ∷ [] }))
        × (id_of out ≡ id r)) where
  -- The ids of the records, before and after.
  handed :
      (rs : List R) (em : Emitter E)
      → em.active ≡ true
      → (em' : Emitter E) × (hand_over emit rs em ≡ some em')
        × (map id_of (flatten em'.calls) ≡ map id_of (flatten em.calls) ++ map id rs)
  unfolding hand_over
  handed [] em h = (em, refl, sym (append-nil (map id_of (flatten em.calls))))
  handed (r ∷ rs) em h =
      let (out, e, same) = emits r em h in
      let next = record em { calls = em.calls ++ (out ∷ []) ∷ [] } in
      let (em', f, ids) = handed rs next h in
      let start : map id_of (flatten next.calls) ≡ map id_of (flatten em.calls) ++ id r ∷ [] =
        ap (map id_of) (flatten-snoc em.calls (out ∷ []))
        ∙ (map-append id_of (flatten em.calls) (out ∷ [])
            ∙ ap (λ n. map id_of (flatten em.calls) ++ n ∷ []) same) in
      (
        em',
        rw (hand_over, e) f,
        ids
            ∙ (ap (λ ns. ns ++ map id rs) start
                ∙ append_assoc (map id_of (flatten em.calls)) (id r ∷ []) (map id rs)),
      )

abbrev pub file_record_id : RsFsResult → ℕ
file_record_id r = r.request_id

abbrev pub task_record_id : RsExecResult → ℕ
task_record_id r = r.request_id

file_record_id-direct :
    (id : ℕ) (p : FilePayload)
    → file_record_id (Delivery.direct (record { request_id = id; payload = p })) ≡ id
file_record_id-direct id (FilePayload.listing es) = refl
file_record_id-direct id (FilePayload.content b) = refl
file_record_id-direct id FilePayload.ok = refl
file_record_id-direct id (FilePayload.error code m) = refl

emits_file :
    (r : FileResult) (em : Emitter RsFsResult)
    → em.active ≡ true
    → (out : RsFsResult) × (emit_file_results (r ∷ []) em
        ≡ some (record em { calls = em.calls ++ (out ∷ []) ∷ [] }))
      × (file_record_id out ≡ r.request_id)
unfolding emit_file_results call_back
emits_file r em h = (
  Delivery.direct r,
  rw (Delivery.c_results_lem (r ∷ []), h) refl,
  file_record_id-direct r.request_id r.payload,
)

task_record_id-direct :
    (id : ℕ) (p : ExecPayload)
    → task_record_id (Tasks.direct (record { request_id = id; payload = p })) ≡ id
task_record_id-direct id (ExecPayload.output out) = refl
task_record_id-direct id (ExecPayload.error code m) = refl

emits_task :
    (r : ExecResult) (em : Emitter RsExecResult)
    → em.active ≡ true
    → (out : RsExecResult) × (emit_task_results (r ∷ []) em
        ≡ some (record em { calls = em.calls ++ (out ∷ []) ∷ [] }))
      × (task_record_id out ≡ r.request_id)
unfolding emit_task_results call_back
emits_task r em h = (
  Tasks.direct r,
  rw (Tasks.c_results_lem (r ∷ []), h) refl,
  task_record_id-direct r.request_id r.payload,
)

pub handed_files :
    (rs : List FileResult) (em : Emitter RsFsResult)
    → em.active ≡ true
    → (em' : Emitter RsFsResult) × (hand_over emit_file_results rs em ≡ some em')
      × (map file_record_id (flatten em'.calls)
          ≡ map file_record_id (flatten em.calls) ++ map (λ r. r.request_id) rs)
handed_files = handed emit_file_results file_record_id (λ r. r.request_id) emits_file

pub handed_tasks :
    (rs : List ExecResult) (em : Emitter RsExecResult)
    → em.active ≡ true
    → (em' : Emitter RsExecResult) × (hand_over emit_task_results rs em ≡ some em')
      × (map task_record_id (flatten em'.calls)
          ≡ map task_record_id (flatten em.calls) ++ map (λ r. r.request_id) rs)
handed_tasks = handed emit_task_results task_record_id (λ r. r.request_id) emits_task
