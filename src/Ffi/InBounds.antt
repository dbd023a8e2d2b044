-- ===== src/Ffi/InBounds.antt =====
-- ffi.rs: what a callback may read. The lengths of the records that it gets beside their pointers.
use research_ssh_next.Prelude.{
  ℕ, Text, true, false, ◌≡◌, refl, List, [], ◌∷◌, ◌++◌, map, length, All, All-append, Option, none,
  some, contains_char, arith,
}
use research_ssh_next.Event.{SessionEvent, ExecPayload, ExecResult}
use research_ssh_next.Fs.{FileEntry, FilePayload, FileResult}
use research_ssh_next.Ffi.Backing.{to_cstring}
use research_ssh_next.Ffi.Events.{RsEvent, Emitter, new_emitter, emit_batch, call_back}
use research_ssh_next.Ffi.Events.Delivery as Events
use research_ssh_next.Ffi.Files.{RsFileEntry, RsFsResult, emit_file_results}
use research_ssh_next.Ffi.Files.Slots.{direct_entry}
use research_ssh_next.Ffi.Files.Delivery as Files
use research_ssh_next.Ffi.Tasks.{RsExecResult, emit_task_results}
use research_ssh_next.Ffi.Tasks.Delivery as Tasks

-- A pointer leads to as many elements as the length beside it says, and a null pointer to none.
abbrev pub Spans : {A : Type 0} → Option (List A) → ℕ → Type 0
Spans none n = n ≡ 0
Spans (some xs) n = n ≡ length xs

-- A C string ends at its own NUL: it holds no other.
abbrev pub IsCString : Option Text → Type 0
IsCString none = Unit {0}
IsCString (some s) = contains_char 0 s ≡ false

abbrev pub IsEntry : RsFileEntry → Type 0
IsEntry e = IsCString (some e.name) × IsCString (some e.path)

abbrev pub AreEntries : Option (List RsFileEntry) → Type 0
AreEntries none = Unit {0}
AreEntries (some es) = All IsEntry es

abbrev pub EventInBounds : RsEvent → Type 0
EventInBounds r = Spans r.data_ptr r.data_len × IsCString r.message

abbrev pub FileInBounds : RsFsResult → Type 0
FileInBounds r =
    Spans r.data_ptr r.data_len
    × Spans r.entries r.entry_count
    × AreEntries r.entries
    × IsCString r.message

abbrev pub TaskInBounds : RsExecResult → Type 0
TaskInBounds r =
    Spans r.stdout_ptr r.stdout_len × Spans r.stderr_ptr r.stderr_len × IsCString r.message

to_cstring-IsCString : (s : Text) → IsCString (some (to_cstring s))
unfolding to_cstring contains_char
to_cstring-IsCString [] = refl
to_cstring-IsCString (c ∷ s) = ground (arith, to_cstring-IsCString s)

event-InBounds : (e : SessionEvent) → EventInBounds (Events.direct e)
event-InBounds (SessionEvent.state_changed s) = (refl, tt)
event-InBounds (SessionEvent.terminal_data b) = (refl, tt)
event-InBounds (SessionEvent.error code m) = (refl, to_cstring-IsCString m)
event-InBounds (SessionEvent.host_key_prompt f) = (refl, to_cstring-IsCString f)

entries-AreEntries : (es : List FileEntry) → All IsEntry (map direct_entry es)
entries-AreEntries [] = tt
entries-AreEntries (e ∷ es) =
    ((to_cstring-IsCString e.name, to_cstring-IsCString e.path), entries-AreEntries es)

file-InBounds :
    (id : ℕ) (p : FilePayload)
    → FileInBounds (Files.direct (record { request_id = id; payload = p }))
file-InBounds id (FilePayload.listing es) = (refl, refl, entries-AreEntries es, tt)
file-InBounds id (FilePayload.content b) = (refl, refl, tt, tt)
file-InBounds id FilePayload.ok = (refl, refl, tt, tt)
file-InBounds id (FilePayload.error code m) = (refl, refl, tt, to_cstring-IsCString m)

task-InBounds :
    (id : ℕ) (p : ExecPayload)
    → TaskInBounds (Tasks.direct (record { request_id = id; payload = p }))
task-InBounds id (ExecPayload.output out) = (refl, refl, tt)
task-InBounds id (ExecPayload.error code m) = (refl, refl, to_cstring-IsCString m)

All-map :
    {A B : Type 0} (P : B → Type 0) (f : A → B)
    → ((a : A) → P (f a))
    → (xs : List A) → All P (map f xs)
All-map P f h [] = tt
All-map P f h (x ∷ xs) = (h x, All-map P f h xs)

-- An emitter that is called with batch after batch.
unfoldable pub emit_each :
    {E R : Type 0}
    → (List R → Emitter E → Option (Emitter E))
    → List (List R)
    → Emitter E
    → Option (Emitter E)
emit_each emit [] em = some em
emit_each emit (batch ∷ batches) em = elim (emit batch em) [
  | none ↦ none
  | some em' ↦ emit_each emit batches em'
]

module _ {E R : Type 0} (emit : List R → Emitter E → Option (Emitter E))
    (InBounds : E → Type 0) where
  -- The emitter after some batches, active, with all records in bounds.
  abbrev Safe : Emitter E → Type 0
  Safe em = (em.active ≡ true) × All (All InBounds) em.calls

  each-Safe :
      ((batch : List R) (em : Emitter E)
        → Safe em
        → (em' : Emitter E) × (emit batch em ≡ some em') × Safe em')
      → (batches : List (List R)) (em : Emitter E) → Safe em
      → (em' : Emitter E) × (emit_each emit batches em ≡ some em') × Safe em'
  unfolding emit_each
  each-Safe keeps [] em safe = (em, refl, safe)
  each-Safe keeps (batch ∷ batches) em safe =
      let (em1, e, safe1) = keeps batch em safe in
      let (em2, f, safe2) = each-Safe keeps batches em1 safe1 in (em2, rw (e, emit_each) f, safe2)

  called-Safe :
      (em : Emitter E) (out : List E)
      → Safe em
      → All InBounds out
      → Safe (record em { calls = em.calls ++ out ∷ [] })
  called-Safe em out (h, all) new = (h, All-append (All InBounds) em.calls (out ∷ []) all (new, tt))

events-Safe :
    (batch : List SessionEvent) (em : Emitter RsEvent)
    → Safe emit_batch EventInBounds em
    → (em' : Emitter RsEvent) × (emit_batch batch em ≡ some em') × Safe emit_batch EventInBounds em'
unfolding emit_batch call_back
events-Safe [] em safe = (em, refl, safe)
events-Safe (e ∷ es) em safe =
    let out = map Events.direct (e ∷ es) in
    (
      record em { calls = em.calls ++ out ∷ [] },
      rw (Events.c_events_lem (e ∷ es), safe.0) refl,
      called-Safe emit_batch EventInBounds em out safe
          (All-map EventInBounds Events.direct event-InBounds (e ∷ es)),
    )

files-Safe :
    (batch : List FileResult) (em : Emitter RsFsResult)
    → Safe emit_file_results FileInBounds em
    → (em' : Emitter RsFsResult) × (emit_file_results batch em ≡ some em')
      × Safe emit_file_results FileInBounds em'
unfolding emit_file_results call_back
files-Safe [] em safe = (em, refl, safe)
files-Safe (r ∷ rs) em safe =
    let out = map Files.direct (r ∷ rs) in
    (
      record em { calls = em.calls ++ out ∷ [] },
      rw (Files.c_results_lem (r ∷ rs), safe.0) refl,
      called-Safe emit_file_results FileInBounds em out safe
          (All-map FileInBounds Files.direct (λ x. file-InBounds x.request_id x.payload) (r ∷ rs)),
    )

tasks-Safe :
    (batch : List ExecResult) (em : Emitter RsExecResult)
    → Safe emit_task_results TaskInBounds em
    → (em' : Emitter RsExecResult) × (emit_task_results batch em ≡ some em')
      × Safe emit_task_results TaskInBounds em'
unfolding emit_task_results call_back
tasks-Safe [] em safe = (em, refl, safe)
tasks-Safe (r ∷ rs) em safe =
    let out = map Tasks.direct (r ∷ rs) in
    (
      record em { calls = em.calls ++ out ∷ [] },
      rw (Tasks.c_results_lem (r ∷ rs), safe.0) refl,
      called-Safe emit_task_results TaskInBounds em out safe
          (All-map TaskInBounds Tasks.direct (λ x. task-InBounds x.request_id x.payload) (r ∷ rs)),
    )

-- Whatever batches of events, file results and command results are emitted, no index into the owned
-- buffers is out of range, and in every record that a callback has ever got each pointer leads to as
-- many elements as the length beside it says, a null pointer has length 0, and each string, those of
-- the directory entries included, holds no NUL.
pub emit_each-InBounds :
    (events : List (List SessionEvent)) (files : List (List FileResult))
    (tasks : List (List ExecResult))
    → ((em : Emitter RsEvent) × (emit_each emit_batch events new_emitter ≡ some em)
        × All (All EventInBounds) em.calls)
      × ((em : Emitter RsFsResult) × (emit_each emit_file_results files new_emitter ≡ some em)
          × All (All FileInBounds) em.calls)
      × ((em : Emitter RsExecResult) × (emit_each emit_task_results tasks new_emitter ≡ some em)
          × All (All TaskInBounds) em.calls)
emit_each-InBounds events files tasks =
    let (a, ea, sa) =
      each-Safe emit_batch EventInBounds events-Safe events new_emitter (refl, tt) in
    let (b, eb, sb) =
      each-Safe emit_file_results FileInBounds files-Safe files new_emitter (refl, tt) in
    let (c, ec, sc) =
      each-Safe emit_task_results TaskInBounds tasks-Safe tasks new_emitter (refl, tt) in
    ((a, ea, sa.1), (b, eb, sb.1), (c, ec, sc.1))
