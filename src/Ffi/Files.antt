-- ===== src/Ffi/Files.antt =====
-- ffi.rs: `FfiFileEmitter`, which hands file results to the C callback.
pub mod Slots
pub mod Delivery
use research_ssh_next.Prelude.{
  ℕ, zero, suc, Text, Bytes, Bool, List, [], ◌∷◌, length, get_elem?, map_all, Option, none, some,
}
use mathlib.Core.Option
use research_ssh_next.Core.{RsErrorCode}
use research_ssh_next.Fs.{FileKind, Modified, FileEntry, FilePayload, FileResult}
use research_ssh_next.Ffi.Backing.{
  Backing, no_backing, push_bytes, push_string, bytes_at, string_at,
}
use research_ssh_next.Ffi.Events.{Emitter, call_back}

pub data RsFileKind : Type 0 where
  file directory symlink other : RsFileKind

unfoldable pub map_kind : FileKind → RsFileKind
map_kind FileKind.file = RsFileKind.file
map_kind FileKind.directory = RsFileKind.directory
map_kind FileKind.symlink = RsFileKind.symlink
map_kind FileKind.other = RsFileKind.other

-- `RsFileEntry`; its two pointers are never null.
pub record RsFileEntry : Type 0 where
  pub name : Text
  pub path : Text
  pub kind : RsFileKind
  pub size : ℕ
  pub modified_unix : Modified
  pub mode : ℕ
  pub editable_text : Bool

pub data RsFsResultKind : Type 0 where
  listing content ok error : RsFsResultKind

-- `RsFsResult`, with pointers as in `RsEvent`.
pub record RsFsResult : Type 0 where
  pub request_id : ℕ
  pub kind : RsFsResultKind
  pub entries : Option (List RsFileEntry)
  pub entry_count : ℕ
  pub data_ptr : Option Bytes
  pub data_len : ℕ
  pub error_code : RsErrorCode
  pub message : Option Text

pub record EntryIdx : Type 0 where
  pub name : ℕ
  pub path : ℕ
  pub kind : RsFileKind
  pub size : ℕ
  pub modified_unix : Modified
  pub mode : ℕ
  pub editable_text : Bool

-- `enum Rec`
pub data Slot : Type 0 where
  listing : List EntryIdx → Slot
  content : ℕ → Slot
  ok : Slot
  error : RsErrorCode → ℕ → Slot

unfoldable pub push_entry : FileEntry → Backing → Backing × EntryIdx
unfolding push_string map_kind
push_entry e st =
    let (st1, name) = push_string e.name st in
    let (st2, path) = push_string e.path st1 in
    (
      st2,
      record {
        name = name;
        path = path;
        kind = map_kind e.kind;
        size = e.size;
        modified_unix = e.modified_unix;
        mode = e.mode;
        editable_text = e.editable_text;
      },
    )

unfoldable pub push_entries : List FileEntry → Backing → Backing × List EntryIdx
unfolding push_entry
push_entries [] st = (st, [])
push_entries (e ∷ es) st =
    let (st1, idx) = push_entry e st in let (st2, idxs) = push_entries es st1 in (st2, idx ∷ idxs)

unfoldable pub push_payload : FilePayload → Backing → Backing × Slot
unfolding push_bytes push_string push_entries
push_payload (FilePayload.listing entries) st =
    let (st', idxs) = push_entries entries st in (st', Slot.listing idxs)
push_payload (FilePayload.content bytes) st =
    let (st', i) = push_bytes bytes st in (st', Slot.content i)
push_payload FilePayload.ok st = (st, Slot.ok)
push_payload (FilePayload.error code message) st =
    let (st', i) = push_string message st in (st', Slot.error code i)

-- The first loop.
unfoldable pub push_results : List FileResult → Backing → Backing × List (ℕ × Slot)
unfolding push_payload
push_results [] st = (st, [])
push_results (r ∷ rs) st =
    let (st1, slot) = push_payload r.payload st in
    let (st2, slots) = push_results rs st1 in (st2, (r.request_id, slot) ∷ slots)

unfoldable pub c_entry : Backing → EntryIdx → Option RsFileEntry
c_entry st e = Option.bind (string_at st e.name) (λ name. Option.bind (string_at st e.path) (λ path.
    some record {
      name = name;
      path = path;
      kind = e.kind;
      size = e.size;
      modified_unix = e.modified_unix;
      mode = e.mode;
      editable_text = e.editable_text;
    }))

-- The second loop: one array for each result, empty where it is no listing.
unfoldable pub entry_array : Backing → ℕ × Slot → Option (List RsFileEntry)
unfolding c_entry
entry_array st (id, Slot.listing idxs) = map_all (c_entry st) idxs
entry_array st (id, Slot.content i) = some []
entry_array st (id, Slot.ok) = some []
entry_array st (id, Slot.error code i) = some []

abbrev pub blank : ℕ → RsFsResultKind → RsFsResult
blank id kind = record {
  request_id = id;
  kind = kind;
  entries = none;
  entry_count = 0;
  data_ptr = none;
  data_len = 0;
  error_code = RsErrorCode.ok;
  message = none;
}

-- The third loop, at the result with index `i`.
unfoldable pub c_result : Backing → List (List RsFileEntry) → ℕ → ℕ × Slot → Option RsFsResult
c_result st arrays i (id, Slot.listing idxs) =
    Option.map
      (λ es. record (blank id RsFsResultKind.listing) {
        entries = some es;
        entry_count = length es;
      })
      (get_elem? arrays i)
c_result st arrays i (id, Slot.content j) =
    Option.map
      (λ b. record (blank id RsFsResultKind.content) { data_ptr = some b; data_len = length b })
      (bytes_at st j)
c_result st arrays i (id, Slot.ok) = some (blank id RsFsResultKind.ok)
c_result st arrays i (id, Slot.error code j) =
    Option.map (λ s. record (blank id RsFsResultKind.error) { error_code = code; message = some s })
      (string_at st j)

unfoldable pub c_results_from :
    Backing → List (List RsFileEntry) → ℕ → List (ℕ × Slot) → Option (List RsFsResult)
unfolding c_result
c_results_from st arrays i [] = some []
c_results_from st arrays i (slot ∷ slots) =
    Option.bind (c_result st arrays i slot)
      (λ r. Option.map (λ rs. r ∷ rs) (c_results_from st arrays (suc i) slots))

unfoldable pub c_results : List FileResult → Option (List RsFsResult)
unfolding push_results entry_array c_results_from
c_results results =
    let (st, slots) = push_results results no_backing in
    Option.bind (map_all (entry_array st) slots) (λ arrays. c_results_from st arrays 0 slots)

unfoldable pub emit_file_results :
    List FileResult → Emitter RsFsResult → Option (Emitter RsFsResult)
unfolding c_results call_back
emit_file_results [] em = some em
emit_file_results (r ∷ rs) em = Option.map (λ out. call_back out em) (c_results (r ∷ rs))
