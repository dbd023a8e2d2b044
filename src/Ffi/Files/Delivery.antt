-- ===== src/Ffi/Files/Delivery.antt =====
-- ffi.rs: what the C side can read from a batch of file results.
use research_ssh_next.Prelude.{
  ℕ, suc, ◌+◌, true, List, [], ◌∷◌, ◌++◌, length, get_elem?, map_all, map_all_cons, Option, some,
  map, ◌≡◌, refl, ap, arith, take, take-length,
}
use mathlib.Core.Option
use research_ssh_next.Fs.{FileKind, FileEntry, FilePayload, FileResult}
use research_ssh_next.Ffi.Backing.{
  Backing, no_backing, push_bytes, push_string, to_cstring, Extends, Extends-refl,
  bytes_at-push_bytes, string_at-push_string,
}
use research_ssh_next.Ffi.Events.{Emitter, call_back}
use research_ssh_next.Ffi.Files.{
  RsFileKind, RsFileEntry, RsFsResultKind, RsFsResult, push_payload, push_results, c_result,
  c_results_from, c_results, blank, map_kind, emit_file_results,
}
use research_ssh_next.Ffi.Files.Slots.{
  direct_entry, entries_of, first_result-Extends, map_all-push_results,
}

kind_of : RsFileKind → FileKind
kind_of RsFileKind.file = FileKind.file
kind_of RsFileKind.directory = FileKind.directory
kind_of RsFileKind.symlink = FileKind.symlink
kind_of RsFileKind.other = FileKind.other

abbrev read_entry : RsFileEntry → FileEntry
unfolding kind_of
read_entry e = record {
  name = e.name;
  path = e.path;
  kind = kind_of e.kind;
  size = e.size;
  modified_unix = e.modified_unix;
  mode = e.mode;
  editable_text = e.editable_text;
}

-- What a reader that follows the header makes of a record: the kind says which fields count.
unfoldable pub read_payload : RsFsResult → Option FilePayload
unfolding read_entry
read_payload r = elim r.kind [
  | RsFsResultKind.listing ↦
      Option.map (λ es. FilePayload.listing (map read_entry (take r.entry_count es))) r.entries
  | RsFsResultKind.content ↦ Option.map (λ b. FilePayload.content (take r.data_len b)) r.data_ptr
  | RsFsResultKind.ok ↦ some FilePayload.ok
  | RsFsResultKind.error ↦ Option.map (FilePayload.error r.error_code) r.message
]

unfoldable pub read_result : RsFsResult → Option FileResult
unfolding read_payload
read_result r = Option.map (λ p. record { request_id = r.request_id; payload = p }) (read_payload r)

abbrev sanitized_entry : FileEntry → FileEntry
sanitized_entry e = record e { name = to_cstring e.name; path = to_cstring e.path }

abbrev sanitized_payload : FilePayload → FilePayload
sanitized_payload (FilePayload.listing es) = FilePayload.listing (map sanitized_entry es)
sanitized_payload (FilePayload.content b) = FilePayload.content b
sanitized_payload FilePayload.ok = FilePayload.ok
sanitized_payload (FilePayload.error code m) = FilePayload.error code (to_cstring m)

-- The result with the NULs of its names, paths and message replaced.
unfoldable pub sanitized : FileResult → FileResult
unfolding to_cstring
sanitized r = record r { payload = sanitized_payload r.payload }

abbrev direct_payload : ℕ → FilePayload → RsFsResult
direct_payload id (FilePayload.listing es) = record (blank id RsFsResultKind.listing) {
  entries = some (map direct_entry es);
  entry_count = length (map direct_entry es);
}
direct_payload id (FilePayload.content b) = record (blank id RsFsResultKind.content) {
  data_ptr = some b;
  data_len = length b;
}
direct_payload id FilePayload.ok = blank id RsFsResultKind.ok
direct_payload id (FilePayload.error code m) = record (blank id RsFsResultKind.error) {
  error_code = code;
  message = some (to_cstring m);
}

-- The record of a result, with no indices.
abbrev pub direct : FileResult → RsFsResult
direct r = direct_payload r.request_id r.payload

c_result-push_payload :
    (id : ℕ) (p : FilePayload) (st st' : Backing) (arrays : List (List RsFileEntry)) (i : ℕ)
    → Extends (push_payload p st).0 st'
    → get_elem? arrays i ≡ some (entries_of p)
    → c_result st' arrays i (id, (push_payload p st).1) ≡ some (direct_payload id p)
unfolding push_payload c_result
c_result-push_payload id (FilePayload.listing es) st st' arrays i x h = rw h refl
c_result-push_payload id (FilePayload.content b) st st' arrays i x h =
    rw (x.keeps_bytes (push_bytes b st).1 b (bytes_at-push_bytes b st)) refl
c_result-push_payload id FilePayload.ok st st' arrays i x h = refl
c_result-push_payload id (FilePayload.error code m) st st' arrays i x h =
    rw (x.keeps_strings (push_string m st).1 (to_cstring m) (string_at-push_string m st)) refl

-- From index `i` on, the arrays are those of the results.
abbrev ArraysFrom : List (List RsFileEntry) → ℕ → List FileResult → Type 0
ArraysFrom arrays i rs =
    (j : ℕ) (es : List RsFileEntry)
    → get_elem? (map (λ r. entries_of r.payload) rs) j ≡ some es
    → get_elem? arrays (j + i) ≡ some es

ArraysFrom-suc :
    (arrays : List (List RsFileEntry)) (i : ℕ) (r : FileResult) (rs : List FileResult)
    → ArraysFrom arrays i (r ∷ rs)
    → ArraysFrom arrays (suc i) rs
ArraysFrom-suc arrays i r rs h j es e =
    let shift : j + suc i ≡ suc j + i = omega arith in rw shift (h (suc j) es e)

c_results_from-direct :
    (rs : List FileResult) (st st' : Backing) (arrays : List (List RsFileEntry)) (i : ℕ)
    → Extends (push_results rs st).0 st'
    → ArraysFrom arrays i rs
    → c_results_from st' arrays i (push_results rs st).1 ≡ some (map direct rs)
unfolding push_results c_results_from Option.bind
c_results_from-direct [] st st' arrays i x h = refl
c_results_from-direct (r ∷ rs) st st' arrays i x h =
    let st1 = (push_payload r.payload st).0 in
    let shift : 0 + i ≡ i = omega arith in
    let here : c_result st' arrays i (r.request_id, (push_payload r.payload st).1)
        ≡ some (direct r) =
      c_result-push_payload r.request_id r.payload st st' arrays i
        (first_result-Extends r rs st st' x) (rw shift at (h 0 (entries_of r.payload) refl)) in
    rw (here, c_results_from-direct rs st1 st' arrays (suc i) x (ArraysFrom-suc arrays i r rs h))
      refl

pub c_results_lem : (rs : List FileResult) → c_results rs ≡ some (map direct rs)
unfolding c_results Option.bind
c_results_lem rs =
    let st = (push_results rs no_backing).0 in
    let arrays = map (λ r. entries_of r.payload) rs in
    let shift : (j : ℕ) → j + 0 ≡ j = λ j. omega arith in
    rw (map_all-push_results rs no_backing st (Extends-refl st))
      (c_results_from-direct rs no_backing st arrays 0 (Extends-refl st) (λ j es e. rw (shift j) e))

kind_of-map_kind : (k : FileKind) → kind_of (map_kind k) ≡ k
unfolding kind_of map_kind
kind_of-map_kind FileKind.file = refl
kind_of-map_kind FileKind.directory = refl
kind_of-map_kind FileKind.symlink = refl
kind_of-map_kind FileKind.other = refl

read_entries : (es : List FileEntry) → map read_entry (map direct_entry es) ≡ map sanitized_entry es
unfolding read_entry
read_entries [] = refl
read_entries (e ∷ es) =
    let here : read_entry (direct_entry e) ≡ sanitized_entry e =
      ap (λ k. record (sanitized_entry e) { kind = k }) (kind_of-map_kind e.kind) in
    λ i. here i ∷ read_entries es i

read_payload-direct_payload :
    (id : ℕ) (p : FilePayload) → read_payload (direct_payload id p) ≡ some (sanitized_payload p)
unfolding read_payload
read_payload-direct_payload id (FilePayload.listing es) =
    rw (take-length (map direct_entry es), read_entries es) refl
read_payload-direct_payload id (FilePayload.content b) = rw (take-length b) refl
read_payload-direct_payload id FilePayload.ok = refl
read_payload-direct_payload id (FilePayload.error code m) = refl

direct-request_id : (id : ℕ) (p : FilePayload) → (direct_payload id p).request_id ≡ id
direct-request_id id (FilePayload.listing es) = refl
direct-request_id id (FilePayload.content b) = refl
direct-request_id id FilePayload.ok = refl
direct-request_id id (FilePayload.error code m) = refl

read_result-direct : (r : FileResult) → read_result (direct r) ≡ some (sanitized r)
unfolding read_result sanitized
read_result-direct r =
    rw
      (read_payload-direct_payload r.request_id r.payload, direct-request_id r.request_id r.payload)
      refl

map_all-direct :
    (rs : List FileResult) → map_all read_result (map direct rs) ≡ some (map sanitized rs)
map_all-direct [] = refl
map_all-direct (r ∷ rs) =
    map_all_cons read_result (direct r) (map direct rs) (read_result-direct r) (map_all-direct rs)

-- A batch that is not empty reaches an active callback as one call, and a reader of its records
-- finds the results in order, under their ids, with the NULs of names, paths and messages replaced.
pub emit_file_results-read_result :
    (r : FileResult) (rs : List FileResult) (em : Emitter RsFsResult)
    → em.active ≡ true
    → (out : List RsFsResult) × (emit_file_results (r ∷ rs) em
        ≡ some (record em { calls = em.calls ++ out ∷ [] }))
      × (map_all read_result out ≡ some (map sanitized (r ∷ rs)))
unfolding emit_file_results call_back
emit_file_results-read_result r rs em h =
    (map direct (r ∷ rs), rw (c_results_lem (r ∷ rs), h) refl, map_all-direct (r ∷ rs))
