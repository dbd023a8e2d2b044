-- ===== src/Ffi/Files/Slots.antt =====
-- ffi.rs: the indices of a batch of file results name what was pushed for them.
use research_ssh_next.Prelude.{ℕ, List, [], ◌∷◌, map_all, map_all_cons, some, map, ◌≡◌, refl}
use mathlib.Core.Option
use research_ssh_next.Fs.{FileEntry, FilePayload, FileResult}
use research_ssh_next.Ffi.Backing.{
  Backing, push_string, string_at, to_cstring, Extends, Extends-refl, Extends-trans,
  push_bytes-Extends, push_string-Extends, string_at-push_string,
}
use research_ssh_next.Ffi.Files.{
  RsFileEntry, push_entry, push_entries, push_payload, push_results, c_entry, entry_array, map_kind,
}

-- The entry of the array, with no indices.
abbrev pub direct_entry : FileEntry → RsFileEntry
direct_entry e = record {
  name = to_cstring e.name;
  path = to_cstring e.path;
  kind = map_kind e.kind;
  size = e.size;
  modified_unix = e.modified_unix;
  mode = e.mode;
  editable_text = e.editable_text;
}

abbrev pub entries_of : FilePayload → List RsFileEntry
entries_of (FilePayload.listing es) = map direct_entry es
entries_of (FilePayload.content b) = []
entries_of FilePayload.ok = []
entries_of (FilePayload.error code m) = []

push_entry-Extends : (e : FileEntry) (st : Backing) → Extends st (push_entry e st).0
unfolding push_entry
push_entry-Extends e st =
    Extends-trans st (push_string e.name st).0 (push_string e.path (push_string e.name st).0).0
      (push_string-Extends e.name st) (push_string-Extends e.path (push_string e.name st).0)

push_entries-Extends : (es : List FileEntry) (st : Backing) → Extends st (push_entries es st).0
unfolding push_entries
push_entries-Extends [] st = Extends-refl st
push_entries-Extends (e ∷ es) st =
    let st1 = (push_entry e st).0 in
    Extends-trans st st1 (push_entries es st1).0 (push_entry-Extends e st)
      (push_entries-Extends es st1)

push_payload-Extends : (p : FilePayload) (st : Backing) → Extends st (push_payload p st).0
unfolding push_payload
push_payload-Extends (FilePayload.listing es) st = push_entries-Extends es st
push_payload-Extends (FilePayload.content b) st = push_bytes-Extends b st
push_payload-Extends FilePayload.ok st = Extends-refl st
push_payload-Extends (FilePayload.error code m) st = push_string-Extends m st

pub push_results-Extends : (rs : List FileResult) (st : Backing) → Extends st (push_results rs st).0
unfolding push_results
push_results-Extends [] st = Extends-refl st
push_results-Extends (r ∷ rs) st =
    let st1 = (push_payload r.payload st).0 in
    Extends-trans st st1 (push_results rs st1).0 (push_payload-Extends r.payload st)
      (push_results-Extends rs st1)

-- What holds of the backing after the whole batch.
pub first_result-Extends :
    (r : FileResult) (rs : List FileResult) (st st' : Backing)
    → Extends (push_results (r ∷ rs) st).0 st'
    → Extends (push_payload r.payload st).0 st'
unfolding push_results
first_result-Extends r rs st st' x =
    let st1 = (push_payload r.payload st).0 in
    Extends-trans st1 (push_results rs st1).0 st' (push_results-Extends rs st1) x

c_entry-push_entry :
    (e : FileEntry) (st st' : Backing)
    → Extends (push_entry e st).0 st'
    → c_entry st' (push_entry e st).1 ≡ some (direct_entry e)
unfolding push_entry c_entry Option.bind
c_entry-push_entry e st st' x =
    let st1 = (push_string e.name st).0 in
    let name : string_at st' (push_string e.name st).1 ≡ some (to_cstring e.name) =
      x.keeps_strings (push_string e.name st).1 (to_cstring e.name) (
        (push_string-Extends e.path st1).keeps_strings (push_string e.name st).1 (to_cstring e.name)
          (string_at-push_string e.name st)) in
    let path : string_at st' (push_string e.path st1).1 ≡ some (to_cstring e.path) =
      x.keeps_strings (push_string e.path st1).1 (to_cstring e.path)
        (string_at-push_string e.path st1) in
    rw (name, path) refl

map_all-push_entries :
    (es : List FileEntry) (st st' : Backing)
    → Extends (push_entries es st).0 st'
    → map_all (c_entry st') (push_entries es st).1 ≡ some (map direct_entry es)
unfolding push_entries
map_all-push_entries [] st st' x = refl
map_all-push_entries (e ∷ es) st st' x =
    let st1 = (push_entry e st).0 in
    map_all_cons (c_entry st') (push_entry e st).1 (push_entries es st1).1
      (c_entry-push_entry e st st'
        (Extends-trans st1 (push_entries es st1).0 st' (push_entries-Extends es st1) x))
      (map_all-push_entries es st1 st' x)

entry_array-push_payload :
    (id : ℕ) (p : FilePayload) (st st' : Backing)
    → Extends (push_payload p st).0 st'
    → entry_array st' (id, (push_payload p st).1) ≡ some (entries_of p)
unfolding push_payload entry_array
entry_array-push_payload id (FilePayload.listing es) st st' x = map_all-push_entries es st st' x
entry_array-push_payload id (FilePayload.content b) st st' x = refl
entry_array-push_payload id FilePayload.ok st st' x = refl
entry_array-push_payload id (FilePayload.error code m) st st' x = refl

pub map_all-push_results :
    (rs : List FileResult) (st st' : Backing)
    → Extends (push_results rs st).0 st'
    → map_all (entry_array st') (push_results rs st).1 ≡ some (map (λ r. entries_of r.payload) rs)
unfolding push_results
map_all-push_results [] st st' x = refl
map_all-push_results (r ∷ rs) st st' x =
    let st1 = (push_payload r.payload st).0 in
    map_all_cons (entry_array st') (r.request_id, (push_payload r.payload st).1)
      (push_results rs st1).1
      (entry_array-push_payload r.request_id r.payload st st' (first_result-Extends r rs st st' x))
      (map_all-push_results rs st1 st' x)
