-- ===== src/System/Saved.antt =====
-- ffi.rs with session.rs: what the file callback gets where a file is saved and read again.
use research_ssh_next.Prelude.{
  ℕ, Text, Bytes, true, ◌≡◌, refl, sym, ap, ◌∙◌, append-nil, append_assoc, List, [], ◌∷◌, ◌++◌, map,
  map_all, map_all_cons, All, Option, some, Option-cases, arith, inl, inr,
}
use mathlib.Core.Path.{subst}
use mathlib.Core.List.{map-append}
use mathlib.Core.Option.{some-injective}
use research_ssh_next.Core.{done}
use research_ssh_next.Fs.{FileResult, FileProvider}
use research_ssh_next.Fs.ReadsBack.{capped, ReadsBack}
use research_ssh_next.Provider.{SshProvider}
use research_ssh_next.Session.Driver.{Driver, Input}
use research_ssh_next.Session.Handlers.{run}
use research_ssh_next.Session.Saved.{IsTerminal, Serves}
use research_ssh_next.Session.Saved.Loaded.{saved_results, save_and_read, save_and_read-Serves}
use research_ssh_next.Ffi.Events.{Emitter, new_emitter}
use research_ssh_next.Ffi.Files.{RsFsResult, emit_file_results}
use research_ssh_next.Ffi.Files.Delivery.{read_result, sanitized, emit_file_results-read_result}
use research_ssh_next.System.{hand_over}
use research_ssh_next.System.Delivered.{flatten, flatten-snoc}

map_all-append {ℓ κ} :
    {A : Type ℓ} {B : Type κ} (f : A → Option B) (xs ys : List A) (us vs : List B)
    → map_all f xs ≡ some us
    → map_all f ys ≡ some vs
    → map_all f (xs ++ ys) ≡ some (us ++ vs)
map_all-append f [] ys us vs h k =
    subst (λ ws. map_all f ys ≡ some (ws ++ vs)) (some-injective _ _ h) k
map_all-append f (x ∷ xs) ys us vs h k = elim (Option-cases (f x)) [
  | inl e ↦ ground (arith, h, e)
  | inr (b, e) ↦ elim (Option-cases (map_all f xs)) [
    | inl e' ↦ ground (arith, h, e, e')
    | inr (bs, e') ↦
        subst (λ ws. map_all f (x ∷ (xs ++ ys)) ≡ some (ws ++ vs))
          (some-injective _ _ (sym (map_all_cons f x xs e e') ∙ h))
          (map_all_cons f x (xs ++ ys) e (map_all-append f xs ys bs vs e' k))
  ]
]

-- Each result is read back from the records, in order.
handed_over :
    (rs : List FileResult) (em : Emitter RsFsResult) (before : List FileResult)
    → em.active ≡ true
    → map_all read_result (flatten em.calls) ≡ some before
    → (em' : Emitter RsFsResult) × (hand_over emit_file_results rs em ≡ some em')
      × (map_all read_result (flatten em'.calls) ≡ some (before ++ map sanitized rs))
unfolding hand_over
handed_over [] em before h k = (em, refl, k ∙ ap some (sym (append-nil before)))
handed_over (r ∷ rs) em before h k =
    let (out, e, reads) = emit_file_results-read_result r [] em h in
    let next = record em { calls = em.calls ++ out ∷ [] } in
    let (em', f, all) = handed_over rs next (before ++ sanitized r ∷ []) h (
      ap (map_all read_result) (flatten-snoc em.calls out)
      ∙ map_all-append read_result (flatten em.calls) out before (sanitized r ∷ []) k reads) in
    (
      em',
      rw (hand_over, e) f,
      all ∙ ap some (append_assoc before (sanitized r ∷ []) (map sanitized rs)),
    )

-- Over any file backend that reads back what it wrote: where a save succeeds and the file is read
-- again, with anything typed, run or received between the two, the records that the file callback
-- has got say, after those of before, that the save went well and what was saved, up to the cap.
pub save_and_read-callback :
    {P S : Type 0} (ssh : SshProvider P S) (files : FileProvider S)
    → ReadsBack files
    → {s : S} {results : List FileResult} (i j : ℕ) (path : Text) (bytes : Bytes) (max_len : ℕ)
      (is : List Input) (d : Driver P S) (s' : S)
    → Serves s results d
    → files.write_file path bytes s ≡ (done tt, s')
    → All IsTerminal is
    → (em : Emitter RsFsResult) × (hand_over emit_file_results
          (run ssh files (save_and_read i j path bytes max_len is) d).file_results
          new_emitter
        ≡ some em)
      × (map_all read_result (flatten em.calls)
          ≡ some (map sanitized results ++ saved_results i j (capped max_len bytes)))
unfolding sanitized
save_and_read-callback ssh files laws {results = results} i j path bytes max_len is d s' v wrote
      ok =
    let (t, after) =
      save_and_read-Serves ssh files laws i j path bytes max_len is d s' v wrote ok in
    let end = run ssh files (save_and_read i j path bytes max_len is) d in
    let saved = saved_results i j (capped max_len bytes) in
    let (em, e, reads) = handed_over end.file_results new_emitter [] refl refl in
    (em, e, reads ∙ ap some (ap (map sanitized) after.so_far ∙ map-append sanitized results saved))
