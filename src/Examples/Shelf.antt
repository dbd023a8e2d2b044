-- ===== src/Examples/Shelf.antt =====
-- An SFTP server that keeps files, and a session over it that writes and copies.
use research_ssh_next.Prelude.{
  lower, map, Bool, not, Text, Bytes, ◌≡◌, refl, sym, [], ◌∷◌, Option, none, some, codes, text_eq,
  text_eq_iff, trim_end, if◌then◌else◌, take, Dict, lookup, insert, lookup-insert, Bool-cases, inl,
  inr, arith, ap, ◌∙◌,
}
use mathlib.Core.Path.{subst}
use research_ssh_next.Core.{done}
use research_ssh_next.Fs.{FileProvider}
use research_ssh_next.Fs.ReadsBack.{capped, ReadsBack}
use research_ssh_next.Russh.Sftp.{Sftp}
use research_ssh_next.Russh.Sftp.Server.{Reply, answer, refusal, SftpServer}
use research_ssh_next.Russh.Sftp.Ops.{read_file, write_file, copy}
use research_ssh_next.Russh.Sftp.Provider.{sftp_file_provider, sftp_file_provider-ReadsBack}
use research_ssh_next.Russh.Sftp.Remove.Terminates.{IsBounded}
use research_ssh_next.Russh.Sftp.Contents.{KeepsFiles, resolved, Same-refl, SameBut}
use research_ssh_next.Russh.Sftp.Contents.Written.{write_file-read_file, copy-read_file}

abbrev Shelf : Type 0
Shelf = Dict Bytes

abbrev reply_of : {A : Type 0} → Option A → Reply A
reply_of none = refusal (codes "no such file")
reply_of (some a) = answer a

abbrev denied : {A : Type 0} → Shelf → Reply A × Shelf
denied shelf = (refusal (codes "permission denied"), shelf)

-- Paths lead to the same file whatever the case of their letters.
abbrev key : Text → Text
key p = map lower p

-- A handle is the key of the path that was opened, and /locked cannot be created.
abbrev shelf_server : SftpServer Text Shelf
shelf_server = record {
  canonicalize = λ p shelf. (some (codes "/home"), shelf);
  read_dir = λ p. denied;
  metadata = λ p. denied;
  symlink_metadata = λ p. denied;
  open_file = λ p shelf. elim (lookup (key p) shelf) [
    | none ↦ denied shelf
    | some c ↦ (answer (key p), shelf)
  ];
  create = λ p shelf.
      if text_eq (key p) (codes "/locked")
      then denied shelf
      else (answer (key p), insert (key p) [] shelf);
  read_to_end = λ h shelf. (reply_of (lookup h shelf), shelf);
  read_to_end_of_take = λ n h shelf. elim (lookup h shelf) [
    | none ↦ denied shelf
    | some c ↦ (answer (take n c), shelf)
  ];
  write_all = λ h bytes shelf. (answer tt, insert h bytes shelf);
  read = λ p shelf. (reply_of (lookup (key p) shelf), shelf);
  rename = λ p q. denied;
  remove_dir = λ p. denied;
  remove_file = λ p. denied;
  create_dir = λ p. denied;
}

abbrev content : Shelf → Text → Option Bytes
content shelf p = lookup (key p) shelf

abbrev apart : Shelf → Text → Text → Bool
apart shelf q p = not (text_eq (key q) (key p))

abbrev At : Shelf → Text → Text → Type 0
At shelf h p = h ≡ key p

insert-content :
    (p : Text) (bytes : Bytes) (sv : Shelf)
    → (content (insert (key p) bytes sv) p ≡ some bytes)
      × SameBut content apart p sv (insert (key p) bytes sv)
insert-content p bytes sv = (
  ground (arith, lookup-insert (key p) (key p) bytes sv, text_eq_iff (key p) (key p)),
  record {
    kept = λ q ne. (
      ground (
        arith,
        lookup-insert (key p) (key q) bytes sv,
        text_eq_iff (key p) (key q),
        text_eq_iff (key q) (key p),
      ),
      ne,
    );
  },
)

handle_or : Text → Reply Text → Text
handle_or p (answer h) = h
handle_or p (refusal e) = p

creates :
    (p : Text) (sv : Shelf) (h : Text) (sv' : Shelf)
    → shelf_server.create p sv ≡ (answer h, sv')
    → (content sv' p ≡ some []) × At sv' h p × SameBut content apart p sv sv'
unfolding handle_or
creates p sv h sv' e = elim (Bool-cases (text_eq (key p) (codes "/locked"))) [
  | inl locked ↦ ground (arith, e)
  | inr free ↦
      let made : (answer (key p), insert (key p) [] sv) ≡ (answer h, sv') = rw free at e in
      let (empty, others) = insert-content p [] sv in
      subst (λ sv''. (content sv'' p ≡ some []) × At sv'' h p × SameBut content apart p sv sv'')
        (ap (λ (r : Reply Text × Shelf). r.1) made)
        (empty, sym (ap (λ (r : Reply Text × Shelf). handle_or (key p) r.0) made), others)
]

writes :
    (p h : Text) (bytes : Bytes) (sv sv' : Shelf)
    → At sv h p
    → shelf_server.write_all h bytes sv ≡ (answer tt, sv')
    → (content sv' p ≡ some bytes) × SameBut content apart p sv sv'
writes p h bytes sv sv' at e =
    subst (λ sv''. (content sv'' p ≡ some bytes) × SameBut content apart p sv sv'')
      (ap (λ j. insert j bytes sv) (sym at) ∙ ap (λ (r : Reply (Unit {0}) × Shelf). r.1) e)
      (insert-content p bytes sv)

shelf_server-KeepsFiles : KeepsFiles shelf_server content apart At
shelf_server-KeepsFiles = record {
  resolves = λ p sv. Same-refl;
  creates = creates;
  writes = λ p h bytes sv sv' at empty e. writes p h bytes sv sv' at e;
  opens = λ p sv c e. (key p, sv, rw (e, shelf_server) refl, refl, Same-refl);
  reads_all = λ p h sv c at e. (sv, rw (at, e) refl, Same-refl);
  reads_some = λ n p h sv c at e. (sv, rw (at, e, shelf_server) refl, Same-refl);
  reads = λ p sv c e. (sv, rw e refl, Same-refl);
}

abbrev notes : Text
notes = codes "/notes"

-- A file; the home directory is not known yet.
abbrev session : Sftp Shelf
session = record { server = (notes, 1 ∷ 2 ∷ 3 ∷ []) ∷ []; home = none }

abbrev written : Sftp Shelf
unfolding write_file
written = (write_file shelf_server (codes "draft") (7 ∷ 8 ∷ 9 ∷ []) session).1

abbrev copied : Sftp Shelf
unfolding copy
copied = (copy shelf_server (codes "/NOTES") (codes "draft") session).1

write_file-read_file_example :
    (t : Sftp Shelf) × (read_file shelf_server (codes "draft") 2 written
      ≡ (done (capped 2 (7 ∷ 8 ∷ 9 ∷ [])), t))
    × SameBut content apart
        (resolved shelf_server (codes "draft") session)
        session.server
        written.server
unfolding write_file lower trim_end
write_file-read_file_example =
    write_file-read_file shelf_server shelf_server-KeepsFiles (codes "draft") (7 ∷ 8 ∷ 9 ∷ []) 2
      session written refl

copy-read_file_example :
    (t : Sftp Shelf) × (read_file shelf_server (codes "draft") 0 copied
      ≡ (done (capped 0 (1 ∷ 2 ∷ 3 ∷ [])), t))
    × SameBut content apart
        (resolved shelf_server (codes "draft") session)
        session.server
        copied.server
unfolding copy lower lookup text_eq trim_end
copy-read_file_example =
    copy-read_file shelf_server shelf_server-KeepsFiles (codes "/NOTES") (codes "draft")
      (1 ∷ 2 ∷ 3 ∷ []) 0 session copied refl refl

-- No request for attributes is granted, so the bound holds of every length.
shelf_server-IsBounded : IsBounded shelf_server 0
shelf_server-IsBounded = record {
  shallow = λ sv p meta e real. ground (arith, e);
  named = λ sv p es e. ground (arith, e);
}

abbrev shelf_files : FileProvider (Sftp Shelf)
shelf_files = sftp_file_provider shelf_server 0 shelf_server-IsBounded (λ op s. s)

-- So a driver over this backend reads back what it saved.
shelf_files-ReadsBack : ReadsBack shelf_files
shelf_files-ReadsBack =
    sftp_file_provider-ReadsBack shelf_server 0 shelf_server-IsBounded (λ op s. s)
      shelf_server-KeepsFiles
