-- ===== src/Examples/Russh.antt =====
-- The theorems on host patterns, keys and authentication, at concrete inputs.
use research_ssh_next.Russh.Sftp.{Sftp}
use research_ssh_next.Prelude.{
  lower, map, ℕ, suc, Text, Bool, true, false, not, ◌&&◌, ◌≡◌, refl, ◌↔◌, ◌⊎◌, [], ◌∷◌, ◌++◌, any,
  Option, none, some, codes, text_eq, starts_with, if◌then◌else◌, into_bytes, utf8_char,
}
use research_ssh_next.Core.{done}
use research_ssh_next.Russh.Patterns.{
  strip_negation, host_pattern_matches, matches_bytes, host_clause_matches, split_whitespace,
}
use research_ssh_next.Russh.Patterns.Denotation.{Denotes, host_pattern_matches_iff}
use research_ssh_next.Russh.Patterns.Clauses.{forbids, names, host_clause_matches_lem}
use research_ssh_next.Russh.Keys.{
  expand_identity_file, identity_files_from_ssh_config, split_lines, Platform,
}
use mathlib.Core.List.{flat_map}
use research_ssh_next.Russh.Keys.Blocks.{blocks, files_of, identity_files_lem, line_of}
use research_ssh_next.Russh.Auth.{
  unknown, matches, check_server_key, Loaded, loaded, load_error, accepts, rejects, Server,
  authenticate, try_publickey_auth, passphrase_text,
}
use research_ssh_next.Russh.Auth.HostKey.{check_server_key_lem}
use research_ssh_next.Russh.Auth.Order.{IsAuthentic, authenticate-accepted}

host_pattern_matches_iff_example :
    (host_pattern_matches (codes "*.EDU") (codes "gpu.edu") ≡ true)
    ↔ Denotes (into_bytes (codes "*.EDU")) (into_bytes (codes "gpu.edu"))
host_pattern_matches_iff_example = host_pattern_matches_iff (codes "*.EDU") (codes "gpu.edu")

host_clause_matches_lem_example : host_clause_matches (codes "* !login?") (codes "login1") ≡ (
    not (any (forbids (codes "login1")) (split_whitespace (codes "* !login?")))
    && any (names (codes "login1")) (split_whitespace (codes "* !login?")))
host_clause_matches_lem_example = host_clause_matches_lem (codes "* !login?") (codes "login1")

-- A home with a configuration and two keys.
abbrev os : Platform
os = record {
  home_dir = some (codes "/h");
  same_path = text_eq;
  join = λ a b. a ++ (codes "/" ++ b);
  is_absolute = starts_with (codes "/");
  is_file = λ p. not (text_eq p (codes "/h/.ssh/id_ecdsa"));
  read_to_string = λ p. some (codes "IdentityFile ~/.ssh/id_rsa");
}

abbrev ssh_dir : Text
ssh_dir = codes "/h/.ssh"

-- One block for the host and one for another.
abbrev config_text : Text
config_text =
    codes
      "IdentityFile ~/.ssh/all\nHost gpu*\n  User ada\n  IdentityFile ~/.ssh/%h\nHost web\nIdentityFile ~/.ssh/web\n"

abbrev with_config : Platform
with_config = record os { read_to_string = λ p. some config_text }

identity_files_lem_example :
    identity_files_from_ssh_config with_config ssh_dir (codes "gpu1") (codes "ada") 22
    ≡ flat_map
        (files_of with_config ssh_dir (codes "gpu1") (codes "ada") 22)
        (blocks (map line_of (split_lines config_text))).1
identity_files_lem_example = identity_files_lem with_config ssh_dir (codes "gpu1") (codes "ada") 22

files_for_gpu1 :
    identity_files_from_ssh_config with_config ssh_dir (codes "gpu1") (codes "ada") 22
    ≡ codes "/h/.ssh/gpu1" ∷ []
unfolding identity_files_from_ssh_config text_eq starts_with lower host_clause_matches
    strip_negation host_pattern_matches matches_bytes into_bytes utf8_char expand_identity_file
files_for_gpu1 = refl

abbrev yes : Text → Bool
yes prompt = true

check_server_key_lem_example :
    (((check_server_key unknown (some yes) false (codes "SHA256:x") (codes "gpu") 22).accepted
        ≡ true)
      ↔ ((unknown ≡ matches)
          ⊎ ((ask : Text → Bool) × (prompt : Text) × (unknown ≡ unknown)
              × (some yes ≡ some ask)
              × ((check_server_key unknown
                    (some yes)
                    false
                    (codes "SHA256:x")
                    (codes "gpu")
                    22).prompted
                  ≡ some prompt)
              × (ask prompt ≡ true))))
    × (((check_server_key unknown (some yes) false (codes "SHA256:x") (codes "gpu") 22).prompted
          ≡ none)
        ⊎ (unknown ≡ unknown))
    × (((check_server_key unknown (some yes) false (codes "SHA256:x") (codes "gpu") 22).learned
          ≡ true)
        ↔ (((check_server_key unknown (some yes) false (codes "SHA256:x") (codes "gpu") 22).accepted
              ≡ true)
            × (unknown ≡ unknown)
            × (false ≡ true)))
check_server_key_lem_example =
    check_server_key_lem unknown (some yes) false (codes "SHA256:x") (codes "gpu") 22

-- One key file is broken.
if_readable : Text → Loaded Text
if_readable path =
    if text_eq path (codes "/k") then load_error (codes "bad format") else loaded path

-- A server that counts attempts, refuses keys and takes any password.
abbrev server : Server Text ℕ
server = record {
  load_secret_key = λ path phrase. if_readable path;
  authenticate_publickey = λ user key n. (rejects, suc n);
  authenticate_password = λ user password n. (accepts, suc n);
  from_utf8 = λ bytes. some bytes;
}

by_password :
    authenticate server
      (codes "ada")
      (codes "/k" ∷ codes "/l" ∷ [])
      false
      none
      (some (codes "pw"))
      0
    ≡ (done tt, 2)
unfolding authenticate try_publickey_auth if_readable text_eq
by_password = refl

authenticate-accepted_example :
    (authenticate server
        (codes "ada")
        (codes "/k" ∷ codes "/l" ∷ [])
        false
        none
        (some (codes "pw"))
        0
      ≡ (done tt, 2))
    ↔ ((phrase : Option Text) × (passphrase_text server (codes "ada") none ≡ done phrase)
        × IsAuthentic server
            (codes "ada")
            phrase
            false
            (codes "/k" ∷ codes "/l" ∷ [])
            (some (codes "pw"))
            0
            2)
authenticate-accepted_example =
    authenticate-accepted server (codes "ada") (codes "/k" ∷ codes "/l" ∷ []) false none
      (some (codes "pw")) 0 2

abbrev canonicalize : Text → ℕ → Option Text × ℕ
canonicalize path n = (some (codes "/h/"), suc n)

abbrev fresh : Sftp ℕ
fresh = record { server = 0; home = none }
