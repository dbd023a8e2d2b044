-- ===== src/Ffi/Backing.antt =====
-- ffi.rs: the vectors that own the buffers of a batch. Records hold indices into them until all
-- buffers are there, and pointers are taken then.
use research_ssh_next.Prelude.{
  ℕ, ◌-◌, Text, Bytes, List, [], ◌∷◌, ◌++◌, length, get_elem?, get_elem?-append, get_elem?-length,
  length-append, Option, some, ◌≡◌, refl, arith, ◌==◌, if◌then◌else◌, map,
}

pub record Backing : Type 0 where
  pub byte_bufs : List Bytes
  pub cstrings : List Text

abbrev pub no_backing : Backing
no_backing = record { byte_bufs = []; cstrings = [] }

-- `to_cstring`: a NUL becomes a question mark, so the conversion to a C string never fails.
unfoldable pub to_cstring : Text → Text
to_cstring s = map (λ c. if c == 0 then 63 else c) s

unfoldable pub push_bytes : Bytes → Backing → Backing × ℕ
push_bytes b st =
    let bufs = st.byte_bufs ++ b ∷ [] in (record st { byte_bufs = bufs }, length bufs - 1)

unfoldable pub push_string : Text → Backing → Backing × ℕ
unfolding to_cstring
push_string s st =
    let strings = st.cstrings ++ to_cstring s ∷ [] in
    (record st { cstrings = strings }, length strings - 1)

-- Indices out of range would panic.
abbrev pub bytes_at : Backing → ℕ → Option Bytes
bytes_at st i = get_elem? st.byte_bufs i

abbrev pub string_at : Backing → ℕ → Option Text
string_at st i = get_elem? st.cstrings i

-- What an index names in the first backing it names in the second.
pub record Extends (st st' : Backing) : Type 0 where
  pub keeps_bytes : (i : ℕ) (b : Bytes) → bytes_at st i ≡ some b → bytes_at st' i ≡ some b
  pub keeps_strings : (i : ℕ) (s : Text) → string_at st i ≡ some s → string_at st' i ≡ some s

pub Extends-refl : (st : Backing) → Extends st st
Extends-refl st = record { keeps_bytes = λ i b h. h; keeps_strings = λ i s h. h }

pub Extends-trans : (a b c : Backing) → Extends a b → Extends b c → Extends a c
Extends-trans a b c h k = record {
  keeps_bytes = λ i x e. k.keeps_bytes i x (h.keeps_bytes i x e);
  keeps_strings = λ i x e. k.keeps_strings i x (h.keeps_strings i x e);
}

pub push_bytes-Extends : (b : Bytes) (st : Backing) → Extends st (push_bytes b st).0
unfolding push_bytes
push_bytes-Extends b st = record {
  keeps_bytes = λ i x e. get_elem?-append st.byte_bufs (b ∷ []) i x e;
  keeps_strings = λ i x e. e;
}

pub push_string-Extends : (s : Text) (st : Backing) → Extends st (push_string s st).0
unfolding push_string
push_string-Extends s st = record {
  keeps_bytes = λ i x e. e;
  keeps_strings = λ i x e. get_elem?-append st.cstrings (to_cstring s ∷ []) i x e;
}

last_index {ℓ} :
    {A : Type ℓ}
    → (xs : List A) (a : A) → get_elem? (xs ++ a ∷ []) (length (xs ++ a ∷ []) - 1) ≡ some a
last_index xs a =
    let len : length (xs ++ a ∷ []) - 1 ≡ length xs = omega (arith, length-append xs (a ∷ [])) in
    rw (len, get_elem?-length xs a []) refl

pub bytes_at-push_bytes :
    (b : Bytes) (st : Backing) → bytes_at (push_bytes b st).0 (push_bytes b st).1 ≡ some b
unfolding push_bytes
bytes_at-push_bytes b st = last_index st.byte_bufs b

pub string_at-push_string :
    (s : Text) (st : Backing)
    → string_at (push_string s st).0 (push_string s st).1 ≡ some (to_cstring s)
unfolding push_string
string_at-push_string s st = last_index st.cstrings (to_cstring s)
