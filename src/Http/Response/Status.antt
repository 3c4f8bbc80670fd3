-- ===== src/Http/Response/Status.antt =====
-- The search in the table of status codes.
use dracon.Prelude.{
  ℕ, ◌<◌, ◌≡◌, refl, arith, List, [], ◌∷◌, Bytes, ltb, ◌==◌, if◌then◌else◌, false, Bool-cases, inl,
  inr, none, some,
}
use dracon.Http.Response.{status_codes, lower_bound, status_code_string, internal_error}

-- The text of a code, wherever it stands in a table.
abbrev pub text_of : ℕ → List (ℕ × Bytes) → Bytes
text_of status [] = internal_error
text_of status (e ∷ es) = if e.0 == status then e.1 else text_of status es

abbrev Above : ℕ → List (ℕ × Bytes) → Type 0
Above code [] = Unit
Above code (e ∷ es) = (code < e.0) × Above code es

abbrev IsSorted : List (ℕ × Bytes) → Type 0
IsSorted [] = Unit
IsSorted (e ∷ es) = Above e.0 es × IsSorted es

text_of-absent :
    (status code : ℕ) (es : List (ℕ × Bytes))
    → Above code es
    → ltb code status ≡ false
    → text_of status es ≡ internal_error
text_of-absent status code [] a h = refl
text_of-absent status code (e ∷ es) a h = ground (arith, a.0, text_of-absent status code es a.1 h)

abbrev pick : ℕ → List (ℕ × Bytes) → Bytes
pick status es = elim (lower_bound status es) [
  | none ↦ internal_error
  | some (code, text) ↦ if code == status then text else internal_error
]

pick-text_of :
    (status : ℕ) (es : List (ℕ × Bytes)) → IsSorted es → pick status es ≡ text_of status es
pick-text_of status [] s = refl
pick-text_of status (e ∷ es) s = elim (Bool-cases (ltb e.0 status)) [
  | inl below ↦ ground (arith, pick-text_of status es s.1)
  | inr here ↦ ground (arith, text_of-absent status e.0 es s.0 here)
]

status_codes-IsSorted : IsSorted status_codes
unfolding status_codes
status_codes-IsSorted = ground arith

-- The binary search finds what a search of the whole table finds: each code of the table its own
-- text, and any other the text of a 500.
pub status_code_string-text_of :
    (status : ℕ) → status_code_string status ≡ text_of status status_codes
unfolding status_code_string
status_code_string-text_of status = pick-text_of status status_codes status_codes-IsSorted
