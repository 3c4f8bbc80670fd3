-- ===== src/HttpParser/Lines.antt =====
-- What `find` and `next_line` find stays found when more bytes arrive.
use dracon.Prelude.{
  ℕ, suc, ◌+◌, ◌≤◌, ◌<◌, ◌≡◌, refl, ap, ◌∙◌, arith, Bytes, [], ◌∷◌, ◌++◌, none, some, ◌==◌, find,
  length, take-append, take_past, Option-cases, Bool-cases, inl, inr,
}
use dracon.HttpParser.Detail.{strip_cr, Line, next_line}

pub find-lt : (c : ℕ) (xs : Bytes) (i : ℕ) → find c xs ≡ some i → i < length xs
find-lt c [] i e = cc
find-lt c (x ∷ xs) i e = elim (Option-cases (find c xs)) [
  | inl e' ↦ ground arith
  | inr (j, e') ↦ ground (arith, find-lt c xs j e')
]

pub find-append : (c : ℕ) (xs ys : Bytes) (i : ℕ) → find c xs ≡ some i → find c (xs ++ ys) ≡ some i
find-append c [] ys i e = cc
find-append c (x ∷ xs) ys i e = elim (Option-cases (find c xs)) [
  | inl e' ↦ ground arith
  | inr (j, e') ↦ ground (arith, find-append c xs ys j e')
]

pub next_line_bounds :
    (rest : Bytes) (l : Line) → next_line rest ≡ some l → (0 < l.next) × (l.next ≤ length rest)
unfolding next_line
next_line_bounds rest l e = elim (Option-cases (find b'\n' rest)) [
  | inl e' ↦ ground arith
  | inr (j, e') ↦ ground (arith, find-lt b'\n' rest j e')
]

pub next_line-append :
    (rest more : Bytes) (l : Line) → next_line rest ≡ some l → next_line (rest ++ more) ≡ some l
unfolding next_line
next_line-append rest more l e = elim (Option-cases (find b'\n' rest)) [
  | inl e' ↦ ground arith
  | inr (j, e') ↦
      ground
        (arith, find-append b'\n' rest more j e', find-lt b'\n' rest j e', take-append j rest more)
]

pub find-skip :
    (c : ℕ) (xs ys : Bytes) (j : ℕ)
    → find c xs ≡ none
    → find c ys ≡ some j
    → find c (xs ++ ys) ≡ some (length xs + j)
find-skip c [] ys j e h = h ∙ ap some (omega arith)
find-skip c (x ∷ xs) ys j e h = elim (Bool-cases (x == c)) [
  | inl here ↦ ground arith
  | inr other ↦
      let e' : find c xs ≡ none = ground arith in
      rw (other, find-skip c xs ys j e' h) (ap some (omega arith))
]

strip_cr_crlf : (xs : Bytes) → strip_cr (xs ++ (b'\r' ∷ [])) ≡ xs
unfolding strip_cr
strip_cr_crlf [] = refl
strip_cr_crlf (x ∷ []) = refl
strip_cr_crlf (x ∷ y ∷ xs) = ap (◌∷◌ x) (strip_cr_crlf (y ∷ xs))

-- A text with no line feed in it, in front of a CRLF, is a line.
pub next_line_crlf :
    (xs rest : Bytes)
    → find b'\n' xs ≡ none
    → next_line (xs ++ (b'\r' ∷ b'\n' ∷ rest)) ≡ some (record { text = xs; next = length xs + 2 })
unfolding next_line
next_line_crlf xs rest e =
    let at : find b'\n' (xs ++ (b'\r' ∷ b'\n' ∷ rest)) ≡ some (length xs + 1) =
      find-skip b'\n' xs (b'\r' ∷ b'\n' ∷ rest) 1 e refl in
    let len : suc (length xs + 1) ≡ length xs + 2 = omega arith in
    rw (at, next_line, take_past xs (b'\r' ∷ b'\n' ∷ rest) 1, strip_cr_crlf, len)

pub find-append_none :
    (c : ℕ) (xs ys : Bytes) → find c xs ≡ none → find c ys ≡ none → find c (xs ++ ys) ≡ none
find-append_none c [] ys h k = k
find-append_none c (x ∷ xs) ys h k = elim (Bool-cases (x == c)) [
  | inl here ↦ ground arith
  | inr other ↦
      let h' : find c xs ≡ none = ground arith in rw (other, find-append_none c xs ys h' k)
]
