-- ===== src/Utils/Split.antt =====
-- include/dracon/utils.h: split.
pub mod Join
use dracon.Prelude.{
  ℕ, zero, suc, ◌+◌, ◌-◌, ◌≤◌, ◌<◌, ◌≡◌, ◌∙◌, refl, sym, ap, arith, Bool, true, false, List, [],
  ◌∷◌, ◌++◌, none, some, Bytes, ◌==◌, if◌then◌else◌, is_empty, length, take, drop, find, Bool-cases,
  Option-cases, inl, inr, length-drop, ==_iff,
}

-- A piece of no characters is dropped.
abbrev pub keep_piece : Bytes → List Bytes → List Bytes
keep_piece piece more = if is_empty piece then more else piece ∷ more

-- The loop of `split` from `pos` on, with fuel; `count` splits are left.
unfoldable pub split_loop : ℕ → ℕ → ℕ → Bytes → List Bytes
split_loop zero ch count rest = []
split_loop (suc fuel) ch count rest = elim (find ch rest) [
  | none ↦ keep_piece rest []
  | some i ↦
      let more = split_loop fuel ch (count - 1) (drop (suc i) rest) in
      if count == 0 then keep_piece rest [] else keep_piece (take i rest) more
]

unfoldable pub split : Bytes → ℕ → ℕ → List Bytes
split str ch count = split_loop (suc (length str)) ch count str

-- The reference: a text cut at its first `count` separators, empty pieces included.
push_front : ℕ → List Bytes → List Bytes
push_front c [] = (c ∷ []) ∷ []
push_front c (p ∷ ps) = (c ∷ p) ∷ ps

unfoldable pub cut : ℕ → ℕ → Bytes → List Bytes
unfolding push_front
cut ch count [] = [] ∷ []
cut ch count (c ∷ str) =
    let at_separator = cut ch (count - 1) str in
    let within = cut ch count str in
    if count == 0
    then (c ∷ str) ∷ []
    else if c == ch
    then [] ∷ at_separator
    else push_front c within

abbrev pub nonempty : List Bytes → List Bytes
nonempty [] = []
nonempty (p ∷ ps) = keep_piece p (nonempty ps)

pub cut-none : (ch count : ℕ) (str : Bytes) → find ch str ≡ none → cut ch count str ≡ str ∷ []
unfolding cut push_front
cut-none ch count [] e = refl
cut-none ch count (c ∷ str) e = elim (Bool-cases (c == ch)) [
  | inl here ↦ ground arith
  | inr other ↦
      let e' : find ch str ≡ none = ground arith in
      elim (Bool-cases (count == 0)) [
        | inl z ↦ rw z refl
        | inr nz ↦ rw (nz, other, cut-none ch count str e') refl
      ]
]

cut-zero : (ch : ℕ) (str : Bytes) → cut ch 0 str ≡ str ∷ []
unfolding cut
cut-zero ch [] = refl
cut-zero ch (c ∷ str) = refl

pub cut-some :
    (ch count i : ℕ) (str : Bytes)
    → find ch str ≡ some i
    → (count == 0) ≡ false
    → cut ch count str ≡ take i str ∷ cut ch (count - 1) (drop (suc i) str)
unfolding cut push_front
cut-some ch count i [] e nz = cc
cut-some ch count i (c ∷ str) e nz = elim (Bool-cases (c == ch)) [
  | inl here ↦ let i0 : i ≡ 0 = ground arith in rw (i0, nz, here) refl
  | inr other ↦ elim (Option-cases (find ch str)) [
    | inl none_there ↦ ground arith
    | inr (j, there) ↦
        let ij : i ≡ suc j = ground arith in
        rw (ij, nz, other, cut-some ch count j str there nz) refl
  ]
]

find-length : (ch i : ℕ) (str : Bytes) → find ch str ≡ some i → i < length str
find-length ch i [] e = cc
find-length ch i (c ∷ str) e = elim (Option-cases (find ch str)) [
  | inl none_there ↦ ground arith
  | inr (j, there) ↦ ground (arith, find-length ch j str there)
]

split_loop-cut :
    (f ch count : ℕ) (rest : Bytes)
    → length rest < f
    → split_loop f ch count rest ≡ nonempty (cut ch count rest)
unfolding split_loop
split_loop-cut zero ch count rest h = absurd (omega arith)
split_loop-cut (suc f) ch count rest h = elim (Option-cases (find ch rest)) [
  | inl e ↦ rw (e, split_loop, cut-none ch count rest e) refl
  | inr (i, e) ↦ elim (Bool-cases (count == 0)) [
    | inl z ↦
        let z0 : count ≡ 0 = (==_iff count 0).0 z in rw (e, split_loop, z0, cut-zero ch rest) refl
    | inr nz ↦
        let le = find-length ch i rest e in
        let shorter : length (drop (suc i) rest) < f =
          omega (arith, h, le, length-drop (suc i) rest) in
        rw
          (
            e,
            split_loop,
            nz,
            cut-some ch count i rest e nz,
            split_loop-cut f ch (count - 1) (drop (suc i) rest) shorter,
          )
          refl
  ]
]

-- The search for separators gives the nonempty pieces of the text cut at its first `count`
-- separators; it ends by itself.
pub split-cut : (str : Bytes) (ch count : ℕ) → split str ch count ≡ nonempty (cut ch count str)
unfolding split
split-cut str ch count = split_loop-cut (suc (length str)) ch count str (omega arith)
