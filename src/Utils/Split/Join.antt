-- ===== src/Utils/Split/Join.antt =====
-- A text that is joined from pieces is split into these pieces.
use dracon.Prelude.{
  ℕ, suc, ◌+◌, ◌-◌, ◌≤◌, ◌≡◌, ◌∙◌, refl, ap, arith, false, List, [], ◌∷◌, ◌++◌, none, some, Bytes,
  ◌==◌, is_empty, length, drop, find, take-length, drop_past, append-nil, ==_refl,
}
use dracon.HttpParser.Lines.{find-skip, find-append_none}
use dracon.Utils.Split.{split, cut, nonempty, split-cut, cut-none, cut-some}

-- Each piece behind a separator, as in "/a/b".
unfoldable pub slashed : ℕ → List Bytes → Bytes
slashed ch [] = []
slashed ch (p ∷ ps) = ch ∷ (p ++ slashed ch ps)

-- No piece is empty, or has the character.
abbrev pub AreSegments : ℕ → List Bytes → Type 0
AreSegments ch [] = Unit
AreSegments ch (p ∷ ps) = ((find ch p ≡ none) × (is_empty p ≡ false)) × AreSegments ch ps

cut-piece :
    (ch count : ℕ) (p rest : Bytes)
    → find ch p ≡ none
    → (count == 0) ≡ false
    → cut ch count (p ++ (ch ∷ rest)) ≡ p ∷ cut ch (count - 1) rest
cut-piece ch count p rest none_in nz =
    let here : find ch (ch ∷ rest) ≡ some 0 = rw (==_refl ch) refl in
    let at : find ch (p ++ (ch ∷ rest)) ≡ some (length p) =
      find-skip ch p (ch ∷ rest) 0 none_in here ∙ ap some (omega arith) in
    let one_more : suc (length p) ≡ length p + 1 = omega arith in
    let behind : drop (suc (length p)) (p ++ (ch ∷ rest)) ≡ rest =
      ap (λ k. drop k (p ++ (ch ∷ rest))) one_more ∙ drop_past p (ch ∷ rest) 1 in
    cut-some ch count (length p) (p ++ (ch ∷ rest)) at nz
    ∙ ap (λ t. t ∷ cut ch (count - 1) (drop (suc (length p)) (p ++ (ch ∷ rest))))
        (take-length p (ch ∷ rest))
    ∙ ap (λ t. p ∷ cut ch (count - 1) t) behind

cut-slashed :
    (ch count : ℕ) (p : Bytes) (ps : List Bytes)
    → AreSegments ch (p ∷ ps)
    → length ps ≤ count
    → cut ch count (p ++ slashed ch ps) ≡ p ∷ ps
unfolding slashed
cut-slashed ch count p [] a h = ap (cut ch count) (append-nil p) ∙ cut-none ch count p a.0.0
cut-slashed ch count p (q ∷ qs) a h =
    let nz : (count == 0) ≡ false = ground (arith, h) in
    cut-piece ch count p (q ++ slashed ch qs) a.0.0 nz
    ∙ ap (◌∷◌ p) (cut-slashed ch (count - 1) q qs a.1 (omega (arith, h)))

nonempty_all : (ch : ℕ) (ps : List Bytes) → AreSegments ch ps → nonempty ps ≡ ps
nonempty_all ch [] a = refl
nonempty_all ch (p ∷ ps) a = rw (a.0.1, nonempty_all ch ps a.1) refl

-- What is joined from segments, each behind a separator, is split into these segments.
pub split-slashed :
    (ch count : ℕ) (ps : List Bytes)
    → AreSegments ch ps
    → length ps ≤ count
    → split (slashed ch ps) ch count ≡ ps
unfolding slashed
split-slashed ch count [] a h = split-cut [] ch count ∙ ap nonempty (cut-none ch count [] refl)
split-slashed ch count (p ∷ ps) a h =
    let nz : (count == 0) ≡ false = ground (arith, h) in
    split-cut (ch ∷ (p ++ slashed ch ps)) ch count
    ∙ ap nonempty (cut-piece ch count [] (p ++ slashed ch ps) refl nz)
    ∙ ap nonempty (cut-slashed ch (count - 1) p ps a (omega (arith, h)))
    ∙ nonempty_all ch (p ∷ ps) a

pub find-slashed :
    (c ch : ℕ) (ps : List Bytes)
    → (ch == c) ≡ false
    → AreSegments c ps
    → find c (slashed ch ps) ≡ none
unfolding slashed
find-slashed c ch [] n a = refl
find-slashed c ch (p ∷ ps) n a =
    rw (n, find-append_none c p (slashed ch ps) a.0.0 (find-slashed c ch ps n a.1)) refl
