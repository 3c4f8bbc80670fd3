-- ===== src/Utils/UnescapeUrl.antt =====
-- include/dracon/utils.h: from_hex and unescape_url.
use dracon.Prelude.{
  ℕ, ◌+◌, ◌-◌, ◌*◌, ◌≡◌, ◌∙◌, refl, sym, ap, false, ◌&&◌, List, [], ◌∷◌, Bytes, leb, ◌==◌,
  if◌then◌else◌, Result, ok, thrown, ◌>>=◌, ==_iff, Bool-cases, inl, inr, >>=-eq-ok, subst,
}

unfoldable pub from_hex : ℕ → Result ℕ
from_hex ch =
    if leb b'0' ch && leb ch b'9'
    then ok (ch - b'0')
    else if leb b'a' ch && leb ch b'f'
    then ok (10 + ch - b'a')
    else if leb b'A' ch && leb ch b'F'
    then ok (10 + ch - b'A')
    else thrown "Bad hex value"

-- A character that stands for itself, or a space.
plain : ℕ → ℕ
plain c = if c == b'+' then b' ' else c

-- The loop, from a position on.
unfoldable pub unescape_url : Bytes → Result Bytes
unfolding plain
unescape_url [] = ok []
unescape_url (c ∷ []) = if c == b'%' then thrown "Malformed URL" else ok (plain c ∷ [])
unescape_url (c ∷ d ∷ []) =
    let rest = unescape_url (d ∷ []) in
    if c == b'%' then thrown "Malformed URL" else (do out ← rest; ok (plain c ∷ out))
unescape_url (c ∷ d ∷ e ∷ input) =
    let behind = unescape_url input in
    let rest = unescape_url (d ∷ e ∷ input) in
    if c == b'%'
    then (do high ← from_hex d; low ← from_hex e; out ← behind; ok ((high * 16 + low) ∷ out))
    else (do out ← rest; ok (plain c ∷ out))

-- A piece of an escaped text: a character as it is, a plus, or a percent and two digits.
pub data Piece : Type 0 where
  literal : ℕ → Piece
  plus : Piece
  percent : ℕ → ℕ → Piece

abbrev pub IsPiece : Piece → ℕ → Type 0
IsPiece (literal c) b = (c ≡ b) × ((c == b'%') ≡ false) × ((c == b'+') ≡ false)
IsPiece plus b = b ≡ b' '
IsPiece (percent d e) b =
    (h : ℕ) × (l : ℕ) × (from_hex d ≡ ok h) × (from_hex e ≡ ok l) × (b ≡ h * 16 + l)

abbrev pub AreEscaped : List Piece → Bytes → Type 0
AreEscaped [] [] = Unit
AreEscaped (p ∷ ps) (b ∷ bs) = IsPiece p b × AreEscaped ps bs
AreEscaped _ _ = ⊥

abbrev pub escaped : List Piece → Bytes
escaped [] = []
escaped (literal c ∷ ps) = c ∷ escaped ps
escaped (plus ∷ ps) = b'+' ∷ escaped ps
escaped (percent d e ∷ ps) = b'%' ∷ d ∷ e ∷ escaped ps

unescape_plain :
    (c : ℕ) (input out : Bytes)
    → (c == b'%') ≡ false
    → unescape_url input ≡ ok out
    → unescape_url (c ∷ input) ≡ ok (plain c ∷ out)
unfolding unescape_url
unescape_plain c [] out n e = rw (n, unescape_url) (ap (λ r. r >>= (λ t. ok (plain c ∷ t))) e)
unescape_plain c (d ∷ []) out n e = rw (n, unescape_url) (ap (λ r. r >>= (λ t. ok (plain c ∷ t))) e)
unescape_plain c (d ∷ f ∷ input) out n e =
    rw (n, unescape_url) (ap (λ r. r >>= (λ t. ok (plain c ∷ t))) e)

-- Every escaped form of a text, with any choice of escapes, is decoded to the text.
pub unescape_url-escaped :
    (ps : List Piece) (text : Bytes) → AreEscaped ps text → unescape_url (escaped ps) ≡ ok text
unfolding unescape_url plain
unescape_url-escaped [] [] a = refl
unescape_url-escaped [] (b ∷ text) a = elim a [ ]
unescape_url-escaped (literal c ∷ ps) [] a = elim a [ ]
unescape_url-escaped (plus ∷ ps) [] a = elim a [ ]
unescape_url-escaped (percent d e ∷ ps) [] a = elim a [ ]
unescape_url-escaped (literal c ∷ ps) (b ∷ text) ((is_b, n, no_plus), more) =
    unescape_plain c (escaped ps) text n (unescape_url-escaped ps text more)
    ∙ rw no_plus (ap (λ t. ok (t ∷ text)) is_b)
unescape_url-escaped (plus ∷ ps) (b ∷ text) (is_space, more) =
    unescape_plain b'+' (escaped ps) text refl (unescape_url-escaped ps text more)
    ∙ ap (λ t. ok (t ∷ text)) (sym is_space)
unescape_url-escaped (percent d e ∷ ps) (b ∷ text) ((h, l, eh, el, eb), more) =
    rw (eh, el, unescape_url-escaped ps text more) (ap (λ t. ok (t ∷ text)) (sym eb))

ok_inj : (a b : Bytes) → ok a ≡ ok b → a ≡ b
ok_inj a b e = cc

plain_only :
    (c : ℕ) (input text : Bytes)
    → (c == b'%') ≡ false
    → unescape_url (c ∷ input) ≡ ok text
    → (out : Bytes) × (unescape_url input ≡ ok out) × (plain c ∷ out ≡ text)
unfolding unescape_url
plain_only c [] text n e = ([], refl, ok_inj (plain c ∷ []) text (rw (n, unescape_url) at e))
plain_only c (d ∷ []) text n e =
    let (out, e1, e2) =
      >>=-eq-ok (unescape_url (d ∷ [])) (λ t. ok (plain c ∷ t)) (rw (n, unescape_url) at e) in
    (out, e1, ok_inj _ _ e2)
plain_only c (d ∷ f ∷ input) text n e =
    let (out, e1, e2) =
      >>=-eq-ok (unescape_url (d ∷ f ∷ input)) (λ t. ok (plain c ∷ t))
        (rw (n, unescape_url) at e) in
    (out, e1, ok_inj _ _ e2)

plain_piece :
    (c : ℕ)
    → (c == b'%') ≡ false
    → (p : Piece) × ((ps : List Piece) → escaped (p ∷ ps) ≡ c ∷ escaped ps) × IsPiece p (plain c)
unfolding plain
plain_piece c n = elim (Bool-cases (c == b'+')) [
  | inl is_plus ↦
      (plus, λ ps. ap (λ x. x ∷ escaped ps) (sym ((==_iff c b'+').0 is_plus)), rw is_plus refl)
  | inr other ↦ (literal c, λ ps. refl, rw other (refl, n, refl))
]

abbrev pub Decodes : Bytes → Bytes → Type 0
Decodes input text = (ps : List Piece) × (escaped ps ≡ input) × AreEscaped ps text

put_plain :
    (c : ℕ) (input out text : Bytes)
    → (c == b'%') ≡ false
    → plain c ∷ out ≡ text
    → Decodes input out
    → Decodes (c ∷ input) text
put_plain c input out text n e (ps, eq, are) =
    let (p, cons, is_p) = plain_piece c n in
    (p ∷ ps, cons ps ∙ ap (◌∷◌ c) eq, subst (AreEscaped (p ∷ ps)) e (is_p, are))

-- Whatever unescape_url returns is the decoding of its input: it throws on a text that is no escaped
-- form of any text.
pub unescape_url-Decodes : (input text : Bytes) → unescape_url input ≡ ok text → Decodes input text
unfolding unescape_url
unescape_url-Decodes [] text e = subst (Decodes []) (ok_inj [] text e) ([], refl, tt)
unescape_url-Decodes (c ∷ []) text e = elim (Bool-cases (c == b'%')) [
  | inl is_it ↦ cc (rw (is_it, unescape_url) at e)
  | inr n ↦
      let (out, e1, e2) = plain_only c [] text n e in
      put_plain c [] out text n e2 (unescape_url-Decodes [] out e1)
]
unescape_url-Decodes (c ∷ d ∷ []) text e = elim (Bool-cases (c == b'%')) [
  | inl is_it ↦ cc (rw (is_it, unescape_url) at e)
  | inr n ↦
      let (out, e1, e2) = plain_only c (d ∷ []) text n e in
      put_plain c (d ∷ []) out text n e2 (unescape_url-Decodes (d ∷ []) out e1)
]
unescape_url-Decodes (c ∷ d ∷ f ∷ input) text e = elim (Bool-cases (c == b'%')) [
  | inl is_it ↦
      let (h, eh, e1) = >>=-eq-ok (from_hex d) _ (rw (is_it, unescape_url) at e) in
      let (l, el, e2) = >>=-eq-ok (from_hex f) _ e1 in
      let (out, e3, e4) = >>=-eq-ok (unescape_url input) _ e2 in
      let (ps, eq, are) = unescape_url-Decodes input out e3 in
      (
        percent d f ∷ ps,
        ap (λ t. b'%' ∷ d ∷ f ∷ t) eq ∙ ap (λ x. x ∷ d ∷ f ∷ input) (sym ((==_iff c b'%').0 is_it)),
        subst (AreEscaped (percent d f ∷ ps)) (ok_inj _ text e4) ((h, l, eh, el, refl), are),
      )
  | inr n ↦
      let (out, e1, e2) = plain_only c (d ∷ f ∷ input) text n e in
      put_plain c (d ∷ f ∷ input) out text n e2 (unescape_url-Decodes (d ∷ f ∷ input) out e1)
]
