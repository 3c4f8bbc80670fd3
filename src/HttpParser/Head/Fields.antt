-- ===== src/HttpParser/Head/Fields.antt =====
-- What the members of the parser that frame the body say of the header fields of the request.
use dracon.Prelude.{
  ◌+◌, ◌≤◌, ◌≡◌, ◌∙◌, refl, sym, ap, subst, arith, Bytes, Bool, true, false, List, [], ◌∷◌, Option,
  none, some, codes, length, foldl, ok, bytes_eq, bytes_eq_refl, bytes_eq→eq, Bool-cases,
  Result-cases, inl, inr, if◌then◌else◌,
}
use dracon.Http.ContentLength.{find_field}
use dracon.Http.Request.{Fields, Request, combine}
use dracon.HttpParser.Detail.{canonical_name, tokens}
use dracon.HttpParser.State.{HttpRequestParser, State, initial}
use dracon.HttpParser.Head.{
  connection_option, connection_field, content_length_of, content_length_field,
  transfer_encoding_field, known_field, header_field_parts,
}

abbrev pub is_there : Option Bytes → Bool
is_there none = false
is_there (some v) = true

abbrev pub length_name : Bytes
length_name = codes "Content-Length"

abbrev pub encoding_name : Bytes
encoding_name = codes "Transfer-Encoding"

pub length-combine :
    (key value : Bytes) (flds : Fields) → length (combine key value flds) ≤ length flds + 1
unfolding combine
length-combine key value [] = omega arith
length-combine key value ((k, v) ∷ flds) = elim (Bool-cases (bytes_eq k key)) [
  | inl same ↦ rw same (omega arith)
  | inr other ↦ let rest = length-combine key value flds in rw other (omega (arith, rest))
]

find-combine_other :
    (name key value : Bytes) (flds : Fields)
    → bytes_eq key name ≡ false
    → find_field name (combine key value flds) ≡ find_field name flds
unfolding combine find_field
find-combine_other name key value [] ne = rw ne refl
find-combine_other name key value ((k, v) ∷ flds) ne = elim (Bool-cases (bytes_eq k key)) [
  | inl same ↦
      let other : bytes_eq k name ≡ false =
        ap (λ t. bytes_eq t name) (bytes_eq→eq k key same) ∙ ne in
      rw (same, other) refl
  | inr other ↦ rw other (elim (Bool-cases (bytes_eq k name)) [
    | inl at ↦ rw at refl
    | inr off ↦ rw off (find-combine_other name key value flds ne)
  ])
]

find-combine_new :
    (key value : Bytes) (flds : Fields)
    → find_field key flds ≡ none
    → find_field key (combine key value flds) ≡ some value
unfolding combine find_field
find-combine_new key value [] e = rw (bytes_eq_refl key) refl
find-combine_new key value ((k, v) ∷ flds) e = elim (Bool-cases (bytes_eq k key)) [
  | inl same ↦ cc (e, same)
  | inr other ↦
      let e' : find_field key flds ≡ none = rw other at e in
      rw (other, other) (find-combine_new key value flds e')
]

find-combine_there :
    (key value : Bytes) (flds : Fields) → is_there (find_field key (combine key value flds)) ≡ true
unfolding combine find_field
find-combine_there key value [] = rw (bytes_eq_refl key) refl
find-combine_there key value ((k, v) ∷ flds) = elim (Bool-cases (bytes_eq k key)) [
  | inl same ↦ rw (same, same) refl
  | inr other ↦ rw (other, other) (find-combine_there key value flds)
]

-- The members of the parser are those that the fields call for.
pub record Announced (p : HttpRequestParser) (flds : Fields) : Type 0 where
  pub chunked_there : p.m_chunked ≡ is_there (find_field encoding_name flds)
  pub length_there : p.m_has_content_length ≡ is_there (find_field length_name flds)
  pub unset : p.m_has_content_length ≡ false → p.m_content_length ≡ 0
  pub value_of :
      (v : Bytes)
      → find_field length_name flds ≡ some v
      → content_length_of v ≡ ok p.m_content_length

pub initial-Announced : Announced initial []
unfolding find_field
initial-Announced = record {
  chunked_there = refl;
  length_there = refl;
  unset = λ _. refl;
  value_of = λ v x. cc;
}

-- The members that frame the body.
pub record SameFraming (p q : HttpRequestParser) : Type 0 where
  pub same_chunked : q.m_chunked ≡ p.m_chunked
  pub same_has : q.m_has_content_length ≡ p.m_has_content_length
  pub same_length : q.m_content_length ≡ p.m_content_length

option-SameFraming : (p : HttpRequestParser) (o : Bytes) → SameFraming p (connection_option p o)
unfolding connection_option
option-SameFraming p o = ground arith

options-SameFraming :
    (p : HttpRequestParser) (os : List Bytes) → SameFraming p (foldl connection_option p os)
options-SameFraming p [] = ground arith
options-SameFraming p (o ∷ os) =
    ground (arith, option-SameFraming p o, options-SameFraming (connection_option p o) os)

pub same-Announced :
    (p q : HttpRequestParser) (flds : Fields)
    → SameFraming p q
    → Announced p flds
    → Announced q flds
same-Announced p q flds s a = record {
  chunked_there = s.same_chunked ∙ a.chunked_there;
  length_there = s.same_has ∙ a.length_there;
  unset = λ e. s.same_length ∙ a.unset (sym s.same_has ∙ e);
  value_of = λ v e. a.value_of v e ∙ ap ok (sym s.same_length);
}

other-Announced :
    (p : HttpRequestParser) (key value : Bytes) (flds : Fields)
    → bytes_eq key length_name ≡ false
    → bytes_eq key encoding_name ≡ false
    → Announced p flds
    → Announced p (combine key value flds)
other-Announced p key value flds no_length no_encoding a = record {
  chunked_there =
      a.chunked_there
      ∙ ap is_there (sym (find-combine_other encoding_name key value flds no_encoding));
  length_there =
      a.length_there ∙ ap is_there (sym (find-combine_other length_name key value flds no_length));
  unset = a.unset;
  value_of =
      λ v e. a.value_of v (sym (find-combine_other length_name key value flds no_length) ∙ e);
}

not_there : (o : Option Bytes) → is_there o ≡ false → o ≡ none
not_there none e = refl
not_there (some v) e = cc

some_value : (v w : Bytes) → ◌≡◌ {A = Option Bytes} (some v) (some w) → v ≡ w
some_value v w e = ground arith

-- The fields after a field was read, where `stored` says whether it is kept.
abbrev with_field : Bytes → Bytes → Bool → Fields → Fields
with_field key value true flds = combine key value flds
with_field key value false flds = flds

content_length-Announced :
    (value : Bytes) (p : HttpRequestParser) (flds : Fields) (r : HttpRequestParser × Bool)
    → Announced p flds
    → content_length_field value p ≡ ok r
    → Announced r.0 (with_field length_name value r.1 flds)
unfolding content_length_field
content_length-Announced value p flds r a e = elim (Result-cases (content_length_of value)) [
  | inr nope ↦ absurd (grind arith)
  | inl (n, read) ↦ elim (Bool-cases p.m_has_content_length) [
    | inl before ↦ let same : r ≡ (p, false) = ground (arith, e, read, before) in rw same a
    | inr first ↦
        let q : HttpRequestParser = record p {
          m_has_content_length = true;
          m_content_length = n;
        } in
        let same : r ≡ (q, true) = ground (arith, e, read, first) in
        let absent = not_there (find_field length_name flds) (sym a.length_there ∙ first) in
        let found = find-combine_new length_name value flds absent in
        rw same (record {
          chunked_there =
              a.chunked_there
              ∙ ap is_there (sym (find-combine_other encoding_name length_name value flds refl));
          length_there = ap is_there (sym found);
          unset = λ x. cc;
          value_of = λ v x. rw (some_value value v (sym found ∙ x)) at read;
        })
  ]
]

encoding-Announced :
    (value : Bytes) (p : HttpRequestParser) (flds : Fields) (r : HttpRequestParser × Bool)
    → Announced p flds
    → transfer_encoding_field value p ≡ ok r
    → Announced r.0 (with_field encoding_name value r.1 flds)
unfolding transfer_encoding_field
encoding-Announced value p flds r a e =
    let same : r ≡ (record p { m_chunked = true }, true) = ground (arith, e) in
    rw same (record {
      chunked_there = sym (find-combine_there encoding_name value flds);
      length_there =
          a.length_there
          ∙ ap is_there (sym (find-combine_other length_name encoding_name value flds refl));
      unset = a.unset;
      value_of = λ v x.
          a.value_of v (sym (find-combine_other length_name encoding_name value flds refl) ∙ x);
    })

known_field-Announced :
    (key value : Bytes) (p : HttpRequestParser) (flds : Fields) (r : HttpRequestParser × Bool)
    → Announced p flds
    → known_field key value p ≡ ok r
    → Announced r.0 (with_field key value r.1 flds)
unfolding known_field connection_field
known_field-Announced key value p flds r a e = elim (Bool-cases (bytes_eq key length_name)) [
  | inl at_length ↦
      rw (bytes_eq→eq key length_name at_length)
        (content_length-Announced value p flds r a (rw at_length at e))
  | inr no_length ↦ elim (Bool-cases (bytes_eq key encoding_name)) [
    | inl at_encoding ↦
        rw (bytes_eq→eq key encoding_name at_encoding)
          (encoding-Announced value p flds r a (rw (no_length, at_encoding) at e))
    | inr no_encoding ↦
        let others = other-Announced p key value flds no_length no_encoding a in
        let q = foldl connection_option p (tokens value) in
        elim (Bool-cases (bytes_eq key (codes "Connection"))) [
          | inl connection ↦
              let same : r ≡ (q, true) = ground (arith, e, no_length, no_encoding, connection) in
              rw same (
                same-Announced p q (combine key value flds) (options-SameFraming p (tokens value))
                  others)
          | inr other ↦
              let same : r ≡ (p, true) = ground (arith, e, no_length, no_encoding, other) in
              rw same others
        ]
  ]
]

abbrev after_field : Bytes → Bytes → HttpRequestParser × Bool → Request → State
after_field key value r req =
    if r.1 then (r.0, record req { fields = combine key value req.fields }) else (r.0, req)

with_field-if :
    (key value : Bytes) (r : HttpRequestParser × Bool) (req : Request)
    → after_field key value r req
      ≡ (r.0, record req { fields = with_field key value r.1 req.fields })
with_field-if key value (p, true) req = refl
with_field-if key value (p, false) req = refl

length-with_field :
    (key value : Bytes) (stored : Bool) (flds : Fields)
    → length (with_field key value stored flds) ≤ length flds + 1
length-with_field key value true flds = length-combine key value flds
length-with_field key value false flds = omega arith

-- A field line adds one field at most, and the members of the parser follow.
pub header_field_parts-Announced :
    (name value : Bytes) (s s' : State)
    → Announced s.0 s.1.fields
    → header_field_parts name value s ≡ ok s'
    → Announced s'.0 s'.1.fields × (length s'.1.fields ≤ length s.1.fields + 1)
unfolding header_field_parts
header_field_parts-Announced name value (p, req) s' a e =
    let key = canonical_name name in
    elim (Result-cases (known_field key value p)) [
      | inl (r, known) ↦
          let same : after_field key value r req ≡ s' = ground (arith, e, known) in
          subst (λ t. Announced t.0 t.1.fields × (length t.1.fields ≤ length req.fields + 1))
            (sym (with_field-if key value r req) ∙ same)
            (
              known_field-Announced key value p req.fields r a known,
              length-with_field key value r.1 req.fields,
            )
      | inr nope ↦ absurd (grind arith)
    ]
