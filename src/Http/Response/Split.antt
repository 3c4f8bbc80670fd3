-- ===== src/Http/Response/Split.antt =====
-- A response cannot be split: a client reads the lines that were meant, whatever the fields hold.
use dracon.Prelude.{
  ℕ, ◌≢◌, zero, suc, ◌-◌, ◌/◌, ◌≡◌, ◌∙◌, refl, sym, ap, arith, Bool, true, false, List, [], ◌∷◌,
  ◌++◌, none, some, Bytes, codes, ltb, ◌==◌, if◌then◌else◌, length, find, is_empty, take,
  Bool-cases, inl, inr, append_assoc, drop-length,
}
use dracon.Http.Request.{Fields, chunked_data}
use dracon.Http.Response.{
  Response, Seconds, pos, negsuc, status_code_string, header_part, number, is_computed, field_lines,
  status_of, informational, body_less, length_line, connection_lines, is_unset, to_string,
}
use dracon.Http.Response.Reading.{
  AreLines, join_lines, count, read_head, read_head-line, read_head-join_lines,
  status_code_string-IsStatus, keep,
}
use dracon.HttpParser.Lines.{find-append_none, next_line-append}

-- The lines that are meant: one for each field that `to_string` does not compute itself.
unfoldable pub kept_lines : Fields → List Bytes
kept_lines [] = []
kept_lines ((name, value) ∷ flds) =
    if is_computed name
    then kept_lines flds
    else (header_part name ++ (codes ": " ++ header_part value)) ∷ kept_lines flds

unfoldable pub length_lines : Response → List Bytes
length_lines res =
    if body_less (status_of res)
    then []
    else if res.m_content_length == chunked_data
    then codes "Transfer-Encoding: chunked" ∷ []
    else (codes "Content-Length: " ++ number 20 res.m_content_length) ∷ []

unfoldable pub keep_lines : Seconds → List Bytes
keep_lines (pos (suc n)) =
    (codes "Keep-Alive: timeout=" ++ number 20 (suc n)) ∷ codes "Connection: keep-alive" ∷ []
keep_lines (pos zero) = codes "Connection: close" ∷ []
keep_lines (negsuc n) = codes "Connection: close" ∷ []

header_part-no-lf : (part : Bytes) → find b'\n' (header_part part) ≡ none
unfolding header_part
header_part-no-lf [] = refl
header_part-no-lf (c ∷ part) = ground (arith, header_part-no-lf part)

number-no-lf : (f n : ℕ) → find b'\n' (number f n) ≡ none
unfolding number
number-no-lf zero n = refl
number-no-lf (suc f) n = elim (Bool-cases (ltb n 10)) [
  | inl small ↦ rw small (ground arith)
  | inr large ↦
      rw large
        (find-append_none b'\n' (number f (n / 10)) _ (number-no-lf f (n / 10)) (ground arith))
]

is_empty-append : (xs : Bytes) (c : ℕ) (ys : Bytes) → is_empty (xs ++ (c ∷ ys)) ≡ false
is_empty-append [] c ys = refl
is_empty-append (x ∷ xs) c ys = refl

kept_lines-AreLines : (flds : Fields) → AreLines (kept_lines flds)
unfolding kept_lines
kept_lines-AreLines [] = tt
kept_lines-AreLines ((name, value) ∷ flds) = elim (Bool-cases (is_computed name)) [
  | inl e ↦ rw e (kept_lines-AreLines flds)
  | inr e ↦ rw e (
    (
      find-append_none b'\n' (header_part name) _ (header_part-no-lf name)
          (find-append_none b'\n' (codes ": ") (header_part value) refl (header_part-no-lf value)),
      is_empty-append (header_part name) b':' _,
    ),
    kept_lines-AreLines flds,
  )
]

field_lines-kept : (flds : Fields) → field_lines flds ≡ join_lines (kept_lines flds)
unfolding field_lines kept_lines
field_lines-kept [] = refl
field_lines-kept ((name, value) ∷ flds) = elim (Bool-cases (is_computed name)) [
  | inl e ↦ rw e (field_lines-kept flds)
  | inr e ↦ rw (e, append_assoc, append_assoc, field_lines-kept flds) refl
]

length_lines-AreLines : (res : Response) → AreLines (length_lines res)
unfolding length_lines
length_lines-AreLines res = elim (Bool-cases (body_less (status_of res))) [
  | inl e ↦ rw e tt
  | inr e ↦ elim (Bool-cases (res.m_content_length == chunked_data)) [
    | inl c ↦ rw (e, c) ((refl, refl), tt)
    | inr c ↦
        rw (e, c)
          (
            (
              find-append_none b'\n' (codes "Content-Length: ") (number 20 res.m_content_length)
                  refl (number-no-lf 20 res.m_content_length),
              refl,
            ),
            tt,
          )
  ]
]

keep_lines-AreLines : (keep_alive : Seconds) → AreLines (keep_lines keep_alive)
unfolding keep_lines
keep_lines-AreLines (pos (suc n)) = (
  (
    find-append_none b'\n' (codes "Keep-Alive: timeout=") (number 20 (suc n)) refl
        (number-no-lf 20 (suc n)),
    refl,
  ),
  ((refl, refl), tt),
)
keep_lines-AreLines (pos zero) = ((refl, refl), tt)
keep_lines-AreLines (negsuc n) = ((refl, refl), tt)

AreLines-append : (ls ms : List Bytes) → AreLines ls → AreLines ms → AreLines (ls ++ ms)
AreLines-append [] ms a b = b
AreLines-append (x ∷ ls) ms a b = (a.0, AreLines-append ls ms a.1 b)

join_lines-append : (ls ms : List Bytes) → join_lines (ls ++ ms) ≡ join_lines ls ++ join_lines ms
join_lines-append [] ms = refl
join_lines-append (x ∷ ls) ms =
    ap (λ t. x ++ (b'\r' ∷ b'\n' ∷ t)) (join_lines-append ls ms)
    ∙ sym (append_assoc x (b'\r' ∷ b'\n' ∷ join_lines ls) (join_lines ms))

length_line-lines :
    (res : Response)
    → (if body_less (status_of res) then [] else length_line res) ≡ join_lines (length_lines res)
unfolding length_line length_lines
length_line-lines res = elim (Bool-cases (body_less (status_of res))) [
  | inl e ↦ rw e refl
  | inr e ↦ elim (Bool-cases (res.m_content_length == chunked_data)) [
    | inl c ↦ rw (e, c) refl
    | inr c ↦ rw (e, c) refl
  ]
]

connection_lines-keep :
    (keep_alive : Seconds) → connection_lines keep_alive ≡ join_lines (keep_lines keep_alive)
unfolding connection_lines keep_lines
connection_lines-keep (pos (suc n)) = refl
connection_lines-keep (pos zero) = refl
connection_lines-keep (negsuc n) = refl

-- The keep alive that counts.
abbrev pub effective : Seconds → Response → Seconds
effective keep_alive_override res =
    if is_unset keep_alive_override then res.m_keep_alive else keep_alive_override

informed_lines : Bool → Seconds → List Bytes
informed_lines true keep_alive = []
informed_lines false keep_alive = keep_lines keep_alive

-- All lines behind the status line.
unfoldable pub header_lines : Seconds → Response → List Bytes
unfolding informed_lines
header_lines keep_alive_override res =
    kept_lines res.fields
    ++ (length_lines res
        ++ informed_lines (informational (status_of res)) (effective keep_alive_override res))

unfoldable pub sent_body : Response → Bytes
sent_body res = if body_less (status_of res) then [] else res.m_body

abbrev pub status_line : Response → Bytes
status_line res =
    let text = status_code_string (status_of res) in
    codes "HTTP/1.1 " ++ take (length text - 2) text

informed_lines-AreLines : (b : Bool) (k : Seconds) → AreLines (informed_lines b k)
unfolding informed_lines
informed_lines-AreLines true k = tt
informed_lines-AreLines false k = keep_lines-AreLines k

informed_lines-text :
    (b : Bool) (k : Seconds)
    → (if b then [] else connection_lines k) ≡ join_lines (informed_lines b k)
unfolding informed_lines
informed_lines-text true k = refl
informed_lines-text false k = connection_lines-keep k

header_lines-AreLines : (o : Seconds) (res : Response) → AreLines (header_lines o res)
unfolding header_lines
header_lines-AreLines o res =
    AreLines-append (kept_lines res.fields) _ (kept_lines-AreLines res.fields) (
      AreLines-append (length_lines res) _ (length_lines-AreLines res)
        (informed_lines-AreLines (informational (status_of res)) (effective o res)))

regroup :
    (text fields len keep behind : Bytes)
    → text ++ (fields ++ (len ++ (keep ++ behind))) ≡ text ++ ((fields ++ (len ++ keep)) ++ behind)
regroup text fields len keep behind = rw (append_assoc, append_assoc) refl

header_lines-text :
    (o : Seconds) (res : Response)
    → field_lines res.fields
        ++ ((if body_less (status_of res) then [] else length_line res)
            ++ (if informational (status_of res) then [] else connection_lines (effective o res)))
      ≡ join_lines (header_lines o res)
unfolding header_lines
header_lines-text o res =
    let ls = kept_lines res.fields in
    let ms = length_lines res in
    let ns = informed_lines (informational (status_of res)) (effective o res) in
    rw
      (
        field_lines-kept res.fields,
        length_line-lines res,
        informed_lines-text (informational (status_of res)) (effective o res),
        join_lines-append ls (ms ++ ns),
        join_lines-append ms ns,
      )
      refl

to_string-lines :
    (o : Seconds) (res : Response)
    → to_string o res
      ≡ (codes "HTTP/1.1 " ++ status_code_string (status_of res))
        ++ (join_lines (header_lines o res) ++ (b'\r' ∷ b'\n' ∷ sent_body res))
unfolding to_string header_lines sent_body
to_string-lines o res =
    let text = status_code_string (status_of res) in
    let behind = b'\r' ∷ b'\n' ∷ sent_body res in
    ap (λ t. codes "HTTP/1.1 " ++ t)
      (regroup text (field_lines res.fields)
          (if body_less (status_of res) then [] else length_line res)
          (if informational (status_of res) then [] else connection_lines (effective o res)) behind
        ∙ ap (λ t. text ++ (t ++ behind)) (header_lines-text o res))

-- No response but a 204 can be split: a client that reads the output of to_string line by line up to
-- the empty line gets the status line, one line for each field that to_string does not compute
-- itself, with every CR, LF and NUL in it replaced, and the computed lines, in this order and no
-- other; and behind the empty line exactly the body. So it is for every other status, also an
-- unknown one, every names and values of fields, and every keep alive.
pub to_string-read_head :
    (keep_alive_override : Seconds) (res : Response)
    → status_of res ≢ 204
    → read_head
        (suc (suc (count (header_lines keep_alive_override res))))
        (to_string keep_alive_override res)
      ≡ some (status_line res ∷ header_lines keep_alive_override res, sent_body res)
to_string-read_head o res other =
    let ls = header_lines o res in
    let text = codes "HTTP/1.1 " ++ status_code_string (status_of res) in
    let behind = join_lines ls ++ (b'\r' ∷ b'\n' ∷ sent_body res) in
    ap (read_head (suc (suc (count ls)))) (to_string-lines o res)
    ∙ read_head-line (suc (count ls)) (status_line res) (length text) (text ++ behind)
        (next_line-append text behind _ (status_code_string-IsStatus (status_of res))) refl
    ∙ ap (λ t. keep (status_line res) (read_head (suc (count ls)) t)) (drop-length text behind)
    ∙ ap (keep (status_line res))
        (read_head-join_lines ls (sent_body res) (header_lines-AreLines o res))
