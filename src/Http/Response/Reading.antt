-- ===== src/Http/Response/Reading.antt =====
-- How a client reads a response: line by line up to the empty line, then the body.
use dracon.Prelude.{
  ℕ, zero, suc, ◌+◌, ◌-◌, ◌≡◌, ◌∙◌, refl, sym, ap, subst, arith, true, false, List, [], ◌∷◌, ◌++◌,
  Option, none, some, Bytes, codes, ltb, ◌==◌, if◌then◌else◌, length, find, is_empty, drop, take,
  Bool-cases, Option-cases, inl, inr, append_assoc,
}
use dracon.Http.Response.{status_codes, lower_bound, status_code_string, internal_error}
use dracon.HttpParser.Detail.{next_line, strip_cr}
use dracon.HttpParser.Lines.{next_line_crlf}

abbrev http_version : Bytes
http_version = codes "HTTP/1.1 "

-- The text is one line with its terminator, also behind the version.
abbrev IsStatus : Bytes → Type 0
IsStatus text =
    next_line (http_version ++ text)
    ≡ some (record {
      text = http_version ++ take (length text - 2) text;
      next = length (http_version ++ text);
    })

abbrev AllStatus : List (ℕ × Bytes) → Type 0
AllStatus [] = Unit
AllStatus (e ∷ es) = IsStatus e.1 × AllStatus es

status_codes-AllStatus : AllStatus status_codes
unfolding status_codes next_line strip_cr
status_codes-AllStatus = (
  refl,
  (
    refl,
    (
      refl,
      (
        refl,
        (
          refl,
          (
            refl,
            (
              refl,
              (
                refl,
                (
                  refl,
                  (
                    refl,
                    (
                      refl,
                      (
                        refl,
                        (
                          refl,
                          (
                            refl,
                            (
                              refl,
                              (
                                refl,
                                (
                                  refl,
                                  (
                                    refl,
                                    (
                                      refl,
                                      (
                                        refl,
                                        (
                                          refl,
                                          (
                                            refl,
                                            (
                                              refl,
                                              (
                                                refl,
                                                (
                                                  refl,
                                                  (
                                                    refl,
                                                    (
                                                      refl,
                                                      (
                                                        refl,
                                                        (
                                                          refl,
                                                          (
                                                            refl,
                                                            (
                                                            refl,
                                                            (
                                                            refl,
                                                            (
                                                            refl,
                                                            (
                                                            refl,
                                                            (
                                                            refl,
                                                            (
                                                            refl,
                                                            (
                                                            refl,
                                                            (
                                                            refl,
                                                            (refl, (refl, (refl, (refl, tt)))),
                                                            ),
                                                            ),
                                                            ),
                                                            ),
                                                            ),
                                                            ),
                                                            ),
                                                            ),
                                                          ),
                                                        ),
                                                      ),
                                                    ),
                                                  ),
                                                ),
                                              ),
                                            ),
                                          ),
                                        ),
                                      ),
                                    ),
                                  ),
                                ),
                              ),
                            ),
                          ),
                        ),
                      ),
                    ),
                  ),
                ),
              ),
            ),
          ),
        ),
      ),
    ),
  ),
)

same : {A : Type 0} (x e : A) → some x ≡ some e → x ≡ e
same x e h = cc

lower_bound-IsStatus :
    (status : ℕ) (es : List (ℕ × Bytes)) (e : ℕ × Bytes)
    → AllStatus es
    → lower_bound status es ≡ some e
    → IsStatus e.1
lower_bound-IsStatus status [] e a h = cc
lower_bound-IsStatus status (x ∷ es) e a h = elim (Bool-cases (ltb x.0 status)) [
  | inl below ↦ lower_bound-IsStatus status es e a.1 (rw below at h)
  | inr here ↦ subst (λ t. IsStatus t.1) (same x e (rw here at h)) a.0
]

internal_error-IsStatus : IsStatus internal_error
unfolding next_line strip_cr
internal_error-IsStatus = refl

unknown :
    (status : ℕ)
    → lower_bound status status_codes ≡ none
    → status_code_string status ≡ internal_error
unfolding status_code_string
unknown status e = rw (e, status_code_string) refl

known :
    (status : ℕ) (entry : ℕ × Bytes)
    → lower_bound status status_codes ≡ some entry
    → (entry.0 == status) ≡ true
    → status_code_string status ≡ entry.1
unfolding status_code_string
known status entry e is_it = rw (e, status_code_string, is_it) refl

between :
    (status : ℕ) (entry : ℕ × Bytes)
    → lower_bound status status_codes ≡ some entry
    → (entry.0 == status) ≡ false
    → status_code_string status ≡ internal_error
unfolding status_code_string
between status entry e other = rw (e, status_code_string, other) refl

pub status_code_string-IsStatus : (status : ℕ) → IsStatus (status_code_string status)
status_code_string-IsStatus status = elim (Option-cases (lower_bound status status_codes)) [
  | inl e ↦ subst IsStatus (sym (unknown status e)) internal_error-IsStatus
  | inr (entry, e) ↦
      let found = lower_bound-IsStatus status status_codes entry status_codes-AllStatus e in
      elim (Bool-cases (entry.0 == status)) [
        | inl is_it ↦ subst IsStatus (sym (known status entry e is_it)) found
        | inr other ↦ subst IsStatus (sym (between status entry e other)) internal_error-IsStatus
      ]
]

abbrev line_end : Bytes
line_end = b'\r' ∷ b'\n' ∷ []

abbrev pub keep : Bytes → Option (List Bytes × Bytes) → Option (List Bytes × Bytes)
keep l none = none
keep l (some (ls, behind)) = some (l ∷ ls, behind)

-- The lines up to the empty one, and what stands behind it.
unfoldable pub read_head : ℕ → Bytes → Option (List Bytes × Bytes)
read_head zero input = none
read_head (suc fuel) input = elim (next_line input) [
  | none ↦ none
  | some line ↦
      if is_empty line.text
      then some ([], drop line.next input)
      else keep line.text (read_head fuel (drop line.next input))
]

-- No line feed in any line, and no line empty.
abbrev pub AreLines : List Bytes → Type 0
AreLines [] = Unit
AreLines (l ∷ ls) = ((find b'\n' l ≡ none) × (is_empty l ≡ false)) × AreLines ls

abbrev pub join_lines : List Bytes → Bytes
join_lines [] = []
join_lines (l ∷ ls) = l ++ (line_end ++ join_lines ls)

abbrev pub count : List Bytes → ℕ
count [] = 0
count (l ∷ ls) = suc (count ls)

drop_line : (l rest : Bytes) → drop (length l + 2) (l ++ (line_end ++ rest)) ≡ rest
drop_line [] rest = refl
drop_line (x ∷ l) rest =
    let one_more : length (x ∷ l) + 2 ≡ suc (length l + 2) = omega arith in
    rw one_more (drop_line l rest)

pub read_head-line :
    (fuel : ℕ) (text : Bytes) (n : ℕ) (input : Bytes)
    → next_line input ≡ some (record { text = text; next = n })
    → is_empty text ≡ false
    → read_head (suc fuel) input ≡ keep text (read_head fuel (drop n input))
unfolding read_head
read_head-line fuel text n input e more = rw (e, read_head, more) refl

pub read_head-join_lines :
    (ls : List Bytes) (rest : Bytes)
    → AreLines ls
    → read_head (suc (count ls)) (join_lines ls ++ (line_end ++ rest)) ≡ some (ls, rest)
unfolding read_head
read_head-join_lines [] rest a =
    let here : next_line (line_end ++ rest) ≡ some (record { text = []; next = 2 }) =
      next_line_crlf [] rest refl in
    rw (here, read_head) refl
read_head-join_lines (l ∷ ls) rest a =
    let behind = join_lines ls ++ (line_end ++ rest) in
    ap (read_head (suc (suc (count ls))))
      (append_assoc l (line_end ++ join_lines ls) (line_end ++ rest))
    ∙ read_head-line (suc (count ls)) l (length l + 2) (l ++ (line_end ++ behind))
        (next_line_crlf l behind a.0.0) a.0.1
    ∙ ap (λ t. keep l (read_head (suc (count ls)) t)) (drop_line l behind)
    ∙ ap (keep l) (read_head-join_lines ls rest a.1)
