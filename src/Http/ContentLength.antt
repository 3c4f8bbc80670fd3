-- ===== src/Http/ContentLength.antt =====
-- include/dracon/http.h: request::content_length, with the C library's strtoull in base 10.
use dracon.Prelude.{
  ℕ, ◌+◌, ◌-◌, ◌*◌, ◌^◌, ◌%◌, Bool, true, false, ◌&&◌, ◌||◌, [], ◌∷◌, Option, none, some, Bytes,
  codes, leb, ◌==◌, if◌then◌else◌, is_empty, bytes_eq,
}
use dracon.Http.Request.{Fields, Request, chunked_data}

unfoldable pub find_field : Bytes → Fields → Option Bytes
find_field name [] = none
find_field name ((k, v) ∷ flds) = if bytes_eq k name then some v else find_field name flds

-- The digits at the front: how many there are, their value, and what stands behind them.
unfoldable pub decimal : ℕ → ℕ → Bytes → ℕ × ℕ × Bytes
decimal count value [] = (count, value, [])
decimal count value (c ∷ str) =
    if leb b'0' c && leb c b'9'
    then decimal (count + 1) (value * 10 + (c - b'0')) str
    else (count, value, c ∷ str)

abbrev is_space : ℕ → Bool
is_space c = c == b' ' || (leb 9 c && leb c 13)

unfoldable pub skip_space : Bytes → Bytes
skip_space [] = []
skip_space (c ∷ str) = let rest = skip_space str in if is_space c then rest else c ∷ str

-- The value is the greatest one where it does not fit, and negated behind a minus sign.
unfoldable pub unsigned_number : Bool → Bytes → Bytes → ℕ × Bytes
unfolding decimal
unsigned_number negative str start =
    let (count, value, behind) = decimal 0 0 str in
    if count == 0
    then (0, start)
    else if leb (2 ^ 64) value
    then (2 ^ 64 - 1, behind)
    else if negative
    then ((2 ^ 64 - value) % 2 ^ 64, behind)
    else (value, behind)

abbrev signed : Bytes → Bytes → ℕ × Bytes
signed start [] = unsigned_number false [] start
signed start (c ∷ str) =
    if c == b'-'
    then unsigned_number true str start
    else if c == b'+'
    then unsigned_number false str start
    else unsigned_number false (c ∷ str) start

-- The number, and what stands behind it.
unfoldable pub strtoull : Bytes → ℕ × Bytes
unfolding skip_space unsigned_number
strtoull start = signed start (skip_space start)

unfoldable pub content_length : Request → ℕ
unfolding find_field
content_length req = elim (find_field (codes "Content-Length") req.fields) [
  | none ↦ chunked_data
  | some value ↦ if is_empty (strtoull value).1 then (strtoull value).0 else chunked_data
]
