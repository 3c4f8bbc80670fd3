-- ===== src/HttpParser/Detail.antt =====
-- src/server/http_parser.h, namespace http_parser_detail: the character classes and the functions
-- on text that the request parser is made of.
use dracon.Prelude.{
  ℕ, suc, ◌+◌, ◌-◌, Bool, true, false, not, ◌&&◌, ◌||◌, List, [], ◌∷◌, map, Option, none, some,
  Bytes, leb, ltb, ◌==◌, if◌then◌else◌, is_empty, all, find, take,
}

pub data CharClass : Type 0 where
  token_char target_char value_char hex_char : CharClass

abbrev pub within : ℕ → ℕ → ℕ → Bool
within lo hi c = leb lo c && leb c hi

abbrev pub is_digit : ℕ → Bool
is_digit = within b'0' b'9'

-- The punctuation of a token.
abbrev is_mark : ℕ → Bool
is_mark c =
    c == b'!'
    || c == b'#'
    || c == b'$'
    || c == b'%'
    || c == b'&'
    || c == 39
    || c == b'*'
    || c == b'+'
    || c == b'-'
    || c == b'.'
    || c == b'^'
    || c == b'_'
    || c == b'`'
    || c == b'|'
    || c == b'~'

-- `char_table[c] & char_class`: whether `make_char_table` sets the bit of the class for `c`.
unfoldable pub char_table : ℕ → CharClass → Bool
char_table c token_char = within b'a' b'z' c || within b'A' b'Z' c || is_digit c || is_mark c
char_table c target_char = ltb 0x20 c && ltb c 0x7f
char_table c value_char = c == b'\t' || (leb 0x20 c && not (c == 0x7f))
char_table c hex_char = is_digit c || within b'a' b'f' c || within b'A' b'F' c

abbrev pub all_chars : Bytes → CharClass → Bool
all_chars str cls = all (λ c. char_table c cls) str

unfoldable pub to_lower_ascii : ℕ → ℕ
to_lower_ascii c = if within b'A' b'Z' c then c + 32 else c

unfoldable pub to_upper_ascii : ℕ → ℕ
to_upper_ascii c = if within b'a' b'z' c then c - 32 else c

-- The value of a hexadecimal digit; meant for the class `hex_char` only.
unfoldable pub hex_value : ℕ → ℕ
unfolding to_lower_ascii
hex_value c = if leb c b'9' then c - b'0' else to_lower_ascii c - b'a' + 10

unfoldable pub iequals : Bytes → Bytes → Bool
unfolding to_lower_ascii
iequals [] [] = true
iequals (x ∷ a) (y ∷ b) = to_lower_ascii x == to_lower_ascii y && iequals a b
iequals _ _ = false

abbrev pub is_ows : ℕ → Bool
is_ows c = c == b' ' || c == b'\t'

-- `remove_prefix(1)` while the front is white.
unfoldable pub trim_front : Bytes → Bytes
trim_front [] = []
trim_front (c ∷ str) = if is_ows c then trim_front str else c ∷ str

-- `remove_suffix(1)` while the back is white.
unfoldable pub trim_back : Bytes → Bytes
trim_back [] = []
trim_back (c ∷ str) = let rest = trim_back str in if is_empty rest && is_ows c then [] else c ∷ rest

unfoldable pub trim_ows : Bytes → Bytes
unfolding trim_front trim_back
trim_ows str = trim_back (trim_front str)

push_front : ℕ → List Bytes → List Bytes
push_front c [] = (c ∷ []) ∷ []
push_front c (p ∷ ps) = (c ∷ p) ∷ ps

-- The text between separators, empty pieces included.
unfoldable pub pieces : ℕ → Bytes → List Bytes
unfolding push_front
pieces ch [] = [] ∷ []
pieces ch (c ∷ str) = if c == ch then [] ∷ pieces ch str else push_front c (pieces ch str)

drop_empty : List Bytes → List Bytes
drop_empty [] = []
drop_empty (p ∷ ps) = if is_empty p then drop_empty ps else p ∷ drop_empty ps

-- `for_each_token`: the arguments of the calls of `fn`, in order.
unfoldable pub tokens : Bytes → List Bytes
unfolding pieces drop_empty trim_ows
tokens value = drop_empty (map trim_ows (pieces b',' value))

-- The loop of `canonical_name`, with its flag `upper`.
unfoldable pub canonical_from : Bool → Bytes → Bytes
unfolding to_upper_ascii to_lower_ascii
canonical_from upper [] = []
canonical_from upper (c ∷ name) =
    (if upper then to_upper_ascii c else to_lower_ascii c) ∷ canonical_from (c == b'-') name

unfoldable pub canonical_name : Bytes → Bytes
unfolding canonical_from
canonical_name = canonical_from true

-- A line, and where the next one starts, counted from where this one does.
pub record Line : Type 0 where
  pub text : Bytes
  pub next : ℕ

-- The line without its terminator: one '\r' goes if it stands right before the '\n'.
unfoldable pub strip_cr : Bytes → Bytes
strip_cr [] = []
strip_cr (c ∷ []) = if c == b'\r' then [] else c ∷ []
strip_cr (c ∷ d ∷ str) = c ∷ strip_cr (d ∷ str)

-- `next_line(data, pos, line)`, where the argument is `data` from `pos` on.
unfoldable pub next_line : Bytes → Option Line
unfolding strip_cr
next_line rest = elim (find b'\n' rest) [
  | none ↦ none
  | some lf ↦ some (record { text = strip_cr (take lf rest); next = suc lf })
]
