-- ===== src/Stream/Hex.antt =====
-- The size that chunk_header writes is the size that parse_chunked reads.
use native.Mathlib.Nat.{pow-suc}
use dracon.Prelude.{
  ℕ, zero, suc, ◌+◌, ◌*◌, ◌/◌, ◌%◌, ◌^◌, ◌≤◌, ◌<◌, ◌≡◌, lt→ltb, ap, ◌∙◌, ltb→lt, arith, Bytes, [],
  ◌∷◌, ◌++◌, length, length-append, append_assoc, true, false, ltb, Bool-cases, inl, inr, ◌==◌,
}
use dracon.HttpParser.Detail.{char_table, hex_char, hex_value}
use dracon.HttpParser.Body.{hex_digits}
use dracon.Stream.Chunked.{hex_digit, to_chars_hex}

hex_digit-value : (k : ℕ) → k < 16 → hex_value (hex_digit k) ≡ k
unfolding hex_value hex_digit
hex_digit-value k h = ground arith

hex_digit-char : (k : ℕ) → k < 16 → char_table (hex_digit k) hex_char ≡ true
unfolding char_table hex_digit
hex_digit-char k h = ground arith

hex_step :
    (d v k : ℕ) (rest : Bytes)
    → k < 16
    → d < 16
    → v * 16 + k < 2 ^ 64
    → hex_digits d v (hex_digit k ∷ rest) ≡ hex_digits (d + 1) (v * 16 + k) rest
unfolding hex_digits
hex_step d v k rest h hd hv =
    let fits : (v * 16) % 2 ^ 64 ≡ v * 16 = omega (arith, hv) in
    let room : (d == 16) ≡ false = ground arith in
    rw (hex_digit-char k h, room, fits, hex_digit-value k h)

-- The digits of `n` are read one by one, up to what stands behind them.
abbrev Reads : ℕ → ℕ → Bytes → Bytes → Type 0
Reads limit n digits rest =
    (hex_digits 0 0 (digits ++ rest) ≡ hex_digits (length digits) n rest)
    × (0 < length digits)
    × (length digits ≤ limit)

Reads-one :
    (n limit : ℕ) (rest : Bytes) → n < 16 → 0 < limit → Reads limit n (hex_digit n ∷ []) rest
Reads-one n limit rest h l = (
  hex_step 0 0 n rest h (omega arith) (omega (arith, h))
      ∙ ap (λ k. hex_digits (0 + 1) k rest) (omega arith),
  omega arith,
  omega arith,
)

Reads-more :
    (n limit : ℕ) (high rest : Bytes)
    → n < 2 ^ 64
    → limit ≤ 15
    → Reads limit (n / 16) high (hex_digit (n % 16) ∷ rest)
    → Reads (suc limit) n (high ++ (hex_digit (n % 16) ∷ [])) rest
Reads-more n limit high rest h le (eq, pos, fits) =
    let one : length (high ++ (hex_digit (n % 16) ∷ [])) ≡ length high + 1 =
      length-append high (hex_digit (n % 16) ∷ []) in
    let whole : n / 16 * 16 + n % 16 ≡ n = omega arith in
    (
      rw (append_assoc, one)
          (eq
            ∙ hex_step (length high) (n / 16) (n % 16) rest (omega arith) (omega arith)
                (omega arith)
            ∙ ap (λ k. hex_digits (length high + 1) k rest) whole),
      omega arith,
      omega arith,
    )

pub to_chars_hex-read :
    (f n : ℕ) (rest : Bytes)
    → n < 2 ^ 64
    → f ≤ 15
    → n < 16 ^ suc f
    → Reads (suc f) n (to_chars_hex (suc f) n) rest
unfolding to_chars_hex
to_chars_hex-read zero n rest h le lt =
    let small : n < 16 = lt in rw (lt→ltb n 16 small) (Reads-one n 1 rest small (omega arith))
to_chars_hex-read (suc f) n rest h le lt = elim (Bool-cases (ltb n 16)) [
  | inl small ↦ rw small (Reads-one n (suc (suc f)) rest (ltb→lt n 16 small) (omega arith))
  | inr large ↦
      let bound : n < 16 ^ suc f * 16 = rw (pow-suc 16 (suc f)) at lt in
      rw large (
        Reads-more n (suc f) (to_chars_hex (suc f) (n / 16)) rest h (omega arith) (
          to_chars_hex-read f (n / 16) (hex_digit (n % 16) ∷ rest) (omega arith) (omega arith)
            (omega (arith, bound))))
]
