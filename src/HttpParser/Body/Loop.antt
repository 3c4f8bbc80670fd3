-- ===== src/HttpParser/Body/Loop.antt =====
-- The loop of `parse_chunked`: it ends, and it can be stopped and resumed anywhere.
use dracon.Prelude.{
  ℕ, suc, ◌+◌, ◌-◌, ◌*◌, ◌%◌, ◌^◌, ◌≤◌, ◌<◌, ◌≡◌, ◌≢◌, refl, ap, ◌∙◌, min, arith, Bytes, Bool, true,
  false, [], ◌∷◌, ◌++◌, length, take, Result, ok, fail, thrown, out_of_fuel, ◌>>=◌, Bool-cases,
  Option-cases, Result-cases, inl, inr, ◌⊎◌, leb, >>=-eq-ok, take_all, length-append, take-append,
  append-nil, take_past,
}
use dracon.Http.Request.{is_completed, append_body, processing_body}
use dracon.HttpParser.Detail.{next_line, hex_value}
use dracon.HttpParser.State.{State, Chunk, size, chunk_data, data_end, trailers, chunked}
use dracon.HttpParser.Lines.{next_line_bounds, next_line-append}
use dracon.HttpParser.Body.{
  deliver, hex_digits, chunk_size, size_turn, chunk_left, data_turn, data_end_turn, trailer_line,
  trailers_turn, chunk_case, chunked_turn,
}
use dracon.HttpParser.Body.Deliver.{deliver-Delivered, deliver-ne, deliver-append}
use dracon.Scanner.Defs.{again, stop}
use dracon.Scanner.Fuel.{IsScanner}
use dracon.Scanner.Append.{IsResumable, after_result}

-- A chunked body is being read.
abbrev pub Underway : State → Type 0
Underway s = (s.0.m_body ≡ chunked) × (s.1.m_state ≡ processing_body)

-- Inside a chunk some of it is still expected, and the message is not complete.
pub record ChunkInv (s : State) : Type 0 where
  pub expects : s.0.m_chunk ≡ chunk_data → 0 < s.0.m_remaining
  pub underway : Underway s

hex_digits-ne : (d v : ℕ) (text : Bytes) → hex_digits d v text ≢ out_of_fuel
unfolding hex_digits
hex_digits-ne d v [] = ground arith
hex_digits-ne d v (c ∷ text) =
    ground (arith, hex_digits-ne (d + 1) ((v * 16) % 2 ^ 64 + hex_value c) text)

chunk_size-ne : (text : Bytes) → chunk_size text ≢ out_of_fuel
unfolding chunk_size
chunk_size-ne text = ground (arith, hex_digits-ne 0 0 text)

chunk_case-ne : (c : Chunk) (s : State) (rest : Bytes) → chunk_case c s rest ≢ out_of_fuel
unfolding chunk_case size_turn data_turn data_end_turn trailers_turn trailer_line
chunk_case-ne size s rest = elim (Option-cases (next_line rest)) [
  | inl e ↦ ground arith
  | inr (l, e) ↦ ground (arith, chunk_size-ne l.text)
]
chunk_case-ne chunk_data s rest =
    ground (arith, deliver-ne (take (min s.0.m_remaining (length rest)) rest) s)
chunk_case-ne data_end s [] = ground arith
chunk_case-ne data_end s (c ∷ []) = ground arith
chunk_case-ne data_end s (c ∷ d ∷ rest) = ground arith
chunk_case-ne trailers s rest = ground arith

chunk_case-again :
    (c : Chunk) (s : State) (b : ℕ) (rest : Bytes) (s' : State) (n : ℕ)
    → s.0.m_chunk ≡ c
    → ChunkInv s
    → chunk_case c s (b ∷ rest) ≡ ok (again s' n)
    → (0 < n) × (n ≤ suc (length rest)) × ChunkInv s'
unfolding chunk_case size_turn data_turn data_end_turn trailers_turn trailer_line
chunk_case-again size s b rest s' n at inv e = elim (Option-cases (next_line (b ∷ rest))) [
  | inl e' ↦ ground arith
  | inr (l, e') ↦ grind (arith, next_line_bounds (b ∷ rest) l e')
]
chunk_case-again chunk_data s b rest s' n at inv e =
    elim (Result-cases (deliver (take (min s.0.m_remaining (suc (length rest))) (b ∷ rest)) s)) [
      | inl (s1, e1) ↦ ground (
        arith,
        deliver-Delivered (take (min s.0.m_remaining (suc (length rest))) (b ∷ rest)) s s1,
        inv.expects at,
      )
      | inr nope ↦ grind arith
    ]
chunk_case-again data_end s b [] s' n at inv e = ground arith
chunk_case-again data_end s b (d ∷ rest) s' n at inv e = ground arith
chunk_case-again trailers s b rest s' n at inv e = elim (Option-cases (next_line (b ∷ rest))) [
  | inl e' ↦ ground arith
  | inr (l, e') ↦ ground (arith, next_line_bounds (b ∷ rest) l e')
]

chunk_case-stop :
    (c : Chunk) (s : State) (b : ℕ) (rest more : Bytes) (s' : State) (n : ℕ)
    → ChunkInv s
    → chunk_case c s (b ∷ rest) ≡ ok (stop s' n)
    → ((n ≡ 0) × (s' ≡ s))
      ⊎ ((n ≤ suc (length rest))
          × (is_completed s'.1.m_state ≡ true)
          × (chunk_case c s (b ∷ (rest ++ more)) ≡ ok (stop s' n)))
unfolding chunk_case size_turn data_turn data_end_turn trailers_turn trailer_line
chunk_case-stop size s b rest more s' n inv e = inl (ground arith)
chunk_case-stop chunk_data s b rest more s' n inv e = inl (ground arith)
chunk_case-stop data_end s b [] more s' n inv e = inl (ground arith)
chunk_case-stop data_end s b (d ∷ rest) more s' n inv e = inl (ground arith)
chunk_case-stop trailers s b rest more s' n inv e = elim (Option-cases (next_line (b ∷ rest))) [
  | inl e' ↦ inl (ground arith)
  | inr (l, e') ↦
      inr (ground (arith, next_line_bounds (b ∷ rest) l e', next_line-append (b ∷ rest) more l e'))
]

-- The state in the middle of a chunk of which `left` bytes are expected.
abbrev waiting : ℕ → State → State
waiting left (p, req) = (record p { m_remaining = left; m_chunk = chunk_data }, req)

deliver-waiting :
    (part : Bytes) (left : ℕ) (s : State)
    → deliver part (waiting left s) ≡ (deliver part s >>= λ s'. ok (waiting left s'))
unfolding deliver append_body
deliver-waiting part left s = ground arith

chunk_left_split :
    (m : Result State) (k j total : ℕ)
    → ((s : State) → m ≡ ok s → s.0.m_remaining ≡ total)
    → (m >>= λ s. ok (chunk_left (k + j) s))
      ≡ after_result k ((m >>= λ s. ok (waiting (total - k) s)) >>= λ s. ok (chunk_left j s))
unfolding chunk_left
chunk_left_split (ok s) k j total h =
    let e = h s refl in let less : total - (k + j) ≡ total - k - j = omega arith in rw (e, less)
chunk_left_split (fail _ _) k j total h = refl
chunk_left_split (thrown _) k j total h = refl
chunk_left_split out_of_fuel k j total h = refl

-- A chunk that is not all there: what there is of it is taken, and the rest when it comes.
data_turn_split :
    (s s1 : State) (r1 : Bytes) (r2 : Bytes)
    → length r1 ≤ s.0.m_remaining
    → deliver r1 s ≡ ok s1
    → data_turn s (r1 ++ r2)
      ≡ after_result (length r1) (data_turn (waiting (s.0.m_remaining - length r1) s1) r2)
unfolding data_turn
data_turn_split s s1 r1 r2 le e =
    let k = length r1 in
    let j = min (s.0.m_remaining - k) (length r2) in
    let n : min s.0.m_remaining (length (r1 ++ r2)) ≡ k + j =
      omega (arith, le, length-append r1 r2) in
    let del = deliver-Delivered r1 s s1 e in
    rw
      (
        n,
        take_past r1 r2 j,
        deliver-append r1 (take j r2) s s1 e,
        deliver-waiting (take j r2) (s.0.m_remaining - k) s1,
      )
      (chunk_left_split (deliver (take j r2) s1) k j s.0.m_remaining
        (λ s2 e2. (deliver-Delivered (take j r2) s1 s2 e2).is_remaining ∙ del.is_remaining))

-- Whether a round goes the same way with more bytes behind, or goes on into them.
abbrev GoesOn : State → Bytes → Bytes → State → ℕ → Type 0
GoesOn s r1 r2 s' n =
    (chunked_turn s (r1 ++ r2) ≡ ok (again s' n))
    ⊎ ((n ≡ length r1) × (chunked_turn s (r1 ++ r2) ≡ after_result n (chunked_turn s' r2)))

-- A round on a part of a chunk takes all of it.
data_turn_part :
    (s : State) (r1 : Bytes) (s' : State) (n : ℕ)
    → length r1 < s.0.m_remaining
    → data_turn s r1 ≡ ok (again s' n)
    → (s1 : State) × (deliver r1 s ≡ ok s1)
      × (n ≡ length r1)
      × (s' ≡ waiting (s.0.m_remaining - length r1) s1)
unfolding data_turn
data_turn_part s r1 s' n less e =
    let k : min s.0.m_remaining (length r1) ≡ length r1 = omega (arith, less) in
    let (s1, e1, e2) =
      >>=-eq-ok (deliver r1 s) (λ s'. ok (chunk_left (length r1) s'))
        (rw (k, take_all (length r1) r1 (omega arith)) at e) in
    let del = deliver-Delivered r1 s s1 e1 in (s1, e1, ground arith, ground arith)

data_turn_whole :
    (s : State) (r1 r2 : Bytes)
    → s.0.m_remaining ≤ length r1
    → data_turn s (r1 ++ r2) ≡ data_turn s r1
unfolding data_turn
data_turn_whole s r1 r2 le =
    let n : min s.0.m_remaining (length (r1 ++ r2)) ≡ s.0.m_remaining =
      omega (arith, le, length-append r1 r2) in
    let n' : min s.0.m_remaining (length r1) ≡ s.0.m_remaining = omega (arith, le) in
    rw (n, n', take-append s.0.m_remaining r1 r2 le)

data_turn_goes_on :
    (s : State) (r1 r2 : Bytes) (s' : State) (n : ℕ)
    → data_turn s r1 ≡ ok (again s' n)
    → (data_turn s (r1 ++ r2) ≡ ok (again s' n))
      ⊎ ((n ≡ length r1) × (data_turn s (r1 ++ r2) ≡ after_result n (chunked_turn s' r2)))
unfolding chunked_turn chunk_case
data_turn_goes_on s r1 [] s' n e = inl (rw (append-nil r1) e)
data_turn_goes_on s r1 (d ∷ r2) s' n e = elim (Bool-cases (leb s.0.m_remaining (length r1))) [
  | inl whole ↦ inl (data_turn_whole s r1 (d ∷ r2) (ground arith) ∙ e)
  | inr part ↦
      let less : length r1 < s.0.m_remaining = ground arith in
      let (s1, e1, is_n, is_s') = data_turn_part s r1 s' n less e in
      inr (is_n, rw (is_n, is_s') (data_turn_split s s1 r1 (d ∷ r2) (omega (arith, less)) e1))
]

chunked_at :
    (c : Chunk) (s : State) (b : ℕ) (rest : Bytes)
    → s.0.m_chunk ≡ c
    → chunked_turn s (b ∷ rest) ≡ chunk_case c s (b ∷ rest)
unfolding chunked_turn
chunked_at c s b rest at = ap (λ c. chunk_case c s (b ∷ rest)) at

chunk_case-GoesOn :
    (c : Chunk) (s : State) (b : ℕ) (rest r2 : Bytes) (s' : State) (n : ℕ)
    → s.0.m_chunk ≡ c
    → chunk_case c s (b ∷ rest) ≡ ok (again s' n)
    → GoesOn s (b ∷ rest) r2 s' n
unfolding chunk_case chunked_turn size_turn data_end_turn trailers_turn
chunk_case-GoesOn size s b rest r2 s' n at e = elim (Option-cases (next_line (b ∷ rest))) [
  | inl e' ↦ inl (ground arith)
  | inr (l, e') ↦ inl (ground (arith, next_line-append (b ∷ rest) r2 l e'))
]
chunk_case-GoesOn chunk_data s b rest r2 s' n at e =
    elim (data_turn_goes_on s (b ∷ rest) r2 s' n e) [
      | inl same ↦ inl (chunked_at chunk_data s b (rest ++ r2) at ∙ same)
      | inr (is_n, on) ↦ inr (is_n, chunked_at chunk_data s b (rest ++ r2) at ∙ on)
    ]
chunk_case-GoesOn data_end s b [] [] s' n at e = inl (ground arith)
chunk_case-GoesOn data_end s b [] (d ∷ r2) s' n at e = inl (ground arith)
chunk_case-GoesOn data_end s b (d ∷ rest) r2 s' n at e = inl (ground arith)
chunk_case-GoesOn trailers s b rest r2 s' n at e = elim (Option-cases (next_line (b ∷ rest))) [
  | inl e' ↦ inl (ground arith)
  | inr (l, e') ↦ inl (ground (arith, next_line-append (b ∷ rest) r2 l e'))
]

-- Bytes are left unread only behind the end of the message, or where a round waits for more.
abbrev pub ChunkPost : State → ℕ → Type 0
ChunkPost s unread = (is_completed s.1.m_state ≡ false) → ChunkInv s

pub chunked_turn-IsScanner : IsScanner chunked_turn ChunkInv ChunkPost
unfolding chunked_turn
chunked_turn-IsScanner = record { progress = progress; ends = ends; defined = defined }
  where
    progress :
        (s : State) (rest : Bytes) (s' : State) (n : ℕ)
        → ChunkInv s
        → chunked_turn s rest ≡ ok (again s' n)
        → (0 < n) × (n ≤ length rest) × ChunkInv s'
    progress s [] s' n inv e = cc
    progress s (b ∷ rest) s' n inv e = chunk_case-again s.0.m_chunk s b rest s' n refl inv e

    ends :
        (s : State) (rest : Bytes) (s' : State) (n : ℕ)
        → ChunkInv s
        → chunked_turn s rest ≡ ok (stop s' n)
        → (n ≤ length rest) × ChunkPost s' (length rest - n)
    ends s [] s' n inv e = ground arith
    ends s (b ∷ rest) s' n inv e = elim (chunk_case-stop s.0.m_chunk s b rest [] s' n inv e) [
      | inl (n0, same) ↦ (omega (arith, n0), λ _. rw same inv)
      | inr (le, fin, _) ↦ (le, λ nf. absurd (cc))
    ]

    defined : (s : State) (rest : Bytes) → chunked_turn s rest ≢ out_of_fuel
    defined s [] = λ e. cc
    defined s (b ∷ rest) = chunk_case-ne s.0.m_chunk s (b ∷ rest)

abbrev pub finished : State → Bool
finished s = is_completed s.1.m_state

pub chunked_turn-IsResumable : IsResumable chunked_turn ChunkInv finished
unfolding chunked_turn
chunked_turn-IsResumable = record { more_again = more_again; more_stop = more_stop; final = final }
  where
    more_again :
        (s : State) (r1 r2 : Bytes) (s' : State) (n : ℕ)
        → ChunkInv s
        → chunked_turn s r1 ≡ ok (again s' n)
        → GoesOn s r1 r2 s' n
    more_again s [] r2 s' n inv e = cc
    more_again s (b ∷ rest) r2 s' n inv e = chunk_case-GoesOn s.0.m_chunk s b rest r2 s' n refl e

    more_stop :
        (s : State) (r1 : Bytes) (s' : State) (n : ℕ)
        → ChunkInv s
        → chunked_turn s r1 ≡ ok (stop s' n)
        → finished s' ≡ false
        → (n ≡ 0) × (s' ≡ s)
    more_stop s [] s' n inv e nf = ground arith
    more_stop s (b ∷ rest) s' n inv e nf =
        elim (chunk_case-stop s.0.m_chunk s b rest [] s' n inv e) [
          | inl same ↦ same
          | inr (le, fin, _) ↦ absurd (cc)
        ]

    final :
        (s : State) (r1 r2 : Bytes) (s' : State) (n : ℕ)
        → ChunkInv s
        → chunked_turn s r1 ≡ ok (stop s' n)
        → finished s' ≡ true
        → chunked_turn s (r1 ++ r2) ≡ ok (stop s' n)
    final s [] r2 s' n inv e fin = absurd (ground arith)
    final s (b ∷ rest) r2 s' n inv e fin =
        elim (chunk_case-stop s.0.m_chunk s b rest r2 s' n inv e) [
          | inl (n0, same) ↦ absurd (cc inv.underway.1)
          | inr (le, _, more) ↦ more
        ]
