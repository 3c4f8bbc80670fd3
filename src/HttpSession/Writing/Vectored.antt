-- ===== src/HttpSession/Writing/Vectored.antt =====
-- What goes out by the two `write`.
use dracon.Prelude.{
  ℕ, suc, ◌+◌, ◌-◌, ◌≤◌, ◌<◌, ◌≡◌, ◌∙◌, refl, sym, ap, arith, min, false, List, [], ◌∷◌, ◌++◌,
  Bytes, leb, ◌==◌, length, take, drop, flatten, take-append-drop, drop-append, length-append,
  append_assoc, Bool-cases, inl, inr, drop_past, length-drop, zero, subst, append-nil,
}
use dracon.HttpSession.Writing.{
  WriteEvent, wrote, write_failed, write_resumed, write_resumed_with, Written, returned, waiting,
  write_threw, write_loop, advance, write_pending, write_buffers,
}

-- Every buffer list that is left has a byte to write.
abbrev HasByte : List Bytes → Type 0
HasByte [] = Unit
HasByte (front ∷ pending) = 0 < length (flatten (front ∷ pending))

drop_nil : (n : ℕ) → ◌≡◌ {A = Bytes} [] (drop n [])
drop_nil zero = refl
drop_nil (suc n) = refl

short : (n : ℕ) (front : Bytes) → leb (length front) n ≡ false → n < length front
short n front gt = ground (arith, gt)

flatten-advance : (n : ℕ) (bufs : List Bytes) → flatten (advance n bufs) ≡ drop n (flatten bufs)
unfolding advance
flatten-advance n [] = drop_nil n
flatten-advance n (front ∷ pending) = elim (Bool-cases (leb (length front) n)) [
  | inl le ↦
      let split : length front + (n - length front) ≡ n = ground (arith, le) in
      rw (le, advance)
        (flatten-advance (n - length front) pending
          ∙ sym (drop_past front (flatten pending) (n - length front))
          ∙ ap (λ k. drop k (front ++ flatten pending)) split)
  | inr gt ↦ rw (gt, advance) (sym (drop-append n front (flatten pending) (ground (arith, gt))))
]

advance-HasByte : (n : ℕ) (bufs : List Bytes) → HasByte (advance n bufs)
unfolding advance
advance-HasByte n [] = tt
advance-HasByte n (front ∷ pending) = elim (Bool-cases (leb (length front) n)) [
  | inl le ↦ rw (le, advance) (advance-HasByte (n - length front) pending)
  | inr gt ↦
      rw (gt, advance)
        (omega (
          arith,
          length-append (drop n front) (flatten pending),
          length-drop n front,
          short n front gt,
        ))
]

-- `write_loop` on a text of which a byte is left.
loop_waits : (out xs : Bytes) → 0 < length xs → write_loop [] out xs ≡ waiting out xs
unfolding write_loop
loop_waits out [] h = absurd (omega arith)
loop_waits out (x ∷ xs) h = refl

loop_wrote :
    (k : ℕ) (es : List WriteEvent) (out xs : Bytes)
    → 0 < length xs
    → write_loop (wrote k ∷ es) out xs
      ≡ write_loop es (out ++ take (min (suc k) (length xs)) xs) (drop (min (suc k) (length xs)) xs)
unfolding write_loop
loop_wrote k es out [] h = absurd (omega arith)
loop_wrote k es out (x ∷ xs) h = refl

loop_failed :
    (ec : ℕ) (es : List WriteEvent) (out xs : Bytes)
    → 0 < length xs
    → write_loop (write_failed ec ∷ es) out xs ≡ write_threw out ec
unfolding write_loop
loop_failed ec es out [] h = absurd (omega arith)
loop_failed ec es out (x ∷ xs) h = refl

loop_resumed :
    (es : List WriteEvent) (out xs : Bytes)
    → 0 < length xs
    → write_loop (write_resumed ∷ es) out xs ≡ write_loop es out xs
unfolding write_loop
loop_resumed es out [] h = absurd (omega arith)
loop_resumed es out (x ∷ xs) h = refl

loop_resumed_with :
    (ec : ℕ) (es : List WriteEvent) (out xs : Bytes)
    → 0 < length xs
    → write_loop (write_resumed_with ec ∷ es) out xs ≡ write_threw out ec
unfolding write_loop
loop_resumed_with ec es out [] h = absurd (omega arith)
loop_resumed_with ec es out (x ∷ xs) h = refl

loop_nothing :
    (es : List WriteEvent) (out xs : Bytes) → length xs ≡ 0 → returned out es ≡ write_loop es out xs
unfolding write_loop
loop_nothing es out [] h = refl
loop_nothing es out (x ∷ xs) h = absurd (omega arith)

has_byte : (bufs : List Bytes) → 0 < length (flatten bufs) → HasByte bufs
has_byte [] h = tt
has_byte (f ∷ p) h = h

write_pending-write_loop :
    (es : List WriteEvent) (out : Bytes) (bufs : List Bytes)
    → HasByte bufs
    → write_pending es out bufs ≡ write_loop es out (flatten bufs)
unfolding write_pending write_loop
write_pending-write_loop es out [] h = refl
write_pending-write_loop [] out (f ∷ p) h = sym (loop_waits out (f ++ flatten p) h)
write_pending-write_loop (wrote k ∷ es) out (f ∷ p) h =
    let n = min (suc k) (length (f ++ flatten p)) in
    write_pending-write_loop es (out ++ take n (f ++ flatten p)) (advance n (f ∷ p))
      (advance-HasByte n (f ∷ p))
    ∙ ap (write_loop es (out ++ take n (f ++ flatten p))) (flatten-advance n (f ∷ p))
    ∙ sym (loop_wrote k es out (f ++ flatten p) h)
write_pending-write_loop (write_failed ec ∷ es) out (f ∷ p) h =
    sym (loop_failed ec es out (f ++ flatten p) h)
write_pending-write_loop (write_resumed ∷ es) out (f ∷ p) h =
    write_pending-write_loop es out (f ∷ p) h ∙ sym (loop_resumed es out (f ++ flatten p) h)
write_pending-write_loop (write_resumed_with ec ∷ es) out (f ∷ p) h =
    sym (loop_resumed_with ec es out (f ++ flatten p) h)

-- A write of several buffers does what a write of their concatenation does, whatever the socket
-- takes at a time: the same bytes go out, and it returns, waits or throws alike.
pub write_buffers-write_loop :
    (es : List WriteEvent) (out : Bytes) (bufs : List Bytes)
    → write_buffers es out bufs ≡ write_loop es out (flatten bufs)
unfolding write_buffers
write_buffers-write_loop es out bufs = elim (Bool-cases (length (flatten bufs) == 0)) [
  | inl none ↦ rw (none, write_buffers) (loop_nothing es out (flatten bufs) (ground (arith, none)))
  | inr some ↦
      rw (some, write_buffers)
        (write_pending-write_loop es out bufs (has_byte bufs (ground (arith, some))))
]

-- How a write of `all` may end.
abbrev pub Goes : Bytes → Written → Type 0
Goes all (returned out es) = out ≡ all
Goes all (waiting out left) = (out ++ left ≡ all) × (0 < length left)
Goes all (write_threw out ec) = (left : Bytes) × (out ++ left ≡ all) × (0 < length left)

loop-Goes : (es : List WriteEvent) (out xs : Bytes) → Goes (out ++ xs) (write_loop es out xs)
unfolding write_loop
loop-Goes es out [] = sym (append-nil out)
loop-Goes [] out (x ∷ xs) = (refl, omega arith)
loop-Goes (wrote k ∷ es) out (x ∷ xs) =
    let n = min (suc k) (length (x ∷ xs)) in
    subst (λ t. Goes t (write_loop es (out ++ take n (x ∷ xs)) (drop n (x ∷ xs))))
      (append_assoc out (take n (x ∷ xs)) (drop n (x ∷ xs))
        ∙ ap (λ t. out ++ t) (take-append-drop n (x ∷ xs)))
      (loop-Goes es (out ++ take n (x ∷ xs)) (drop n (x ∷ xs)))
loop-Goes (write_failed ec ∷ es) out (x ∷ xs) = (x ∷ xs, refl, omega arith)
loop-Goes (write_resumed ∷ es) out (x ∷ xs) = loop-Goes es out (x ∷ xs)
loop-Goes (write_resumed_with ec ∷ es) out (x ∷ xs) = (x ∷ xs, refl, omega arith)

-- A write of several buffers that returns has sent them completely and in order, each byte once.
-- One that waits or throws has sent a part that the rest completes, and a byte is missing.
pub write_buffers-Goes :
    (es : List WriteEvent) (out : Bytes) (bufs : List Bytes)
    → Goes (out ++ flatten bufs) (write_buffers es out bufs)
write_buffers-Goes es out bufs =
    subst (Goes (out ++ flatten bufs)) (sym (write_buffers-write_loop es out bufs))
      (loop-Goes es out (flatten bufs))

-- The answers fail nowhere, and so many of them write something.
abbrev pub Writes : ℕ → List WriteEvent → Type 0
Writes zero es = Unit
Writes (suc n) [] = ⊥
Writes (suc n) (wrote k ∷ es) = Writes n es
Writes (suc n) (write_resumed ∷ es) = Writes (suc n) es
Writes (suc n) (_ ∷ es) = ⊥

DoesReturn : Bytes → Written → Type 0
DoesReturn all w = (rest : List WriteEvent) × (w ≡ returned all rest)

loop_returns :
    (n : ℕ) (es : List WriteEvent) (out xs : Bytes)
    → length xs ≤ n
    → Writes n es
    → DoesReturn (out ++ xs) (write_loop es out xs)
unfolding write_loop DoesReturn
loop_returns n es out [] le h = (es, ap (λ t. returned t es) (sym (append-nil out)))
loop_returns zero es out (x ∷ xs) le h = absurd (omega arith)
loop_returns (suc n) [] out (x ∷ xs) le h = absurd h
loop_returns (suc n) (wrote k ∷ es) out (x ∷ xs) le h =
    let m = min (suc k) (length (x ∷ xs)) in
    let fewer : length (drop m (x ∷ xs)) ≤ n = omega (arith, length-drop m (x ∷ xs), le) in
    subst (λ t. DoesReturn t (write_loop es (out ++ take m (x ∷ xs)) (drop m (x ∷ xs))))
      (append_assoc out (take m (x ∷ xs)) (drop m (x ∷ xs))
        ∙ ap (λ t. out ++ t) (take-append-drop m (x ∷ xs)))
      (loop_returns n es (out ++ take m (x ∷ xs)) (drop m (x ∷ xs)) fewer h)
loop_returns (suc n) (write_resumed ∷ es) out (x ∷ xs) le h =
    loop_returns (suc n) es out (x ∷ xs) le h
loop_returns (suc n) (write_failed ec ∷ es) out (x ∷ xs) le h = absurd h
loop_returns (suc n) (write_resumed_with ec ∷ es) out (x ∷ xs) le h = absurd h

-- A write of several buffers returns, if the socket takes something as often as there are bytes,
-- with any waits in between and no error before.
pub write_buffers-returned :
    (es : List WriteEvent) (out : Bytes) (bufs : List Bytes)
    → Writes (length (flatten bufs)) es
    → (rest : List WriteEvent) × (write_buffers es out bufs ≡ returned (out ++ flatten bufs) rest)
unfolding DoesReturn
write_buffers-returned es out bufs h =
    rw (write_buffers-write_loop es out bufs)
      (loop_returns (length (flatten bufs)) es out (flatten bufs) (omega arith) h)
