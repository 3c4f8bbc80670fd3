-- ===== src/Utils/Buffer/Reading.antt =====
-- What is read from a buffer, over all that may be done with it.
use dracon.Prelude.{
  ℕ, zero, suc, ◌+◌, ◌-◌, ◌≤◌, ◌≡◌, ◌∙◌, refl, sym, ap, arith, min, List, [], ◌∷◌, Bytes, ltb, ◌==◌,
  length, take, drop, foldl, take-append, take_all, length-take, length-drop, length-append,
  drop-drop, Bool-cases, inl, inr, zero_plus, subst,
}
use dracon.Utils.Buffer.{
  CharBuffer, zeros, copy_in, reset, resize, advance_cursor, current_size, current_string, commit,
  set_current_size, assign, fill, BufferOperation, assigns, fills, advances, commits, perform_on,
}

-- The reference: the size of the allocation, and the bytes that are not consumed.
abbrev pub Unread : Type 0
Unread = ℕ × Bytes

unfoldable pub unread_after : Unread → BufferOperation → Unread
unread_after (size, unread) (assigns buff) = (length buff, buff)
unread_after (size, unread) (fills bytes) = (size, take size bytes)
unread_after (size, unread) (advances n) = (size, drop n unread)
unread_after (size, unread) commits = (size, unread)

-- The pointers are in order, and in the allocation.
pub record IsOrdered (b : CharBuffer) : Type 0 where
  pub ordered : b.m_current ≤ b.m_end
  pub within : b.m_end ≤ length b.m_buffer

abbrev pub view : CharBuffer → Unread
view b = (length b.m_buffer, current_string b)

length-copy_in :
    (bytes buffer : Bytes)
    → length bytes ≤ length buffer
    → length (copy_in bytes buffer) ≡ length buffer
unfolding copy_in
length-copy_in bytes buffer h =
    length-append bytes (drop (length bytes) buffer)
    ∙ omega (arith, length-drop (length bytes) buffer, h)

length-zeros : (n : ℕ) → length (zeros n) ≡ n
unfolding zeros
length-zeros zero = refl
length-zeros (suc n) = ap suc (length-zeros n)

-- What was copied in, up to its end, is what is read.
copied : (bytes buffer : Bytes) → take (length bytes) (copy_in bytes buffer) ≡ bytes
unfolding copy_in
copied bytes buffer =
    take-append (length bytes) bytes (drop (length bytes) buffer) (omega arith)
    ∙ take_all (length bytes) bytes (omega arith)

resize-length : (size : ℕ) (b : CharBuffer) → length (resize size b).m_buffer ≡ size
unfolding resize reset
resize-length size b = elim (Bool-cases (size == length b.m_buffer)) [
  | inl same ↦ rw (same, resize) (ground (arith, same))
  | inr other ↦
      rw (other, resize)
        (length-copy_in (take (min size (length b.m_buffer)) b.m_buffer) (zeros size) (
            omega (arith, length-take (min size (length b.m_buffer)) b.m_buffer, length-zeros size))
          ∙ length-zeros size)
]

resize-current : (size : ℕ) (b : CharBuffer) → (resize size b).m_current ≡ 0
unfolding resize reset
resize-current size b = ground arith

-- A buffer after a copy to the start, with the end behind it.
abbrev filled : Bytes → Bytes → CharBuffer
filled bytes buffer = record {
  m_buffer = copy_in bytes buffer;
  m_current = 0;
  m_end = length bytes;
}

filled-view :
    (bytes buffer : Bytes)
    → length bytes ≤ length buffer
    → view (filled bytes buffer) ≡ (length buffer, bytes)
unfolding current_string current_size
filled-view bytes buffer fits =
    let size : length bytes - 0 ≡ length bytes = omega arith in
    rw (size, copied bytes buffer, length-copy_in bytes buffer fits) refl

filled-IsOrdered :
    (bytes buffer : Bytes) → length bytes ≤ length buffer → IsOrdered (filled bytes buffer)
filled-IsOrdered bytes buffer fits =
    let len = length-copy_in bytes buffer fits in
    record { ordered = omega arith; within = omega (arith, len, fits) }

assign-filled :
    (buff : Bytes) (b : CharBuffer) → assign buff b ≡ filled buff (resize (length buff) b).m_buffer
unfolding assign set_current_size
assign-filled buff b = rw (resize-current (length buff) b, zero_plus (length buff)) refl

fill-filled :
    (bytes : Bytes) (b : CharBuffer)
    → fill bytes b ≡ filled (take (length b.m_buffer) bytes) b.m_buffer
unfolding fill set_current_size reset
fill-filled bytes b = rw (zero_plus (length (take (length b.m_buffer) bytes))) refl

take_none : (n : ℕ) → ◌≡◌ {A = Bytes} [] (take n [])
take_none zero = refl
take_none (suc n) = refl

drop-take : (n k : ℕ) (xs : Bytes) → drop n (take k xs) ≡ take (k - n) (drop n xs)
drop-take zero k xs = let same : k ≡ k - 0 = omega arith in ap (λ j. take j xs) same
drop-take (suc n) zero xs =
    let none : 0 ≡ 0 - suc n = omega arith in ap (λ j. take j (drop (suc n) xs)) none
drop-take (suc n) (suc k) [] = take_none (suc k - suc n)
drop-take (suc n) (suc k) (x ∷ xs) =
    let same : k - n ≡ suc k - suc n = omega arith in
    drop-take n k xs ∙ ap (λ j. take j (drop n xs)) same

current_string-length : (b : CharBuffer) → IsOrdered b → length (current_string b) ≡ current_size b
unfolding current_string current_size
current_string-length b o =
    length-take (b.m_end - b.m_current) (drop b.m_current b.m_buffer)
    ∙ omega (arith, length-drop b.m_current b.m_buffer, o.ordered, o.within)

current_size_lem : (b : CharBuffer) → current_size b ≡ b.m_end - b.m_current
unfolding current_size
current_size_lem b = refl

-- What an operation should leave.
record Leaves (b : CharBuffer) (unread : Unread) : Type 0 where
  is_ordered : IsOrdered b
  viewed : view b ≡ unread

filled-Leaves :
    (bytes buffer : Bytes) (b : CharBuffer)
    → b ≡ filled bytes buffer
    → length bytes ≤ length buffer
    → Leaves b (length buffer, bytes)
filled-Leaves bytes buffer b e fits =
    subst (λ x. Leaves x (length buffer, bytes)) (sym e)
      (record {
        is_ordered = filled-IsOrdered bytes buffer fits;
        viewed = filled-view bytes buffer fits;
      })

advance-Leaves :
    (n : ℕ) (b : CharBuffer)
    → IsOrdered b
    → Leaves (advance_cursor n b) (length b.m_buffer, drop n (current_string b))
unfolding advance_cursor current_string current_size
advance-Leaves n b o = elim (Bool-cases (ltb b.m_end (b.m_current + n))) [
  | inl past ↦
      let none : b.m_end - b.m_end ≡ b.m_end - b.m_current - n = ground (arith, past) in
      let zero_left : b.m_end - b.m_end ≡ 0 = omega arith in
      rw past (record {
        is_ordered = record { ordered = omega arith; within = o.within };
        viewed =
            ap (λ t. (length b.m_buffer, t))
              (rw
                (
                  drop-take n (b.m_end - b.m_current) (drop b.m_current b.m_buffer),
                  ← none,
                  zero_left,
                )
                refl);
      })
  | inr short ↦
      let left : b.m_end - (b.m_current + n) ≡ b.m_end - b.m_current - n = omega arith in
      rw short (record {
        is_ordered = record { ordered = ground (arith, short); within = o.within };
        viewed =
            ap (λ t. (length b.m_buffer, t))
              (rw (drop-take n (b.m_end - b.m_current) (drop b.m_current b.m_buffer), left)
                (ap (take (b.m_end - b.m_current - n)) (sym (drop-drop n b.m_current b.m_buffer))));
      })
]

commit-Leaves :
    (b : CharBuffer) → IsOrdered b → Leaves (commit b) (length b.m_buffer, current_string b)
unfolding commit
commit-Leaves b o = elim (Bool-cases (b.m_current == 0)) [
  | inl start ↦ rw (start, commit) (record { is_ordered = o; viewed = refl })
  | inr moved ↦
      let len = current_string-length b o in
      rw (moved, commit)
        (filled-Leaves (current_string b) b.m_buffer _
          (ap
            (λ n. record {
              m_buffer = copy_in (current_string b) b.m_buffer;
              m_current = 0;
              m_end = n;
            })
            (sym len))
          (rw len (omega (arith, o.ordered, o.within, current_size_lem b))))
]

perform_on-Leaves :
    (b : CharBuffer) (op : BufferOperation)
    → IsOrdered b
    → Leaves (perform_on b op) (unread_after (view b) op)
unfolding perform_on unread_after
perform_on-Leaves b (assigns buff) o =
    let r = (resize (length buff) b).m_buffer in
    let size : length r ≡ length buff = resize-length (length buff) b in
    subst (λ n. Leaves (assign buff b) (n, buff)) size
      (filled-Leaves buff r (assign buff b) (assign-filled buff b) (omega (arith, size)))
perform_on-Leaves b (fills bytes) o =
    filled-Leaves (take (length b.m_buffer) bytes) b.m_buffer (fill bytes b) (fill-filled bytes b)
      (omega (arith, length-take (length b.m_buffer) bytes))
perform_on-Leaves b (advances n) o = advance-Leaves n b o
perform_on-Leaves b commits o = commit-Leaves b o

-- A buffer whose pointers are in order, after any sequence of operator=, of fills, of advance and of
-- commit: what is read is what was assigned or filled in last, as far as it fits, without the bytes
-- that were consumed since; commit changes nothing of it. The pointers stay in order and in the
-- allocation.
pub perform_on-view :
    (ops : List BufferOperation) (b : CharBuffer)
    → IsOrdered b
    → IsOrdered (foldl perform_on b ops)
      × (view (foldl perform_on b ops) ≡ foldl unread_after (view b) ops)
perform_on-view [] b o = (o, refl)
perform_on-view (op ∷ ops) b o =
    let l = perform_on-Leaves b op o in
    let (ordered, e) = perform_on-view ops (perform_on b op) l.is_ordered in
    (ordered, e ∙ ap (λ u. foldl unread_after u ops) l.viewed)
