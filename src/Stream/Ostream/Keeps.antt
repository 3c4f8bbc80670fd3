-- ===== src/Stream/Ostream/Keeps.antt =====
-- Nothing is lost: what an ostream_buffer has written and what is pending are what was put.
use dracon.Prelude.{
  ℕ, zero, suc, ◌+◌, ◌-◌, ◌≤◌, ◌<◌, ◌≡◌, ◌∙◌, refl, sym, ap, subst, arith, min, max, true, false,
  List, [], ◌∷◌, ◌++◌, some, Bytes, ltb, leb, ◌==◌, is_empty, length, take, drop, flatten,
  length-append, length-take, length-drop, append_assoc, append-nil, Bool-cases, inl, inr,
}
use dracon.Stream.Ostream.{
  OstreamBuffer, Output, put_char, put_chars, flush, reserve_buffer, open_buffer, write_out, sync,
  sync_full, overflow, write_through, put_loop, xsputn, output, output_all,
}

-- What the calls put, in order.
abbrev pub contents : List Output → Bytes
contents [] = []
contents (put_char c ∷ os) = c ∷ contents os
contents (put_chars str ∷ os) = str ++ contents os
contents (flush ∷ os) = contents os

-- What was put up to now: written, or pending.
abbrev pub total : OstreamBuffer → Bytes
total s = flatten s.writes ++ s.m_buffer

-- The capacity that `reserve` promises, and a string within its capacity.
pub record HasRoom (s : OstreamBuffer) : Type 0 where
  pub room : 0 < s.capacity
  pub asks : 0 < s.m_capacity
  pub within : length s.m_buffer ≤ s.capacity

flatten-write : (ws : List Bytes) (w : Bytes) → flatten (ws ++ (w ∷ [])) ≡ flatten ws ++ w
flatten-write [] w = append-nil w
flatten-write (v ∷ ws) w = rw (append_assoc) (ap (◌++◌ v) (flatten-write ws w))

-- `n` holds and nothing is lost.
record Keeps (s t : OstreamBuffer) (more : Bytes) : Type 0 where
  k_total : total t ≡ total s ++ more
  k_room : HasRoom t

nonempty_length : (xs : Bytes) → 0 < length xs → is_empty xs ≡ false
nonempty_length [] h = absurd (omega arith)
nonempty_length (x ∷ xs) h = refl

full_length :
    (s : OstreamBuffer) → leb s.capacity (length s.m_buffer) ≡ true → s.capacity ≤ length s.m_buffer
full_length s e = ground arith

empty_nil : (xs : Bytes) → is_empty xs ≡ true → xs ≡ []
empty_nil [] e = refl
empty_nil (x ∷ xs) e = cc

module _ (capacity_of : ℕ → ℕ → ℕ) (reserves : (k n : ℕ) → n ≤ capacity_of k n) where
  write_out-Keeps :
      (behind : Bytes) (s : OstreamBuffer)
      → HasRoom s
      → Keeps s (write_out capacity_of behind s) behind
  unfolding write_out reserve_buffer
  write_out-Keeps behind s h = record {
    k_total =
        append-nil (flatten (s.writes ++ ((s.m_buffer ++ behind) ∷ [])))
        ∙ flatten-write s.writes (s.m_buffer ++ behind)
        ∙ sym (append_assoc (flatten s.writes) s.m_buffer behind);
    k_room = record {
      room = omega (arith, reserves s.reserved s.m_capacity, h.asks);
      asks = h.asks;
      within = omega arith;
    };
  }

  Keeps-refl : (s : OstreamBuffer) → HasRoom s → Keeps s s []
  Keeps-refl s h = record { k_total = sym (append-nil (total s)); k_room = h }

  sync-Keeps : (s : OstreamBuffer) → HasRoom s → Keeps s (sync capacity_of s) []
  unfolding sync
  sync-Keeps s h = elim (Bool-cases (is_empty s.m_buffer)) [
    | inl e ↦ rw e (Keeps-refl s h)
    | inr e ↦ rw e (write_out-Keeps [] s h)
  ]

  sync_full-Keeps :
      (s : OstreamBuffer)
      → HasRoom s
      → Keeps s (sync_full capacity_of s) []
        × (length (sync_full capacity_of s).m_buffer < (sync_full capacity_of s).capacity)
  unfolding sync_full sync write_out reserve_buffer
  sync_full-Keeps s h = elim (Bool-cases (leb s.capacity (length s.m_buffer))) [
    | inl full ↦ rw full (
      sync-Keeps s h,
      ground (
        arith,
        nonempty_length s.m_buffer (omega (arith, h.room, full_length s full)),
        reserves s.reserved s.m_capacity,
        h.asks,
      ),
    )
    | inr space ↦ rw space (Keeps-refl s h, ground arith)
  ]

  Keeps-trans :
      (s t u : OstreamBuffer) (a b : Bytes) → Keeps s t a → Keeps t u b → Keeps s u (a ++ b)
  Keeps-trans s t u a b h k = record {
    k_total = k.k_total ∙ ap (λ x. x ++ b) h.k_total ∙ append_assoc (total s) a b;
    k_room = k.k_room;
  }

  -- Putting into the buffer what fits.
  append-Keeps :
      (s : OstreamBuffer) (str : Bytes)
      → HasRoom s
      → length s.m_buffer + length str ≤ s.capacity
      → Keeps s (record s { m_buffer = s.m_buffer ++ str }) str
  append-Keeps s str h fits = record {
    k_total = sym (append_assoc (flatten s.writes) s.m_buffer str);
    k_room = record {
      room = h.room;
      asks = h.asks;
      within = omega (arith, fits, length-append s.m_buffer str);
    };
  }

  overflow-Keeps :
      (c : ℕ) (s : OstreamBuffer) → HasRoom s → Keeps s (overflow capacity_of c s) (c ∷ [])
  unfolding overflow
  overflow-Keeps c s h =
      let (k, space) = sync_full-Keeps s h in
      Keeps-trans s (sync_full capacity_of s) _ [] (c ∷ []) k
        (append-Keeps (sync_full capacity_of s) (c ∷ []) k.k_room (omega (arith, space)))

  write_through-Keeps :
      (str : Bytes) (s : OstreamBuffer) → HasRoom s → Keeps s (write_through capacity_of str s) str
  unfolding write_through
  write_through-Keeps str s h = elim (Bool-cases (is_empty s.m_buffer)) [
    | inl e ↦
        let nil = empty_nil s.m_buffer e in
        rw e (record {
          k_total = rw nil (
              append-nil (flatten (s.writes ++ (str ∷ [])))
              ∙ flatten-write s.writes str
              ∙ ap (λ x. x ++ str) (sym (append-nil (flatten s.writes))));
          k_room = record { room = h.room; asks = h.asks; within = h.within };
        })
    | inr e ↦ rw e (write_out-Keeps str s h)
  ]

  take-drop_append : (n : ℕ) (xs : Bytes) → take n xs ++ drop n xs ≡ xs
  take-drop_append zero xs = refl
  take-drop_append (suc n) [] = refl
  take-drop_append (suc n) (x ∷ xs) = ap (◌∷◌ x) (take-drop_append n xs)

  -- With fuel for each character, the loop ends, and has put the whole string.
  put_loop-Keeps :
      (f n : ℕ) (str : Bytes) (s : OstreamBuffer)
      → HasRoom s
      → length str < f
      → (t : OstreamBuffer) × (m : ℕ) × (put_loop capacity_of f n str s ≡ some (t, m))
        × Keeps s t str
  unfolding put_loop
  put_loop-Keeps zero n str s h l = absurd (omega arith)
  put_loop-Keeps (suc f) n [] s h l = (s, n, refl, Keeps-refl s h)
  put_loop-Keeps (suc f) n (x ∷ str) s h l = elim (Bool-cases (ltb s.capacity (length (x ∷ str)))) [
    | inl long ↦
        let some_left : (length (x ∷ str) == 0) ≡ false = ground arith in
        (
          write_through capacity_of (x ∷ str) s,
          length (x ∷ str),
          rw (some_left, long) refl,
          write_through-Keeps (x ∷ str) s h,
        )
    | inr fits ↦
        let some_left : (length (x ∷ str) == 0) ≡ false = ground arith in
        let t = sync_full capacity_of s in
        let (k, space) = sync_full-Keeps s h in
        let len = min (length (x ∷ str)) (t.capacity - length t.m_buffer) in
        let part = take len (x ∷ str) in
        let rest = drop len (x ∷ str) in
        let u : OstreamBuffer = record t { m_buffer = t.m_buffer ++ part } in
        let l1 = length-take len (x ∷ str) in
        let l2 = length-drop len (x ∷ str) in
        let k2 : Keeps t u part = append-Keeps t part k.k_room (omega (arith, space, l1)) in
        let (v, m, e, k3) = put_loop-Keeps f n rest u k2.k_room (omega (arith, l, l2, space)) in
        (
          v,
          m,
          rw (some_left, fits) e,
          subst (Keeps s v) (take-drop_append len (x ∷ str))
              (Keeps-trans s t v [] (part ++ rest) k (Keeps-trans t u v part rest k2 k3)),
        )
  ]

  xsputn-Keeps :
      (str : Bytes) (s : OstreamBuffer)
      → HasRoom s
      → (t : OstreamBuffer) × (m : ℕ) × (xsputn capacity_of str s ≡ some (t, m)) × Keeps s t str
  unfolding xsputn
  xsputn-Keeps str s h = put_loop-Keeps (suc (length str)) (length str) str s h (omega arith)

  sync_clears : (s : OstreamBuffer) → (sync capacity_of s).m_buffer ≡ []
  unfolding sync write_out reserve_buffer
  sync_clears s = elim (Bool-cases (is_empty s.m_buffer)) [
    | inl e ↦ rw e (empty_nil s.m_buffer e)
    | inr e ↦ rw e refl
  ]

  output-Keeps :
      (o : Output) (s : OstreamBuffer)
      → HasRoom s
      → (t : OstreamBuffer) × (output capacity_of o s ≡ some t) × Keeps s t (contents (o ∷ []))
  unfolding output
  output-Keeps (put_char c) s h = (overflow capacity_of c s, refl, overflow-Keeps c s h)
  output-Keeps (put_chars str) s h =
      let (t, m, e, k) = xsputn-Keeps str s h in
      (t, rw (e, output) refl, subst (Keeps s t) (sym (append-nil str)) k)
  output-Keeps flush s h = (sync capacity_of s, refl, sync-Keeps s h)

  contents-cons :
      (o : Output) (os : List Output) → contents (o ∷ os) ≡ contents (o ∷ []) ++ contents os
  contents-cons (put_char c) os = refl
  contents-cons (put_chars str) os = ap (λ x. x ++ contents os) (sym (append-nil str))
  contents-cons flush os = refl

  output_all-HasRoom :
      (os : List Output) (s : OstreamBuffer)
      → HasRoom s
      → (ws : List Bytes) × (output_all capacity_of os s ≡ some ws)
        × (flatten ws ≡ total s ++ contents os)
  unfolding output_all
  output_all-HasRoom [] s h =
      let k = sync-Keeps s h in
      let t = sync capacity_of s in
      (
        t.writes,
        refl,
        sym (append-nil (flatten t.writes))
            ∙ ap (◌++◌ (flatten t.writes)) (sym (sync_clears s))
            ∙ k.k_total,
      )
  output_all-HasRoom (o ∷ os) s h =
      let (t, e, k) = output-Keeps o s h in
      let (ws, e2, all_there) = output_all-HasRoom os t k.k_room in
      (
        ws,
        rw (e, output_all) e2,
        all_there
            ∙ ap (λ x. x ++ contents os) k.k_total
            ∙ append_assoc (total s) (contents (o ∷ [])) (contents os)
            ∙ ap (◌++◌ (total s)) (sym (contents-cons o os)),
      )

  -- Whatever is put through a new ostream_buffer, with whatever flushes, for any socket buffer and
  -- any capacities that `reserve` allows: the calls return, and the writes at the end, the
  -- destructor's included, are together exactly what was put, in order.
  pub output_all-contents :
      (os : List Output) (socket_write_size : ℕ)
      → (ws : List Bytes) × (output_all capacity_of os (open_buffer capacity_of socket_write_size)
          ≡ some ws)
        × (flatten ws ≡ contents os)
  unfolding open_buffer reserve_buffer
  output_all-contents os socket_write_size =
      output_all-HasRoom os (open_buffer capacity_of socket_write_size) (record {
        room = omega (arith, reserves 0 (max 4096 socket_write_size));
        asks = omega arith;
        within = omega arith;
      })
