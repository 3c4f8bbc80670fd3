-- ===== src/Utils/LruCache/Refines.antt =====
-- The cache refines a list of entries, most recently used first: `put` and a read move an entry to the
-- front, and only what does not fit is dropped, from the back.
use mathlib.Core.Logic.{ite, if_pos, if_neg}
use dracon.Prelude.{
  ℕ, zero, suc, ◌+◌, ◌≤◌, ◌<◌, ◌≡◌, ◌∙◌, refl, sym, subst, ap, arith, false, List, [], ◌∷◌, none,
  some, ltb, if◌then◌else◌, length, take, take_all, Bool-cases, Option-cases, inl, inr, ltb→le,
  ltb→lt,
}
use dracon.Utils.LruCache.{
  Node, LruCache, empty_cache, pop_back, back, is_some, hash_set, hash_erase, clean_cache, without,
  put, cache_size, clear,
}
use dracon.Utils.LruCache.Lists.{
  entries, Distinct, Below, Fresh-Below, Below-suc, Below-erase, Distinct-erase, pop_back-Distinct,
  pop_back-Below, take-pop_back, length-pop_back, id_of, remove, DistinctKeys, erase-remove,
  remove_absent, id_of-erase, DistinctKeys-erase, back_lem,
}

module _ {K V : Type 0} (dec : Discrete K) where
  -- The hash and the list agree: the hash maps a key to its node, and counts the nodes.
  pub record IsValid (c : LruCache K V) : Type 0 where
    pub agrees : (k : K) → c.m_cache_hash.at k ≡ id_of dec k c.m_cache_items
    pub counted : c.m_cache_hash.count ≡ length c.m_cache_items
    pub keys : DistinctKeys dec c.m_cache_items
    pub ids : Distinct c.m_cache_items
    pub below : Below c.next_id c.m_cache_items

  -- A valid cache, with these entries.
  pub record Holds (c : LruCache K V) (es : List (K × V)) : Type 0 where
    pub valid : IsValid c
    pub exact : entries c.m_cache_items ≡ es

  popped : LruCache K V → Node K V → LruCache K V
  popped c l = record c {
    m_cache_hash = hash_erase dec l.key c.m_cache_hash;
    m_cache_items = pop_back c.m_cache_items;
  }

  popped-IsValid :
      (c : LruCache K V) (n : Node K V) (ns : List (Node K V))
      → c.m_cache_items ≡ n ∷ ns
      → IsValid c
      → (l : Node K V) × (back c.m_cache_items ≡ some l) × IsValid (popped c l)
  unfolding popped hash_erase
  popped-IsValid c n ns e v =
      let (l, b, keys, ids, i, has) = back_lem dec n ns (subst (DistinctKeys dec) e v.keys) in
      let at_last : c.m_cache_hash.at l.key ≡ some i =
        v.agrees l.key ∙ ap (id_of dec l.key) e ∙ has in
      let shorter : length (pop_back c.m_cache_items) ≡ length ns =
        ap (λ t. length (pop_back t)) e ∙ length-pop_back n ns in
      let len : length c.m_cache_items ≡ suc (length ns) = ap length e in
      (
        l,
        ap back e ∙ b,
        record {
          agrees = λ k.
              ap (λ t. ite (dec k l.key) none t) (v.agrees k ∙ ap (id_of dec k) e)
              ∙ sym (ids k)
              ∙ ap (λ t. id_of dec k (pop_back t)) (sym e);
          counted = rw (at_last, shorter) (omega (arith, v.counted, len));
          keys = subst (λ t. DistinctKeys dec (pop_back t)) (sym e) keys;
          ids = pop_back-Distinct c.m_cache_items v.ids;
          below = pop_back-Below c.next_id c.m_cache_items v.below;
        },
      )

  nonempty :
      (xs : List (Node K V))
      → 0 < length xs
      → (n : Node K V) × (ns : List (Node K V)) × (xs ≡ n ∷ ns)
  nonempty [] h = absurd (omega arith)
  nonempty (n ∷ ns) h = (n, ns, refl)

  pub entries-length : (ns : List (Node K V)) → length (entries ns) ≡ length ns
  entries-length [] = refl
  entries-length (n ∷ ns) = ap suc (entries-length ns)

  -- `clean_cache` keeps what fits.
  clean_cache-Holds :
      (f : ℕ) (c : LruCache K V)
      → IsValid c
      → length c.m_cache_items ≤ f
      → (c' : LruCache K V) × (clean_cache dec f c ≡ some c')
        × Holds c' (take c.m_cache_size (entries c.m_cache_items))
        × (c'.m_cache_size ≡ c.m_cache_size)
  unfolding clean_cache popped
  clean_cache-Holds zero c v h =
      let fits : ltb c.m_cache_size c.m_cache_hash.count ≡ false = ground (arith, v.counted) in
      (
        c,
        rw fits,
        record {
          valid = v;
          exact = sym (
              take_all c.m_cache_size (entries c.m_cache_items)
                (omega (arith, entries-length c.m_cache_items)));
        },
        refl,
      )
  clean_cache-Holds (suc f) c v h = elim (Bool-cases (ltb c.m_cache_size c.m_cache_hash.count)) [
    | inl over ↦
        let more : c.m_cache_size < length c.m_cache_items =
          omega (arith, v.counted, ltb→lt _ _ over) in
        let (n, ns, e) = nonempty c.m_cache_items (omega (arith, more)) in
        let (l, b, v') = popped-IsValid c n ns e v in
        let shorter : length (pop_back c.m_cache_items) ≡ length ns =
          ap (λ t. length (pop_back t)) e ∙ length-pop_back n ns in
        let len : length c.m_cache_items ≡ suc (length ns) = ap length e in
        let (c', e', holds, same) =
          clean_cache-Holds f (popped c l) v' (omega (arith, h, shorter, len)) in
        (
          c',
          rw (over, b) e',
          record {
            valid = holds.valid;
            exact = holds.exact ∙ take-pop_back c.m_cache_size c.m_cache_items more;
          },
          same,
        )
    | inr fits ↦ (
      c,
      rw fits,
      record {
        valid = v;
        exact = sym (
            take_all c.m_cache_size (entries c.m_cache_items)
              (omega (arith, v.counted, ltb→le _ _ fits, entries-length c.m_cache_items)));
      },
      refl,
    )
  ]

  -- The items without a key's node: no such key, and the others as they were.
  record Without (c : LruCache K V) (key : K) : Type 0 where
    w_entries : entries (without dec key c) ≡ remove dec key (entries c.m_cache_items)
    w_ids :
        (j : K)
        → id_of dec j (without dec key c) ≡ ite (dec j key) none (id_of dec j c.m_cache_items)
    w_keys : DistinctKeys dec (without dec key c)
    w_distinct : Distinct (without dec key c)
    w_below : Below c.next_id (without dec key c)
    w_count :
        (if is_some (c.m_cache_hash.at key) then c.m_cache_hash.count else c.m_cache_hash.count + 1)
        ≡ suc (length (without dec key c))

  without_lem : (c : LruCache K V) (key : K) → IsValid c → Without c key
  unfolding without is_some
  without_lem c key v = elim (Option-cases (id_of dec key c.m_cache_items)) [
    | inl miss ↦
        let at_key : c.m_cache_hash.at key ≡ none = v.agrees key ∙ miss in
        record {
          w_entries = rw (at_key, without) (sym (remove_absent dec key c.m_cache_items miss));
          w_ids = λ j.
              rw (at_key, without)
                (elim (dec j key) [
                  | yes p ↦ rw (if_pos _ p) (ap (λ t. id_of dec t c.m_cache_items) p ∙ miss)
                  | no p ↦ rw (if_neg _ p)
                ]);
          w_keys = rw (at_key, without) v.keys;
          w_distinct = rw (at_key, without) v.ids;
          w_below = rw (at_key, without) v.below;
          w_count = rw (at_key, without) (omega (arith, v.counted));
        }
    | inr (i, hit) ↦
        let at_key : c.m_cache_hash.at key ≡ some i = v.agrees key ∙ hit in
        let er = erase-remove dec key i c.m_cache_items hit v.ids in
        record {
          w_entries = rw (at_key, without) er.0;
          w_ids =
              λ j. rw (at_key, without) (id_of-erase dec key j i c.m_cache_items hit v.ids v.keys);
          w_keys =
              rw (at_key, without) (DistinctKeys-erase dec key i c.m_cache_items hit v.ids v.keys);
          w_distinct = rw (at_key, without) (Distinct-erase i c.m_cache_items v.ids);
          w_below = rw (at_key, without) (Below-erase c.next_id i c.m_cache_items v.below);
          w_count = rw (at_key, without) (omega (arith, v.counted, er.1));
        }
  ]

  -- The cache that `put` hands to `clean_cache`.
  abbrev inserted : K → V → LruCache K V → LruCache K V
  inserted key x c = record c {
    m_cache_items = record { id = c.next_id; key = key; value = x } ∷ without dec key c;
    m_cache_hash = hash_set dec key c.next_id c.m_cache_hash;
    next_id = c.next_id + 1;
  }

  inserted-IsValid : (c : LruCache K V) (key : K) (x : V) → IsValid c → IsValid (inserted key x c)
  unfolding hash_set
  inserted-IsValid c key x v =
      let w = without_lem c key v in
      record {
        agrees = λ k. elim (dec k key) [
          | yes p ↦ rw (if_pos _ p, if_pos _ p)
          | no p ↦ ground (arith, v.agrees k, w.w_ids k)
        ];
        counted = w.w_count;
        keys = (ground (arith, w.w_ids key), w.w_keys);
        ids = (Fresh-Below c.next_id (without dec key c) w.w_below, w.w_distinct);
        below = (omega arith, Below-suc c.next_id (without dec key c) w.w_below);
      }

  -- `put` returns, and moves the key to the front with the new value; only what does not fit then
  -- is dropped, from the back.
  pub put-Holds :
      (c : LruCache K V) (es : List (K × V)) (key : K) (x : V)
      → Holds c es
      → (c' : LruCache K V) × (put dec key x c ≡ some c')
        × Holds c' (take c.m_cache_size ((key, x) ∷ remove dec key es))
        × (c'.m_cache_size ≡ c.m_cache_size)
  unfolding put
  put-Holds c es key x h =
      let w = without_lem c key h.valid in
      let v = inserted-IsValid c key x h.valid in
      let (c', e, holds, same) =
        clean_cache-Holds (inserted key x c).m_cache_hash.count (inserted key x c) v
          (omega (arith, v.counted)) in
      (
        c',
        e,
        record {
          valid = holds.valid;
          exact =
              holds.exact
              ∙ ap (λ t. take c.m_cache_size ((key, x) ∷ t))
                  (w.w_entries ∙ ap (remove dec key) h.exact);
        },
        same,
      )

  -- `cache_size` keeps the most recently used entries that fit.
  pub cache_size-Holds :
      (c : LruCache K V) (es : List (K × V)) (n : ℕ)
      → Holds c es
      → (c' : LruCache K V) × (cache_size dec n c ≡ some c')
        × Holds c' (take n es)
        × (c'.m_cache_size ≡ n)
  unfolding cache_size
  cache_size-Holds c es n h =
      let v = h.valid in
      let (c', e, holds, same) =
        clean_cache-Holds c.m_cache_hash.count (record c { m_cache_size = n })
          (record {
            agrees = v.agrees;
            counted = v.counted;
            keys = v.keys;
            ids = v.ids;
            below = v.below;
          })
          (omega (arith, v.counted)) in
      (c', e, record { valid = holds.valid; exact = holds.exact ∙ ap (take n) h.exact }, same)

  pub clear-Holds : (c : LruCache K V) (es : List (K × V)) → Holds c es → Holds (clear dec c) []
  unfolding clear
  clear-Holds c es h = record {
    valid = record { agrees = λ k. refl; counted = refl; keys = tt; ids = tt; below = tt };
    exact = refl;
  }

  pub empty-Holds : (n : ℕ) → Holds (empty_cache n) []
  unfolding empty_cache
  empty-Holds n = record {
    valid = record { agrees = λ k. refl; counted = refl; keys = tt; ids = tt; below = tt };
    exact = refl;
  }
