-- ===== src/Utils/LruCache/Reads.antt =====
-- What the reads of the cache answer, and what `erase` drops: a read moves an entry to the front, and
-- `exists`, `size` and a walk move nothing.
use mathlib.Core.Logic.{ite}
use dracon.Prelude.{
  ℕ, ◌≡◌, ◌∙◌, refl, sym, subst, ap, arith, Bool, true, false, List, ◌∷◌, Option, none, some,
  length, Option-cases, inl, inr,
}
use dracon.Utils.LruCache.{
  Node, LruCache, erase_node, is_some, hash_erase, use_node, value, exists, reference, size, erase,
}
use dracon.Utils.LruCache.Lists.{
  entries, Fresh, Below-erase, Distinct-erase, id_of, remove, lookup, erase-remove,
  Fresh-erase_self, deref-Below, remove_absent, id_of-erase, DistinctKeys-erase, deref_lem, node_of,
  node_of-absent, node_of_lem, lookup_absent,
}
use dracon.Utils.LruCache.Refines.{IsValid, Holds, entries-length}

unfoldable pub has_value : {V : Type 0} → Option V → Bool
has_value none = false
has_value (some x) = true

module _ {K V : Type 0} (dec : Discrete K) where
  used-IsValid :
      (c : LruCache K V) (key : K) (i : ℕ) (x : V)
      → IsValid dec c
      → id_of dec key c.m_cache_items ≡ some i
      → lookup dec key (entries c.m_cache_items) ≡ some x
      → (n : Node K V) × (use_node dec i c
          ≡ some (record c { m_cache_items = n ∷ erase_node i c.m_cache_items }, x))
        × (n.key ≡ key)
        × (n.value ≡ x)
        × IsValid dec (record c { m_cache_items = n ∷ erase_node i c.m_cache_items })
  unfolding use_node
  used-IsValid c key i x v hit seen =
      let (n, d, same_key, same_id, found) = deref_lem dec key i c.m_cache_items hit v.ids in
      let same : n.value ≡ x = cc (found, seen) in
      let others = λ (j : K). id_of-erase dec key j i c.m_cache_items hit v.ids v.keys in
      let er = erase-remove dec key i c.m_cache_items hit v.ids in
      (
        n,
        rw (d, use_node, same) refl,
        same_key,
        same,
        record {
          agrees = λ k. elim (dec k key) [
            | yes p ↦ ground (arith, v.agrees k, p, hit, same_key, same_id)
            | no p ↦ ground (arith, v.agrees k, others k, same_key)
          ];
          counted = omega (arith, v.counted, er.1);
          keys = (
            ground (arith, others n.key, same_key),
            DistinctKeys-erase dec key i c.m_cache_items hit v.ids v.keys,
          );
          ids = (
            subst (λ t. Fresh t (erase_node i c.m_cache_items)) (sym same_id)
                (Fresh-erase_self i c.m_cache_items v.ids),
            Distinct-erase i c.m_cache_items v.ids,
          );
          below = (
            deref-Below c.next_id i c.m_cache_items n d v.below,
            Below-erase c.next_id i c.m_cache_items v.below,
          );
        },
      )

  -- A read that hits returns the stored value and moves the entry to the front.
  pub value_hit :
      (c : LruCache K V) (es : List (K × V)) (default : V) (key : K) (x : V)
      → Holds dec c es
      → lookup dec key es ≡ some x
      → (c' : LruCache K V) × (value dec default key c ≡ some (c', x))
        × Holds dec c' ((key, x) ∷ remove dec key es)
        × (c'.m_cache_size ≡ c.m_cache_size)
  unfolding value
  value_hit c es default key x h found =
      let v = h.valid in
      let seen : lookup dec key (entries c.m_cache_items) ≡ some x =
        ap (lookup dec key) h.exact ∙ found in
      elim (Option-cases (id_of dec key c.m_cache_items)) [
        | inl miss ↦ cc (seen, lookup_absent dec key c.m_cache_items miss)
        | inr (i, hit) ↦
            let (n, e, same_key, same_value, valid) = used-IsValid c key i x v hit seen in
            (
              record c { m_cache_items = n ∷ erase_node i c.m_cache_items },
              rw (v.agrees key ∙ hit, value) e,
              record {
                valid = valid;
                exact =
                    rw (same_key, same_value)
                      (ap (◌∷◌ (key, x)) (
                        (erase-remove dec key i c.m_cache_items hit v.ids).0
                        ∙ ap (remove dec key) h.exact));
              },
              refl,
            )
      ]

  reference-value :
      (c : LruCache K V) (es : List (K × V)) (key : K) (x : V) (c' : LruCache K V)
      → Holds dec c es
      → lookup dec key es ≡ some x
      → value dec x key c ≡ some (c', x)
      → reference dec key c ≡ some (c', some x)
  unfolding reference value
  reference-value c es key x c' h found e = elim (Option-cases (c.m_cache_hash.at key)) [
    | inl miss ↦
        let absent = lookup_absent dec key c.m_cache_items (sym (h.valid.agrees key) ∙ miss) in
        cc (absent, ap (lookup dec key) h.exact, found)
    | inr (i, hit) ↦
        let e' : use_node dec i c ≡ some (c', x) = rw (hit, value) at e in
        rw (hit, e', reference) refl
  ]

  -- A reference that hits returns the stored value and moves the entry to the front.
  pub reference_hit :
      (c : LruCache K V) (es : List (K × V)) (key : K) (x : V)
      → Holds dec c es
      → lookup dec key es ≡ some x
      → (c' : LruCache K V) × (reference dec key c ≡ some (c', some x))
        × Holds dec c' ((key, x) ∷ remove dec key es)
        × (c'.m_cache_size ≡ c.m_cache_size)
  reference_hit c es key x h found =
      let (c', e, holds, same) = value_hit c es x key x h found in
      (c', reference-value c es key x c' h found e, holds, same)

  -- A reference that misses throws, and changes nothing.
  pub reference_miss :
      (c : LruCache K V) (es : List (K × V)) (key : K)
      → Holds dec c es
      → lookup dec key es ≡ none
      → reference dec key c ≡ some (c, none)
  unfolding reference
  reference_miss c es key h missing =
      let v = h.valid in
      elim (Option-cases (id_of dec key c.m_cache_items)) [
        | inl miss ↦ rw (v.agrees key ∙ miss, reference) refl
        | inr (i, hit) ↦
            let (n, d, same_key, same_id, found) = deref_lem dec key i c.m_cache_items hit v.ids in
            cc (found, ap (lookup dec key) h.exact, missing)
      ]

  pub size-length : (c : LruCache K V) (es : List (K × V)) → Holds dec c es → size dec c ≡ length es
  size-length c es h =
      h.valid.counted ∙ sym (entries-length dec c.m_cache_items) ∙ ap length h.exact

  pub remove_missing :
      (c : LruCache K V) (es : List (K × V)) (key : K)
      → Holds dec c es
      → node_of dec key c.m_cache_items ≡ none
      → remove dec key es ≡ es
  remove_missing c es key h absent =
      ap (remove dec key) (sym h.exact)
      ∙ remove_absent dec key c.m_cache_items (node_of-absent dec key c.m_cache_items absent)
      ∙ h.exact

  -- `erase` at a node drops its entry, and no other.
  pub erase-Holds :
      (c : LruCache K V) (es : List (K × V)) (key : K) (m : Node K V)
      → Holds dec c es
      → node_of dec key c.m_cache_items ≡ some m
      → Holds dec (erase dec m c) (remove dec key es)
  unfolding erase hash_erase is_some
  erase-Holds c es key m h there =
      let v = h.valid in
      let (same_key, hit) = node_of_lem dec key c.m_cache_items m there in
      let er = erase-remove dec key m.id c.m_cache_items hit v.ids in
      let at_key : c.m_cache_hash.at m.key ≡ some m.id =
        ap c.m_cache_hash.at same_key ∙ v.agrees key ∙ hit in
      record {
        valid = record {
          agrees = λ k. rw same_key (
              ap (λ t. ite (dec k key) none t) (v.agrees k)
              ∙ sym (id_of-erase dec key k m.id c.m_cache_items hit v.ids v.keys));
          counted = rw at_key (omega (arith, v.counted, er.1));
          keys = DistinctKeys-erase dec key m.id c.m_cache_items hit v.ids v.keys;
          ids = Distinct-erase m.id c.m_cache_items v.ids;
          below = Below-erase c.next_id m.id c.m_cache_items v.below;
        };
        exact = er.0 ∙ ap (remove dec key) h.exact;
      }

  -- A read that misses returns the default, and changes nothing.
  pub value_miss :
      (c : LruCache K V) (es : List (K × V)) (default : V) (key : K)
      → Holds dec c es
      → lookup dec key es ≡ none
      → value dec default key c ≡ some (c, default)
  unfolding value
  value_miss c es default key h missing =
      let v = h.valid in
      elim (Option-cases (id_of dec key c.m_cache_items)) [
        | inl miss ↦ rw (v.agrees key ∙ miss, value) refl
        | inr (i, hit) ↦
            let (n, d, same_key, same_id, found) = deref_lem dec key i c.m_cache_items hit v.ids in
            cc (found, ap (lookup dec key) h.exact, missing)
      ]

  -- What `exists` says is whether there is an entry.
  pub exists-lookup :
      (c : LruCache K V) (es : List (K × V)) (key : K)
      → Holds dec c es
      → exists dec key c ≡ has_value (lookup dec key es)
  unfolding exists is_some has_value
  exists-lookup c es key h =
      let v = h.valid in
      elim (Option-cases (id_of dec key c.m_cache_items)) [
        | inl miss ↦
            let none_there : lookup dec key es ≡ none =
              ap (lookup dec key) (sym h.exact) ∙ lookup_absent dec key c.m_cache_items miss in
            rw (v.agrees key ∙ miss, none_there) refl
        | inr (i, hit) ↦
            let (n, d, same_key, same_id, found) = deref_lem dec key i c.m_cache_items hit v.ids in
            let there : lookup dec key es ≡ some n.value =
              ap (lookup dec key) (sym h.exact) ∙ found in
            rw (v.agrees key ∙ hit, there) refl
      ]
