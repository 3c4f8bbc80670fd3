-- ===== src/Utils/LruCache/Lists.antt =====
-- Lists of nodes: what each operation does to the entries and to the identities.
use mathlib.Core.Logic.{ite, if_pos, if_neg}
use dracon.Prelude.{
  ℕ, zero, suc, ◌+◌, ◌<◌, ◌≡◌, ◌≢◌, ◌∙◌, refl, sym, ap, arith, List, [], ◌∷◌, Option, none, some,
  ◌==◌, length, take, Bool-cases, inl, inr, subst, ==_iff,
}
use dracon.Utils.LruCache.{Node, erase_node, deref, pop_back, back}

-- The entries, most recently used first.
abbrev pub entries {ℓ} : {K V : Type ℓ} → List (Node K V) → List (K × V)
entries [] = []
entries (n ∷ ns) = (n.key, n.value) ∷ entries ns

module _ {ℓ} {K V : Type ℓ} where
  -- No node has this identity.
  abbrev pub Fresh : ℕ → List (Node K V) → Type 0
  Fresh i [] = Unit
  Fresh i (n ∷ ns) = (n.id ≢ i) × Fresh i ns

  -- All identities are different.
  abbrev pub Distinct : List (Node K V) → Type 0
  Distinct [] = Unit
  Distinct (n ∷ ns) = Fresh n.id ns × Distinct ns

  abbrev pub Below : ℕ → List (Node K V) → Type 0
  Below b [] = Unit
  Below b (n ∷ ns) = (n.id < b) × Below b ns

  pub Fresh-Below : (b : ℕ) (ns : List (Node K V)) → Below b ns → Fresh b ns
  Fresh-Below b [] h = tt
  Fresh-Below b (n ∷ ns) h = (omega (arith, h.0), Fresh-Below b ns h.1)

  pub Below-suc : (b : ℕ) (ns : List (Node K V)) → Below b ns → Below (b + 1) ns
  Below-suc b [] h = tt
  Below-suc b (n ∷ ns) h = (omega (arith, h.0), Below-suc b ns h.1)

  pub Below-erase : (b i : ℕ) (ns : List (Node K V)) → Below b ns → Below b (erase_node i ns)
  unfolding erase_node
  Below-erase b i [] h = tt
  Below-erase b i (n ∷ ns) h = elim (Bool-cases (n.id == i)) [
    | inl e ↦ rw e h.1
    | inr e ↦ rw e (h.0, Below-erase b i ns h.1)
  ]

  pub Fresh-erase : (j i : ℕ) (ns : List (Node K V)) → Fresh j ns → Fresh j (erase_node i ns)
  unfolding erase_node
  Fresh-erase j i [] h = tt
  Fresh-erase j i (n ∷ ns) h = elim (Bool-cases (n.id == i)) [
    | inl e ↦ rw e h.1
    | inr e ↦ rw e (h.0, Fresh-erase j i ns h.1)
  ]

  pub Distinct-erase : (i : ℕ) (ns : List (Node K V)) → Distinct ns → Distinct (erase_node i ns)
  unfolding erase_node
  Distinct-erase i [] h = tt
  Distinct-erase i (n ∷ ns) h = elim (Bool-cases (n.id == i)) [
    | inl e ↦ rw e h.1
    | inr e ↦ rw e (Fresh-erase n.id i ns h.0, Distinct-erase i ns h.1)
  ]

  -- An erased identity is gone.
  pub Fresh-erase_self : (i : ℕ) (ns : List (Node K V)) → Distinct ns → Fresh i (erase_node i ns)
  unfolding erase_node
  Fresh-erase_self i [] h = tt
  Fresh-erase_self i (n ∷ ns) h = elim (Bool-cases (n.id == i)) [
    | inl e ↦ rw e (subst (λ t. Fresh t ns) ((==_iff n.id i).0 e) h.0)
    | inr e ↦ rw e (ground (arith), Fresh-erase_self i ns h.1)
  ]

  pub deref-Below :
      (b i : ℕ) (ns : List (Node K V)) (n : Node K V) → deref i ns ≡ some n → Below b ns → n.id < b
  unfolding deref
  deref-Below b i [] n e h = cc
  deref-Below b i (m ∷ ns) n e h = elim (Bool-cases (m.id == i)) [
    | inl s ↦ ground (arith, h.0)
    | inr s ↦ deref-Below b i ns n (rw s at e) h.1
  ]

  pub pop_back-Fresh : (i : ℕ) (ns : List (Node K V)) → Fresh i ns → Fresh i (pop_back ns)
  unfolding pop_back
  pop_back-Fresh i [] h = tt
  pop_back-Fresh i (n ∷ []) h = tt
  pop_back-Fresh i (n ∷ m ∷ ns) h = (h.0, pop_back-Fresh i (m ∷ ns) h.1)

  pub pop_back-Distinct : (ns : List (Node K V)) → Distinct ns → Distinct (pop_back ns)
  unfolding pop_back
  pop_back-Distinct [] h = tt
  pop_back-Distinct (n ∷ []) h = tt
  pop_back-Distinct (n ∷ m ∷ ns) h =
      (pop_back-Fresh n.id (m ∷ ns) h.0, pop_back-Distinct (m ∷ ns) h.1)

  pub pop_back-Below : (b : ℕ) (ns : List (Node K V)) → Below b ns → Below b (pop_back ns)
  unfolding pop_back
  pop_back-Below b [] h = tt
  pop_back-Below b (n ∷ []) h = tt
  pop_back-Below b (n ∷ m ∷ ns) h = (h.0, pop_back-Below b (m ∷ ns) h.1)

  -- Taking off the back leaves what the first nodes are.
  pub take-pop_back :
      (k : ℕ) (ns : List (Node K V))
      → k < length ns
      → take k (entries (pop_back ns)) ≡ take k (entries ns)
  unfolding pop_back
  take-pop_back k [] h = absurd (omega arith)
  take-pop_back zero (n ∷ ns) h = refl
  take-pop_back (suc k) (n ∷ []) h = absurd (omega arith)
  take-pop_back (suc k) (n ∷ m ∷ ns) h =
      ap (◌∷◌ (n.key, n.value)) (take-pop_back k (m ∷ ns) (omega arith))

  pub length-pop_back :
      (n : Node K V) (ns : List (Node K V)) → length (pop_back (n ∷ ns)) ≡ length ns
  unfolding pop_back
  length-pop_back n [] = refl
  length-pop_back n (m ∷ ns) = ap suc (length-pop_back m ns)

module _ {K V : Type 0} (dec : Discrete K) where
  -- The first node of a key: what the hash should say.
  abbrev pub id_of : K → List (Node K V) → Option ℕ
  id_of k [] = none
  id_of k (n ∷ ns) = ite (dec k n.key) (some n.id) (id_of k ns)

  -- The abstract operations on entries.
  abbrev pub remove : K → List (K × V) → List (K × V)
  remove k [] = []
  remove k (e ∷ es) = ite (dec k e.0) es (e ∷ remove k es)

  abbrev pub lookup : K → List (K × V) → Option V
  lookup k [] = none
  lookup k (e ∷ es) = ite (dec k e.0) (some e.1) (lookup k es)

  -- No key twice.
  abbrev pub DistinctKeys : List (Node K V) → Type 0
  DistinctKeys [] = Unit
  DistinctKeys (n ∷ ns) = (id_of n.key ns ≡ none) × DistinctKeys ns

  id_of-ne : (j i : ℕ) (k : K) (ns : List (Node K V)) → Fresh j ns → id_of k ns ≡ some i → j ≢ i
  id_of-ne j i k [] f e = cc
  id_of-ne j i k (n ∷ ns) f e = elim (dec k n.key) [
    | yes p ↦ ground arith
    | no p ↦ id_of-ne j i k ns f.1 (rw (if_neg _ p) at e)
  ]

  pub erase-remove :
      (k : K) (i : ℕ) (ns : List (Node K V))
      → id_of k ns ≡ some i
      → Distinct ns
      → (entries (erase_node i ns) ≡ remove k (entries ns))
        × (suc (length (erase_node i ns)) ≡ length ns)
  unfolding erase_node
  erase-remove k i [] e d = cc
  erase-remove k i (n ∷ ns) e d = elim (dec k n.key) [
    | yes p ↦ ground arith
    | no p ↦
        let e' : id_of k ns ≡ some i = rw (if_neg _ p) at e in
        ground (arith, id_of-ne n.id i k ns d.0 e', erase-remove k i ns e' d.1)
  ]

  pub remove_absent :
      (k : K) (ns : List (Node K V)) → id_of k ns ≡ none → remove k (entries ns) ≡ entries ns
  remove_absent k [] e = refl
  remove_absent k (n ∷ ns) e = ground (arith, remove_absent k ns)

  pub id_of-erase :
      (k j : K) (i : ℕ) (ns : List (Node K V))
      → id_of k ns ≡ some i
      → Distinct ns
      → DistinctKeys ns
      → id_of j (erase_node i ns) ≡ ite (dec j k) none (id_of j ns)
  unfolding erase_node
  id_of-erase k j i [] e d q = cc
  id_of-erase k j i (n ∷ ns) e d q = elim (dec k n.key) [
    | yes p ↦ ground arith
    | no p ↦
        let e' : id_of k ns ≡ some i = rw (if_neg _ p) at e in
        ground (arith, id_of-ne n.id i k ns d.0 e', id_of-erase k j i ns e' d.1 q.1)
  ]

  pub DistinctKeys-erase :
      (k : K) (i : ℕ) (ns : List (Node K V))
      → id_of k ns ≡ some i
      → Distinct ns
      → DistinctKeys ns
      → DistinctKeys (erase_node i ns)
  unfolding erase_node
  DistinctKeys-erase k i [] e d q = cc
  DistinctKeys-erase k i (n ∷ ns) e d q = elim (dec k n.key) [
    | yes p ↦ ground arith
    | no p ↦
        let e' : id_of k ns ≡ some i = rw (if_neg _ p) at e in
        ground (
          arith,
          id_of-ne n.id i k ns d.0 e',
          id_of-erase k n.key i ns e' d.1 q.1,
          DistinctKeys-erase k i ns e' d.1 q.1,
        )
  ]

  pub deref_lem :
      (k : K) (i : ℕ) (ns : List (Node K V))
      → id_of k ns ≡ some i
      → Distinct ns
      → (n : Node K V) × (deref i ns ≡ some n)
        × (n.key ≡ k)
        × (n.id ≡ i)
        × (lookup k (entries ns) ≡ some n.value)
  unfolding deref
  deref_lem k i [] e d = cc
  deref_lem k i (n ∷ ns) e d = elim (dec k n.key) [
    | yes p ↦ (n, ground arith, ground arith, ground arith, ground arith)
    | no p ↦
        let e' : id_of k ns ≡ some i = rw (if_neg _ p) at e in
        let (m, a, b, c, l) = deref_lem k i ns e' d.1 in
        (m, ground (arith, id_of-ne n.id i k ns d.0 e'), b, c, rw (if_neg _ p) l)
  ]

  -- The node that a walk over the list finds for a key.
  unfoldable pub node_of : K → List (Node K V) → Option (Node K V)
  node_of k [] = none
  node_of k (n ∷ ns) = ite (dec k n.key) (some n) (node_of k ns)

  pub node_of-absent : (k : K) (ns : List (Node K V)) → node_of k ns ≡ none → id_of k ns ≡ none
  unfolding node_of
  node_of-absent k [] e = refl
  node_of-absent k (n ∷ ns) e = ground (arith, node_of-absent k ns)

  pub node_of_lem :
      (k : K) (ns : List (Node K V)) (m : Node K V)
      → node_of k ns ≡ some m
      → (m.key ≡ k) × (id_of k ns ≡ some m.id)
  unfolding node_of
  node_of_lem k [] m e = cc
  node_of_lem k (n ∷ ns) m e = elim (dec k n.key) [
    | yes p ↦
        let same : n ≡ m = ground arith in
        (sym (ap Node.key same) ∙ sym p, rw (if_pos _ p) (ap (λ t. some t.id) same))
    | no p ↦ let (key, id) = node_of_lem k ns m (rw (if_neg _ p) at e) in (key, rw (if_neg _ p) id)
  ]

  pub lookup_absent :
      (k : K) (ns : List (Node K V)) → id_of k ns ≡ none → lookup k (entries ns) ≡ none
  lookup_absent k [] e = refl
  lookup_absent k (n ∷ ns) e = ground (arith, lookup_absent k ns)

  -- The last node, and what the others are without it.
  pub back_lem :
      (n : Node K V) (ns : List (Node K V))
      → DistinctKeys (n ∷ ns)
      → (l : Node K V) × (back (n ∷ ns) ≡ some l)
        × DistinctKeys (pop_back (n ∷ ns))
        × ((j : K) → id_of j (pop_back (n ∷ ns)) ≡ ite (dec j l.key) none (id_of j (n ∷ ns)))
        × (i : ℕ) × (id_of l.key (n ∷ ns) ≡ some i)
  unfolding back pop_back
  back_lem n [] q = (n, refl, tt, λ j. ground arith, n.id, ground arith)
  back_lem n (m ∷ ns) q =
      let (l, b, keys, ids, i, has) = back_lem m ns q.1 in
      let other : n.key ≢ l.key = λ same. cc q.0 in
      (
        l,
        b,
        (rw (ids n.key) (ground (arith, q.0)), keys),
        λ j. ground (arith, ids j),
        i,
        rw (if_neg (dec l.key n.key) (λ p. other (sym p))) has,
      )
