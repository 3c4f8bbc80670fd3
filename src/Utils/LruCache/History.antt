-- ===== src/Utils/LruCache/History.antt =====
-- Whole histories of a cache: every sequence of operations answers as the same sequence on a list
-- of entries does.
use dracon.Prelude.{
  ℕ, ◌≡◌, ◌∙◌, refl, subst, ap, Bool, List, [], ◌∷◌, Option, none, some, take, Option-cases, inl,
  inr, length,
}
use dracon.Utils.LruCache.{
  LruCache, empty_cache, put, value, exists, cache_size, clear, reference, size, erase,
}
use dracon.Utils.LruCache.Lists.{remove, lookup, entries, node_of}
use dracon.Utils.LruCache.Refines.{Holds, put-Holds, cache_size-Holds, clear-Holds, empty-Holds}
use dracon.Utils.LruCache.Reads.{
  has_value, value_hit, value_miss, exists-lookup, reference_hit, reference_miss, size-length,
  remove_missing, erase-Holds,
}

-- A call of the cache; `read` is `value` with a default, `erase_call` erases at the iterator that
-- a walk over the items finds for a key, if it finds one, and `walk` lists the items from begin() to
-- end().
pub data Call (K V : Type 0) : Type 0 where
  put_call : K → V → Call K V
  read : V → K → Call K V
  exists_call : K → Call K V
  resize : ℕ → Call K V
  clear_call : Call K V
  reference_call : K → Call K V
  size_call : Call K V
  erase_call : K → Call K V
  walk : Call K V

-- What a call returns; `range_error` is thrown.
pub data Answer (K V : Type 0) : Type 0 where
  nothing : Answer K V
  found : V → Answer K V
  present : Bool → Answer K V
  range_error : Answer K V
  counted : ℕ → Answer K V
  listed : List (K × V) → Answer K V

module _ {K V : Type 0} where
  -- What `reference` returns, or that it throws.
  abbrev pub reference_answer : Option V → Answer K V
  reference_answer none = range_error
  reference_answer (some x) = found x

module _ {K V : Type 0} (dec : Discrete K) where
  -- A call on the cache; no result stands for undefined behaviour.
  unfoldable pub perform : Call K V → LruCache K V → Option (LruCache K V × Answer K V)
  perform (put_call key x) c = elim (put dec key x c) [ none ↦ none | some c' ↦ some (c', nothing) ]
  perform (read default key) c = elim (value dec default key c) [
    | none ↦ none
    | some (c', x) ↦ some (c', found x)
  ]
  perform (exists_call key) c = some (c, present (exists dec key c))
  perform (resize n) c = elim (cache_size dec n c) [ none ↦ none | some c' ↦ some (c', nothing) ]
  perform clear_call c = some (clear dec c, nothing)
  perform (reference_call key) c = elim (reference dec key c) [
    | none ↦ none
    | some (c', o) ↦ some (c', reference_answer o)
  ]
  perform size_call c = some (c, counted (size dec c))
  perform (erase_call key) c = elim (node_of dec key c.m_cache_items) [
    | none ↦ some (c, nothing)
    | some n ↦ some (erase dec n c, nothing)
  ]
  perform walk c = some (c, listed (entries c.m_cache_items))

  unfoldable pub perform_all : List (Call K V) → LruCache K V → Option (List (Answer K V))
  perform_all [] c = some []
  perform_all (call ∷ calls) c = elim (perform call c) [
    | none ↦ none
    | some (c', a) ↦ elim (perform_all calls c') [ none ↦ none | some answers ↦ some (a ∷ answers) ]
  ]

  -- The abstract cache: a bound, and the entries, the most recently used first.
  hit_or_miss : V → K → List (K × V) → Option V → List (K × V) × V
  hit_or_miss default key es none = (es, default)
  hit_or_miss default key es (some x) = ((key, x) ∷ remove dec key es, x)

  use_entry : K → List (K × V) → Option V → List (K × V)
  use_entry key es none = es
  use_entry key es (some x) = (key, x) ∷ remove dec key es

  unfoldable pub model : Call K V → ℕ × List (K × V) → (ℕ × List (K × V)) × Answer K V
  unfolding hit_or_miss use_entry
  model (put_call key x) (n, es) = ((n, take n ((key, x) ∷ remove dec key es)), nothing)
  model (read default key) (n, es) =
      let r = hit_or_miss default key es (lookup dec key es) in ((n, r.0), found r.1)
  model (exists_call key) (n, es) = ((n, es), present (has_value (lookup dec key es)))
  model (resize m) (n, es) = ((m, take m es), nothing)
  model clear_call (n, es) = ((n, []), nothing)
  model (reference_call key) (n, es) =
      let hit = lookup dec key es in ((n, use_entry key es hit), reference_answer hit)
  model size_call (n, es) = ((n, es), counted (length es))
  model (erase_call key) (n, es) = ((n, remove dec key es), nothing)
  model walk (n, es) = ((n, es), listed es)

  unfoldable pub model_all : List (Call K V) → ℕ × List (K × V) → List (Answer K V)
  model_all [] a = []
  model_all (call ∷ calls) a = (model call a).1 ∷ model_all calls (model call a).0

  -- A cache stands for a bound and entries.
  record Stands (c : LruCache K V) (a : ℕ × List (K × V)) : Type 0 where
    bound : c.m_cache_size ≡ a.0
    holds : Holds dec c a.1

  perform-model :
      (call : Call K V) (c : LruCache K V) (n : ℕ) (es : List (K × V))
      → Stands c (n, es)
      → (c' : LruCache K V) × (perform call c ≡ some (c', (model call (n, es)).1))
        × Stands c' (model call (n, es)).0
  unfolding perform model hit_or_miss use_entry clear erase
  perform-model (put_call key x) c n es s =
      let (c', e, holds, same) = put-Holds dec c es key x s.holds in
      (
        c',
        rw (e, perform) refl,
        record {
          bound = same ∙ s.bound;
          holds = subst (λ k. Holds dec c' (take k ((key, x) ∷ remove dec key es))) s.bound holds;
        },
      )
  perform-model (read default key) c n es s = elim (Option-cases (lookup dec key es)) [
    | inl miss ↦ (
      c,
      rw (value_miss dec c es default key s.holds miss, perform, miss, model, hit_or_miss) refl,
      rw (miss, model, hit_or_miss) s,
    )
    | inr (x, hit) ↦
        let (c', e, holds, same) = value_hit dec c es default key x s.holds hit in
        (
          c',
          rw (e, perform, hit, model, hit_or_miss) refl,
          rw (hit, model, hit_or_miss) (record { bound = same ∙ s.bound; holds = holds }),
        )
  ]
  perform-model (exists_call key) c n es s =
      (c, ap (λ b. some (c, present b)) (exists-lookup dec c es key s.holds), s)
  perform-model (resize m) c n es s =
      let (c', e, holds, same) = cache_size-Holds dec c es m s.holds in
      (c', rw (e, perform) refl, record { bound = same; holds = holds })
  perform-model clear_call c n es s =
      (clear dec c, refl, record { bound = s.bound; holds = clear-Holds dec c es s.holds })
  perform-model (reference_call key) c n es s = elim (Option-cases (lookup dec key es)) [
    | inl miss ↦ (
      c,
      rw (reference_miss dec c es key s.holds miss, perform, miss, model, use_entry) refl,
      rw (miss, model, use_entry) s,
    )
    | inr (x, hit) ↦
        let (c', e, holds, same) = reference_hit dec c es key x s.holds hit in
        (
          c',
          rw (e, perform, hit, model, use_entry) refl,
          rw (hit, model, use_entry) (record { bound = same ∙ s.bound; holds = holds }),
        )
  ]
  perform-model size_call c n es s =
      (c, ap (λ k. some (c, counted k)) (size-length dec c es s.holds), s)
  perform-model (erase_call key) c n es s = elim (Option-cases (node_of dec key c.m_cache_items)) [
    | inl absent ↦
        let same : remove dec key es ≡ es = remove_missing dec c es key s.holds absent in
        (c, rw (absent, perform) refl, rw same s)
    | inr (m, there) ↦ (
      erase dec m c,
      rw (there, perform) refl,
      record { bound = s.bound; holds = erase-Holds dec c es key m s.holds there },
    )
  ]
  perform-model walk c n es s = (c, ap (λ t. some (c, listed t)) s.holds.exact, s)

  perform_all-Stands :
      (calls : List (Call K V)) (c : LruCache K V) (a : ℕ × List (K × V))
      → Stands c a
      → perform_all calls c ≡ some (model_all calls a)
  unfolding perform_all model_all
  perform_all-Stands [] c a s = refl
  perform_all-Stands (call ∷ calls) c a s =
      let (c', e, s') = perform-model call c a.0 a.1 s in
      let rest = perform_all-Stands calls c' (model call a).0 s' in rw (e, perform_all, rest)

  -- Every sequence of calls of put, value, reference, exists, cache_size, clear, size, of walks over
  -- the items and of erase at what a walk finds for a key, on a new cache of any size, returns, with
  -- no undefined behaviour, and answers as the abstract cache does: a list of entries, most recently
  -- used first, cut off at the bound. A reference throws only where there is no entry.
  pub perform_all-model :
      (n : ℕ) (calls : List (Call K V))
      → perform_all calls (empty_cache n) ≡ some (model_all calls (n, []))
  unfolding empty_cache
  perform_all-model n calls =
      perform_all-Stands calls (empty_cache n) (n, [])
        (record { bound = refl; holds = empty-Holds dec n })
