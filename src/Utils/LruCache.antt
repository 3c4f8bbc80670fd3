-- ===== src/Utils/LruCache.antt =====
-- include/dracon/utils.h: class lru_cache. The list's nodes carry the identity that an iterator
-- has, and the hash maps a key to a node's identity. `none` is undefined behaviour: an iterator
-- that is no node of the list, or `rbegin()` of an empty list; or a loop cut short.
pub mod Lists
pub mod Refines
pub mod Reads
pub mod History
use mathlib.Core.Logic.{ite}
use dracon.Prelude.{
  ℕ, zero, suc, ◌+◌, ◌-◌, Bool, true, false, List, [], ◌∷◌, ◌++◌, Option, none, some, ltb,
  if◌then◌else◌, ◌==◌, length, is_empty,
}

pub record Node {ℓ} (K V : Type ℓ) : Type ℓ where
  pub id : ℕ
  pub key : K
  pub value : V

-- `std::unordered_map<K, iterator>`: what each key is mapped to, and how many keys there are.
pub record Hash {ℓ} (K : Type ℓ) : Type ℓ where
  pub at : K → Option ℕ
  pub count : ℕ

pub record LruCache {ℓ} (K V : Type ℓ) : Type ℓ where
  pub m_cache_items : List (Node K V)
  pub m_cache_hash : Hash K
  pub m_cache_size : ℕ
  pub next_id : ℕ

module _ {ℓ} {K V : Type ℓ} where
  -- `list::erase(it)`.
  unfoldable pub erase_node : ℕ → List (Node K V) → List (Node K V)
  erase_node i [] = []
  erase_node i (n ∷ ns) = if n.id == i then ns else n ∷ erase_node i ns

  -- `*it`.
  unfoldable pub deref : ℕ → List (Node K V) → Option (Node K V)
  deref i [] = none
  deref i (n ∷ ns) = if n.id == i then some n else deref i ns

  unfoldable pub pop_back : List (Node K V) → List (Node K V)
  pop_back [] = []
  pop_back (n ∷ []) = []
  pop_back (n ∷ m ∷ ns) = n ∷ pop_back (m ∷ ns)

  -- `*rbegin()`.
  unfoldable pub back : List (Node K V) → Option (Node K V)
  back [] = none
  back (n ∷ []) = some n
  back (n ∷ m ∷ ns) = back (m ∷ ns)

-- The constructor.
unfoldable pub empty_cache {ℓ} : {K V : Type ℓ} → ℕ → LruCache K V
empty_cache size = record {
  m_cache_items = [];
  m_cache_hash = record { at = λ _. none; count = 0 };
  m_cache_size = size;
  next_id = 0;
}

is_some : Option ℕ → Bool
is_some none = false
is_some (some i) = true

module _ {ℓ} {K : Type ℓ} (dec : Discrete K) where
  -- `hash[key] = it`.
  unfoldable pub hash_set : K → ℕ → Hash K → Hash K
  unfolding is_some
  hash_set key i h = record {
    at = λ k. ite (dec k key) (some i) (h.at k);
    count = if is_some (h.at key) then h.count else h.count + 1;
  }

  -- `hash.erase(key)`.
  unfoldable pub hash_erase : K → Hash K → Hash K
  unfolding is_some
  hash_erase key h = record {
    at = λ k. ite (dec k key) none (h.at k);
    count = if is_some (h.at key) then h.count - 1 else h.count;
  }

module _ {ℓ} {K V : Type ℓ} (dec : Discrete K) where
  -- The loop of `clean_cache`, with fuel.
  unfoldable pub clean_cache : ℕ → LruCache K V → Option (LruCache K V)
  clean_cache zero c = if ltb c.m_cache_size c.m_cache_hash.count then none else some c
  clean_cache (suc fuel) c =
      let rest = λ (n : Node K V). clean_cache fuel (record c {
        m_cache_hash = hash_erase dec n.key c.m_cache_hash;
        m_cache_items = pop_back c.m_cache_items;
      }) in
      if ltb c.m_cache_size c.m_cache_hash.count
      then elim (back c.m_cache_items) [ none ↦ none | some n ↦ rest n ]
      else some c

  -- `clean_cache` takes away a key a round.
  abbrev pub clean : LruCache K V → Option (LruCache K V)
  clean c = clean_cache c.m_cache_hash.count c

  -- The items with the node of `key`, if there is one, taken out.
  unfoldable pub without : K → LruCache K V → List (Node K V)
  without key c = elim (c.m_cache_hash.at key) [
    | none ↦ c.m_cache_items
    | some i ↦ erase_node i c.m_cache_items
  ]

  unfoldable pub put : K → V → LruCache K V → Option (LruCache K V)
  put key value c = clean (record c {
    m_cache_items = record { id = c.next_id; key = key; value = value } ∷ without key c;
    m_cache_hash = hash_set dec key c.next_id c.m_cache_hash;
    next_id = c.next_id + 1;
  })

  -- `splice(begin(), items, it)`, and `it->second->second`.
  unfoldable pub use_node : ℕ → LruCache K V → Option (LruCache K V × V)
  use_node i c = elim (deref i c.m_cache_items) [
    | none ↦ none
    | some n ↦ some (record c { m_cache_items = n ∷ erase_node i c.m_cache_items }, n.value)
  ]

  -- `reference`: no value stands for the thrown std::range_error.
  unfoldable pub reference : K → LruCache K V → Option (LruCache K V × Option V)
  reference key c = elim (c.m_cache_hash.at key) [
    | none ↦ some (c, none)
    | some i ↦ elim (use_node i c) [ none ↦ none | some (c', v) ↦ some (c', some v) ]
  ]

  -- `value`; the default value is an argument.
  unfoldable pub value : V → K → LruCache K V → Option (LruCache K V × V)
  value default key c = elim (c.m_cache_hash.at key) [
    | none ↦ some (c, default)
    | some i ↦ use_node i c
  ]

  unfoldable pub exists : K → LruCache K V → Bool
  unfolding is_some
  exists key c = is_some (c.m_cache_hash.at key)

  unfoldable pub cache_size : ℕ → LruCache K V → Option (LruCache K V)
  cache_size size c = clean (record c { m_cache_size = size })

  unfoldable pub clear : LruCache K V → LruCache K V
  clear c = record c { m_cache_items = []; m_cache_hash = record { at = λ _. none; count = 0 } }

  -- `erase(it)`, at a node of the list.
  unfoldable pub erase : Node K V → LruCache K V → LruCache K V
  erase n c = record c {
    m_cache_hash = hash_erase dec n.key c.m_cache_hash;
    m_cache_items = erase_node n.id c.m_cache_items;
  }

  abbrev pub size : LruCache K V → ℕ
  size c = c.m_cache_hash.count
