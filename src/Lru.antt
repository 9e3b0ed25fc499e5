-- ===== src/Lru.antt =====
-- `LRUCache` of proxystore/store/cache.py: the entries, the list of keys by recency, and the
-- counters. A method returns the new object beside its result, or raises.
pub mod Spec
pub mod Refinement
pub mod Insertion
pub mod Overwrite
mod Tests
use proxy_store.Prelude.{
  ℕ, suc, ◌+◌, ◌==◌, leb, if◌then◌else◌, Bool, Option, none, some, List, [], ◌∷◌, length,
}
use proxy_store.Prelude.Dict
use proxy_store.Prelude.Dict.{Dict, contains, insert, erase}
use proxy_store.Prelude.Sets.{mem, remove}
use proxy_store.Prelude.Exec.{
  Error, value_error, key_error, index_error, Result, ok, err, Exec, pure, gets, modify, ◌>>=◌,
  ◌>>◌,
}
use proxy_store.Prelude.Int.{ℤ, pos, negsuc}

pub record LruCache (K V : Type 0) : Type 0 where
  pub maxsize : ℕ
  pub hits : ℕ
  pub misses : ℕ
  pub entries : Dict K V
  pub lru : List K

-- `LRUCache.__init__`
unfoldable pub init : {K V : Type 0} → ℤ → Result (LruCache K V)
init (negsuc _) = err value_error
init (pos n) = ok (record { maxsize = n; hits = 0; misses = 0; entries = []; lru = [] })

-- `list.pop()`: the last element, and the list without it
unfoldable pub pop_last : {K : Type 0} → List K → Option (K × List K)
pop_last [] = none
pop_last (k ∷ l) = elim (pop_last l) [ none ↦ some (k, []) | some (q, rest) ↦ some (q, k ∷ rest) ]

module _ {K V : Type 0} (dec : Discrete K) where
  -- `self._lru.remove(key)`
  unfoldable pub remove_recency : K → Exec (LruCache K V) (Unit {0})
  remove_recency key c =
      if mem dec key c.lru
      then (ok tt, record c { lru = remove dec key c.lru })
      else (err value_error, c)

  -- `self._lru.pop()`
  unfoldable pub pop_recency : Exec (LruCache K V) K
  pop_recency c = elim (pop_last c.lru) [
    | none ↦ (err index_error, c)
    | some (q, rest) ↦ (ok q, record c { lru = rest })
  ]

  -- `del self._data[key]`
  unfoldable pub delete_entry : K → Exec (LruCache K V) (Unit {0})
  delete_entry key c =
      if contains dec key c.entries
      then (ok tt, record c { entries = erase dec key c.entries })
      else (err key_error, c)

  -- `LRUCache.evict`
  unfoldable pub evict : K → Exec (LruCache K V) (Unit {0})
  unfolding remove_recency delete_entry
  evict key c =
      if contains dec key c.entries then (delete_entry key >> remove_recency key) c else (ok tt, c)

  -- `LRUCache.exists`
  unfoldable pub exists : K → LruCache K V → Bool
  exists key c = contains dec key c.entries

  -- `LRUCache.get`; `none` is the default `None`
  unfoldable pub get : K → Option V → Exec (LruCache K V) (Option V)
  unfolding remove_recency
  get key default c = elim (Dict.get dec key c.entries) [
    | none ↦ (ok default, record c { misses = c.misses + 1 })
    | some value ↦
        (do
          remove_recency key
          modify (λ d. record d { lru = key ∷ d.lru; hits = d.hits + 1 })
          pure (some value))
          c
  ]

  -- the `if len(self._data) >= self.maxsize` of `set`
  unfoldable pub make_room : Exec (LruCache K V) (Unit {0})
  unfolding pop_recency delete_entry
  make_room c =
      if leb c.maxsize (length c.entries) then (pop_recency >>= delete_entry) c else (ok tt, c)

  -- `LRUCache.set`
  unfoldable pub set : K → V → Exec (LruCache K V) (Unit {0})
  set key value c =
      if c.maxsize == 0
      then (ok tt, c)
      else (make_room
            >> modify
                (λ d. record d { lru = key ∷ d.lru; entries = insert dec key value d.entries }))
          c
