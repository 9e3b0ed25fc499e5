-- ===== src/Ref/Heap.antt =====
-- The proxies of proxystore/store/ref.py, in a heap: they are named by their index, since a
-- reference holds its owner and writes the owner's counts.
use proxy_store.Prelude.{
  ℕ, if◌then◌else◌, Bool, true, false, ◌&&◌, not, is_some, Option, none, some, List, [], ◌∷◌, ◌++◌,
  set,
}
use proxy_store.Prelude.Dict.{Dict, insert, erase}
use proxy_store.Prelude.Exec.{Result, ok, err, reference_invalid}

-- `Proxy`, `OwnedProxy`, `RefProxy` and `RefMutProxy`
pub data Kind : Type 0 where
  base owned ref ref_mut : Kind

abbrev pub is_owned : Kind → Bool
is_owned owned = true
is_owned _ = false

abbrev pub is_base : Kind → Bool
is_base base = true
is_base _ = false

abbrev pub is_ref_mut : Kind → Bool
is_ref_mut ref_mut = true
is_ref_mut _ = false

-- The slots of a proxy. The counts are those of an `OwnedProxy`, the owner that of a reference;
-- `factory_key` and `evict` are read from its `StoreFactory`, if it has one.
pub record Cell (K V : Type 0) : Type 0 where
  pub kind : Kind
  pub valid : Bool
  pub ref_count : ℕ
  pub ref_mut_count : ℕ
  pub owner : Option ℕ
  pub factory_key : Option K
  pub evict : Bool
  pub target : Option V
  pub default_class : Option ℕ
  pub default_hash : Option ℕ

-- the proxies, and the objects in the global store
pub record Heap (K V B : Type 0) : Type 0 where
  pub cells : List (Cell K V)
  pub globals : Dict K B

-- `OwnedProxy(factory)`, `RefProxy(factory, owner=...)` and `RefMutProxy(factory, owner=...)`
abbrev pub new_cell : {K V : Type 0} → Kind → Option ℕ → Option K → Bool → Cell K V
new_cell kind owner key evict = record {
  kind = kind;
  valid = true;
  ref_count = 0;
  ref_mut_count = 0;
  owner = owner;
  factory_key = key;
  evict = evict;
  target = none;
  default_class = none;
  default_hash = none;
}

-- `_copy_attributes(source, dest)`; reading the target of an invalid source raises
unfoldable pub copy_attributes : {K V : Type 0} → Cell K V → Cell K V → Result (Cell K V)
copy_attributes source dest =
    if is_some source.target && not source.valid
    then err reference_invalid
    else ok (record dest {
      target = elim source.target [ none ↦ dest.target | some v ↦ some v ];
      default_class = source.default_class;
      default_hash = source.default_hash;
    })

abbrev pub Action : Type 0 → Type 0 → Type 0 → Type 0 → Type 0
Action K V B A = Heap K V B → Result A × Heap K V B

abbrev pub write_cell : {K V B : Type 0} → ℕ → Cell K V → Heap K V B → Heap K V B
write_cell i c h = record h { cells = set h.cells i c }

abbrev pub add_cell : {K V B : Type 0} → Cell K V → Heap K V B → Heap K V B
add_cell c h = record h { cells = h.cells ++ (c ∷ []) }

module _ {K B : Type 0} (dec : Discrete K) where
  -- `store.evict(factory.key)`
  abbrev pub evict_global : Option K → Dict K B → Dict K B
  evict_global none d = d
  evict_global (some k) d = erase dec k d

  -- `store._set(factory.key, ...)`
  abbrev pub insert_global : Option K → B → Dict K B → Dict K B
  insert_global none b d = d
  insert_global (some k) b d = insert dec k b d
