-- ===== src/TtlCache.antt =====
-- utils/ttl-cache.util.ts: the in-memory cache. A Map keeps its entries in the order of insertion, the
-- least recently used first, since a hit and a `set` delete and insert again. The clock is an
-- argument of each call; `undefined` is no cached value.
pub mod Eviction
pub mod Bounds
pub mod Freshness
mod Tests
use astroid_api.Common.{
  ℕ, zero, suc, ◌+◌, String, Bool, true, false, Option, none, some, List, [], ◌∷◌, ltb, leb,
  if◌then◌else◌, or_else, length, lookup, remove, put,
}

pub record Entry (V : Type 0) : Type 0 where
  pub value : V
  pub expires_at : ℕ

pub record Options : Type 0 where
  pub ttl_ms : Option ℕ
  pub max_entries : Option ℕ

pub record Cache (V : Type 0) : Type 0 where
  pub entries : List (String × Entry V)
  pub ttl_ms : ℕ
  pub max_entries : ℕ
  pub hits : ℕ
  pub misses : ℕ

-- One synchronous part of a call on the cache.
pub data Operation (V : Type 0) : Type 0 where
  ask : (key : String) (now : ℕ) → Operation V
  begin : (bypass : Bool) (key : String) (now : ℕ) → Operation V
  store : (key : String) (value : V) (ttl_ms : Option ℕ) (now : ℕ) → Operation V
  drop_key : (key : String) → Operation V
  drop_all : Operation V

module _ {V : Type 0} where
  abbrev pub new_cache : Options → Cache V
  new_cache o = record {
    entries = [];
    ttl_ms = or_else o.ttl_ms 60000;
    max_entries = or_else o.max_entries 500;
    hits = 0;
    misses = 0;
  }

  -- `get`, from the entry that was looked up.
  unfoldable pub serve : Option (Entry V) → String → ℕ → Cache V → Option V × Cache V
  serve none key now c = (none, record c { misses = c.misses + 1 })
  serve (some e) key now c =
      if leb e.expires_at now
      then (none, record c { entries = remove c.entries key; misses = c.misses + 1 })
      else (
        some e.value,
        record c { entries = put (remove c.entries key) key e; hits = c.hits + 1 },
      )

  unfoldable pub get : String → ℕ → Cache V → Option V × Cache V
  unfolding serve
  get key now c = serve (lookup c.entries key) key now c

  -- The loop that deletes the oldest key while there are too many.
  unfoldable pub evict : ℕ → ℕ → List (String × Entry V) → List (String × Entry V)
  evict zero max_entries m = m
  evict (suc fuel) max_entries [] = []
  evict (suc fuel) max_entries ((a, e) ∷ m) =
      let rest = evict fuel max_entries (remove ((a, e) ∷ m) a) in
      if ltb max_entries (length ((a, e) ∷ m)) then rest else (a, e) ∷ m

  -- `set`; the time to live is the cache's own when it is not given.
  unfoldable pub set : String → V → Option ℕ → ℕ → Cache V → Cache V
  unfolding evict
  set key value ttl_ms now c =
      let e : Entry V = record { value = value; expires_at = now + or_else ttl_ms c.ttl_ms } in
      let m = put (remove c.entries key) key e in
      record c { entries = evict (length m) c.max_entries m }

  -- `getOrSet` before its await; without a value the loader is called, and when it
  -- returns, `set` is.
  unfoldable pub get_or_set : Bool → String → ℕ → Cache V → Option V × Cache V
  unfolding get
  get_or_set true key now c = (none, c)
  get_or_set false key now c = get key now c

  abbrev is_fresh : ℕ → Option (Entry V) → Bool
  is_fresh now none = false
  is_fresh now (some e) = ltb now e.expires_at

  unfoldable pub has : String → ℕ → Cache V → Bool
  has key now c = is_fresh now (lookup c.entries key)

  abbrev is_there : Option (Entry V) → Bool
  is_there none = false
  is_there (some e) = true

  unfoldable pub delete : String → Cache V → Bool × Cache V
  delete key c = (is_there (lookup c.entries key), record c { entries = remove c.entries key })

  unfoldable pub clear : Cache V → Cache V
  clear c = record c { entries = []; hits = 0; misses = 0 }

  unfoldable pub apply : Operation V → Cache V → Cache V
  unfolding get get_or_set set delete clear
  apply (ask key now) c = (get key now c).1
  apply (begin bypass key now) c = (get_or_set bypass key now c).1
  apply (store key value ttl_ms now) c = set key value ttl_ms now c
  apply (drop_key key) c = (delete key c).1
  apply drop_all c = clear c

  abbrev pub run : List (Operation V) → Cache V → Cache V
  run [] c = c
  run (x ∷ xs) c = run xs (apply x c)
