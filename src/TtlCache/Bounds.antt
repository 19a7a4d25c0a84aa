-- ===== src/TtlCache/Bounds.antt =====
-- The cache never holds more entries than its capacity.
use astroid_api.Common.{
  ℕ, ◌+◌, ◌-◌, ◌≤◌, String, ◌≡◌, refl, sym, subst, inl, inr, true, false, Option, some, List, [],
  ◌∷◌, arith, leb, if_both, Option-cases, or_else, length, length-append, lookup, remove, put,
  IsMap, remove-IsMap, length-remove, drop-IsMap, length-drop, remove_present,
}
use astroid_api.TtlCache.{
  Entry, Options, Cache, new_cache, serve, get, set, get_or_set, delete, clear, Operation, ask,
  begin, store, drop_key, drop_all, apply, run,
}
use astroid_api.TtlCache.Eviction.{entry_of, renewed-put, renewed-IsMap, set_entries}

module _ {V : Type 0} where
  -- Each key once, and no more entries than the capacity, which is that of the options.
  pub record IsWellFormed (o : Options) (c : Cache V) : Type 0 where
    pub is_map : IsMap c.entries
    pub bounded : length c.entries ≤ c.max_entries
    pub capacity : c.max_entries ≡ or_else o.max_entries 500
    pub default_ttl : c.ttl_ms ≡ or_else o.ttl_ms 60000

  module _ (o : Options) where
    abbrev Keeps : (Cache V → Cache V) → Type 0
    Keeps f = (c : Cache V) → IsWellFormed o c → IsWellFormed o (f c)

    abbrev Served : Option V × Cache V → Type 0
    Served p = IsWellFormed o p.1

    remove-IsWellFormed :
        (key : String) (n m : ℕ) (c : Cache V)
        → IsWellFormed o c
        → IsWellFormed o (record c { entries = remove c.entries key; hits = n; misses = m })
    remove-IsWellFormed key n m c w = record {
      is_map = remove-IsMap c.entries key w.is_map;
      bounded = omega (arith, length-remove c.entries key, w.bounded);
      capacity = w.capacity;
      default_ttl = w.default_ttl;
    }

    touch-IsWellFormed :
        (key : String) (e : Entry V) (n : ℕ) (c : Cache V)
        → lookup c.entries key ≡ some e
        → IsWellFormed o c
        → IsWellFormed o (record c { entries = put (remove c.entries key) key e; hits = n })
    touch-IsWellFormed key e n c h w = record {
      is_map = renewed-IsMap key e c w.is_map;
      bounded = rw (renewed-put key e c) (
          omega (
            arith,
            length-append (remove c.entries key) ((key, e) ∷ []),
            remove_present c.entries key e h,
            w.bounded,
          ));
      capacity = w.capacity;
      default_ttl = w.default_ttl;
    }

    get-IsWellFormed : (key : String) (now : ℕ) → Keeps (λ c. (get key now c).1)
    unfolding get serve
    get-IsWellFormed key now c w = elim (Option-cases (lookup c.entries key)) [
      | inl e ↦ rw e (record {
        is_map = w.is_map;
        bounded = w.bounded;
        capacity = w.capacity;
        default_ttl = w.default_ttl;
      })
      | inr (x, e) ↦ rw e (
          if_both Served (leb x.expires_at now) _ _
            (remove-IsWellFormed key c.hits (c.misses + 1) c w)
            (touch-IsWellFormed key x (c.hits + 1) c e w))
    ]

    set-IsWellFormed :
        (key : String) (value : V) (ttl_ms : Option ℕ) (now : ℕ) → Keeps (set key value ttl_ms now)
    unfolding set
    set-IsWellFormed key value ttl_ms now c w =
        let m = put (remove c.entries key) key (entry_of value ttl_ms now c) in
        let e = set_entries key value ttl_ms now c w.is_map in
        record {
          is_map = subst IsMap (sym e) (
              drop-IsMap (length m - c.max_entries) m
                (renewed-IsMap key (entry_of value ttl_ms now c) c w.is_map));
          bounded =
              subst (λ m. length m ≤ c.max_entries) (sym e)
                (omega (arith, length-drop (length m - c.max_entries) m));
          capacity = w.capacity;
          default_ttl = w.default_ttl;
        }

    pub apply-IsWellFormed : (x : Operation V) → Keeps (apply x)
    unfolding apply get_or_set delete clear
    apply-IsWellFormed (ask key now) c w = get-IsWellFormed key now c w
    apply-IsWellFormed (begin true key now) c w = w
    apply-IsWellFormed (begin false key now) c w = get-IsWellFormed key now c w
    apply-IsWellFormed (store key value ttl_ms now) c w = set-IsWellFormed key value ttl_ms now c w
    apply-IsWellFormed (drop_key key) c w = remove-IsWellFormed key c.hits c.misses c w
    apply-IsWellFormed drop_all c w = record {
      is_map = tt;
      bounded = omega arith;
      capacity = w.capacity;
      default_ttl = w.default_ttl;
    }

    pub run_from-IsWellFormed : (xs : List (Operation V)) → Keeps (run xs)
    run_from-IsWellFormed [] c w = w
    run_from-IsWellFormed (x ∷ xs) c w =
        run_from-IsWellFormed xs (apply x c) (apply-IsWellFormed x c w)

    -- Whatever operations ran on a new cache, each key has one entry and there are no more entries than
    -- the options' capacity, 500 by default.
    pub run-IsWellFormed : (xs : List (Operation V)) → IsWellFormed o (run xs (new_cache o))
    run-IsWellFormed xs =
        run_from-IsWellFormed xs (new_cache o)
          (record { is_map = tt; bounded = omega arith; capacity = refl; default_ttl = refl })
