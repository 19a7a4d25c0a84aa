-- ===== src/TtlCache/Eviction.antt =====
-- The eviction loop drops the oldest entries, exactly as many as are too many.
use astroid_api.Common.{
  ℕ, zero, suc, ◌+◌, ◌-◌, ◌≤◌, String, ◌≡◌, refl, ap, ◌∙◌, inl, inr, Option, List, [], ◌∷◌, ◌++◌,
  arith, ltb, ltb→lt, Bool-cases, or_else, length, eq_refl, remove, put, IsMap, lookup-remove,
  remove-IsMap, put-IsMap, drop, remove_absent, put_absent,
}
use astroid_api.TtlCache.{Entry, Cache, evict, set}

module _ {V : Type 0} where
  pub evict-drop :
      (fuel most : ℕ) (m : List (String × Entry V))
      → IsMap m
      → length m ≤ fuel + most
      → evict fuel most m ≡ drop (length m - most) m
  unfolding evict
  evict-drop zero most m h le = let e : length m - most ≡ 0 = omega (arith, le) in rw e refl
  evict-drop (suc fuel) most [] h le = let e : 0 - most ≡ 0 = omega arith in rw e refl
  evict-drop (suc fuel) most ((a, v) ∷ m) (h, hs) le =
      elim (Bool-cases (ltb most (length ((a, v) ∷ m)))) [
        | inl e ↦
            let more = ltb→lt _ _ e in
            let n : suc (length m) - most ≡ suc (length m - most) = omega (arith, more) in
            rw (e, n, eq_refl a, remove_absent m a h)
              (evict-drop fuel most m hs (omega (arith, le)))
        | inr e ↦ let n : suc (length m) - most ≡ 0 = ground (arith, e) in rw (e, n) refl
      ]

  abbrev pub entry_of : V → Option ℕ → ℕ → Cache V → Entry V
  entry_of value ttl_ms now c = record { value = value; expires_at = now + or_else ttl_ms c.ttl_ms }

  -- The entries after a `set`, before the eviction: the key's new entry is the youngest.
  abbrev pub renewed : String → Entry V → Cache V → List (String × Entry V)
  renewed key e c = remove c.entries key ++ (key, e) ∷ []

  pub renewed-put :
      (key : String) (e : Entry V) (c : Cache V)
      → put (remove c.entries key) key e ≡ renewed key e c
  renewed-put key e c =
      put_absent (remove c.entries key) key e
        (lookup-remove c.entries key key ∙ rw (eq_refl key) refl)

  pub renewed-IsMap :
      (key : String) (e : Entry V) (c : Cache V)
      → IsMap c.entries
      → IsMap (put (remove c.entries key) key e)
  renewed-IsMap key e c h = put-IsMap _ key e (remove-IsMap c.entries key h)

  pub set_entries :
      (key : String) (value : V) (ttl_ms : Option ℕ) (now : ℕ) (c : Cache V)
      → IsMap c.entries
      → let m = put (remove c.entries key) key (entry_of value ttl_ms now c) in
        (set key value ttl_ms now c).entries ≡ drop (length m - c.max_entries) m
  unfolding set
  set_entries key value ttl_ms now c h =
      let e = entry_of value ttl_ms now c in
      evict-drop _ c.max_entries (put (remove c.entries key) key e) (renewed-IsMap key e c h)
        (omega arith)

  -- After a `set` the entries are the others, in their order, followed by the new one, less the
  -- oldest of them, as many as exceed the capacity.
  pub set_evicts_oldest :
      (key : String) (value : V) (ttl_ms : Option ℕ) (now : ℕ) (c : Cache V)
      → IsMap c.entries
      → (set key value ttl_ms now c).entries
        ≡ drop
            (length (renewed key (entry_of value ttl_ms now c) c) - c.max_entries)
            (renewed key (entry_of value ttl_ms now c) c)
  set_evicts_oldest key value ttl_ms now c h =
      set_entries key value ttl_ms now c h
      ∙ ap (λ m. drop (length m - c.max_entries) m)
          (renewed-put key (entry_of value ttl_ms now c) c)
