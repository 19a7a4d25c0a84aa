-- ===== src/TtlCache/Freshness.antt =====
-- What `get` returns is what was last stored under the key, while it is not expired.
use astroid_api.Common.{
  ℕ, ◌+◌, ◌-◌, ◌≤◌, ◌<◌, String, ◌≡◌, refl, sym, ap, ◌∙◌, subst, inl, inr, true, false, Option,
  none, some, List, [], ◌∷◌, arith, str_eq, eq_iff, ltb, leb, if◌then◌else◌, Bool-cases,
  Option-cases, or_else, length, length-append, eq_refl, lookup, remove, put, IsMap, lookup-remove,
  lookup-put, lookup-drop, lookup-drop_youngest,
}
use astroid_api.TtlCache.{
  Entry, Options, Cache, new_cache, serve, get, set, get_or_set, has, delete, clear, Operation, ask,
  begin, store, drop_key, drop_all, apply, run,
}
use astroid_api.TtlCache.Eviction.{entry_of, renewed, renewed-IsMap, set_evicts_oldest, set_entries}
use astroid_api.TtlCache.Bounds.{apply-IsWellFormed, IsWellFormed, run-IsWellFormed}

module _ {V : Type 0} where
  -- The entry that the operations last stored under a key and did not delete since.
  abbrev pub latest : String → ℕ → List (Operation V) → Option (Entry V) → Option (Entry V)
  latest k ttl [] l = l
  latest k ttl (ask key now ∷ xs) l = latest k ttl xs l
  latest k ttl (begin bypass key now ∷ xs) l = latest k ttl xs l
  latest k ttl (store key value ttl_ms now ∷ xs) l = latest k ttl xs (
      if str_eq key k
      then some (record { value = value; expires_at = now + or_else ttl_ms ttl })
      else l)
  latest k ttl (drop_key key ∷ xs) l = latest k ttl xs (if str_eq key k then none else l)
  latest k ttl (drop_all ∷ xs) l = latest k ttl xs none

  -- Every entry is the latest of its key.
  abbrev Traced : List (String × Entry V) → String → Option (Entry V) → Type 0
  Traced m k l = (e : Entry V) → lookup m k ≡ some e → l ≡ some e

  removed_was :
      (m : List (String × Entry V)) (key k : String) (e : Entry V)
      → lookup (remove m key) k ≡ some e
      → (str_eq key k ≡ false) × (lookup m k ≡ some e)
  removed_was m key k e h =
      let q : (if str_eq key k then none else lookup m k) ≡ some e =
        sym (lookup-remove m key k) ∙ h in
      elim (Bool-cases (str_eq key k)) [
        | inl s ↦ ground (arith, s, q)
        | inr s ↦ (s, sym (rw s refl) ∙ q)
      ]

  -- Storing again what is there changes no look-up.
  touched_was :
      (m : List (String × Entry V)) (key k : String) (x e : Entry V)
      → lookup m key ≡ some x
      → lookup (put (remove m key) key x) k ≡ some e
      → lookup m k ≡ some e
  touched_was m key k x e h p =
      let q : (if str_eq key k then some x else lookup (remove m key) k) ≡ some e =
        sym (lookup-put (remove m key) key k x) ∙ p in
      elim (Bool-cases (str_eq key k)) [
        | inl s ↦ sym (ap (lookup m) ((eq_iff key k).0 s)) ∙ h ∙ sym (rw s refl) ∙ q
        | inr s ↦ (removed_was m key k e (sym (rw s refl) ∙ q)).1
      ]

  get-Traced :
      (key k : String) (now : ℕ) (c : Cache V) (l : Option (Entry V))
      → Traced c.entries k l
      → Traced (get key now c).1.entries k l
  unfolding get serve
  get-Traced key k now c l h = elim (Option-cases (lookup c.entries key)) [
    | inl e ↦ rw e h
    | inr (x, e) ↦ rw e (elim (Bool-cases (leb x.expires_at now)) [
      | inl s ↦ rw s (λ y q. h y (removed_was c.entries key k y q).1)
      | inr s ↦ rw s (λ y q. h y (touched_was c.entries key k x y e q))
    ])
  ]

  set-Traced :
      (key k : String) (value : V) (ttl_ms : Option ℕ) (now : ℕ) (c : Cache V)
      (l : Option (Entry V))
      → IsMap c.entries
      → Traced c.entries k l
      → Traced
          (set key value ttl_ms now c).entries
          k
          (if str_eq key k then some (entry_of value ttl_ms now c) else l)
  set-Traced key k value ttl_ms now c l m h e p =
      let x = entry_of value ttl_ms now c in
      let m' = put (remove c.entries key) key x in
      let there =
        lookup-drop (length m' - c.max_entries) m' k e (renewed-IsMap key x c m)
          (ap (λ m. lookup m k) (sym (set_entries key value ttl_ms now c m)) ∙ p) in
      let q : (if str_eq key k then some x else lookup (remove c.entries key) k) ≡ some e =
        sym (lookup-put (remove c.entries key) key k x) ∙ there in
      elim (Bool-cases (str_eq key k)) [
        | inl s ↦ rw s (sym (rw s refl) ∙ q)
        | inr s ↦ rw s (h e (removed_was c.entries key k e (sym (rw s refl) ∙ q)).1)
      ]

  run-Traced :
      (o : Options) (k : String) (xs : List (Operation V)) (c : Cache V) (l : Option (Entry V))
      → IsWellFormed o c
      → Traced c.entries k l
      → Traced (run xs c).entries k (latest k (or_else o.ttl_ms 60000) xs l)
  unfolding apply get_or_set delete clear
  run-Traced o k [] c l w h = h
  run-Traced o k (ask key now ∷ xs) c l w h =
      run-Traced o k xs (get key now c).1 l (apply-IsWellFormed o (ask key now) c w)
        (get-Traced key k now c l h)
  run-Traced o k (begin true key now ∷ xs) c l w h = run-Traced o k xs c l w h
  run-Traced o k (begin false key now ∷ xs) c l w h =
      run-Traced o k xs (get key now c).1 l (apply-IsWellFormed o (ask key now) c w)
        (get-Traced key k now c l h)
  run-Traced o k (store key value ttl_ms now ∷ xs) c l w h =
      let e : Entry V = record {
        value = value;
        expires_at = now + or_else ttl_ms (or_else o.ttl_ms 60000);
      } in
      run-Traced o k xs (set key value ttl_ms now c) (if str_eq key k then some e else l)
        (apply-IsWellFormed o (store key value ttl_ms now) c w)
        (subst
          (λ d. Traced (set key value ttl_ms now c).entries k (
            if str_eq key k
            then some (record { value = value; expires_at = now + or_else ttl_ms d })
            else l))
          w.default_ttl (set-Traced key k value ttl_ms now c l w.is_map h))
  run-Traced o k (drop_key key ∷ xs) c l w h =
      run-Traced o k xs (apply (drop_key key) c) (if str_eq key k then none else l)
        (apply-IsWellFormed o (drop_key key) c w)
        (λ e q. let (s, was) = removed_was c.entries key k e q in rw s (h e was))
  run-Traced o k (drop_all ∷ xs) c l w h =
      run-Traced o k xs (apply drop_all c) none (apply-IsWellFormed o drop_all c w) (λ e q. q)

  served :
      (x : Option (Entry V)) (k : String) (now : ℕ) (c : Cache V) (v : V)
      → (serve x k now c).0 ≡ some v
      → (e : Entry V) × (x ≡ some e) × (e.value ≡ v) × (now < e.expires_at)
  unfolding serve
  served none k now c v h = ground (arith, h)
  served (some e) k now c v h = elim (Bool-cases (leb e.expires_at now)) [
    | inl s ↦ ground (arith, s, h)
    | inr s ↦ (e, refl, ground (arith, s, h), ground (arith, s))
  ]

  -- Whatever operations ran on a new cache, a value that `get` returns is the one that was last stored
  -- under the key and not deleted since, and its time to live is not over.
  pub get-latest :
      (o : Options) (k : String) (now : ℕ) (xs : List (Operation V)) (v : V)
      → (get k now (run xs (new_cache o))).0 ≡ some v
      → (e : Entry V) × (latest k (or_else o.ttl_ms 60000) xs none ≡ some e)
        × (e.value ≡ v)
        × (now < e.expires_at)
  unfolding get
  get-latest o k now xs v h =
      let c = run xs (new_cache o) in
      let (e, there, same, alive) = served (lookup c.entries k) k now c v h in
      (
        e,
        run-Traced o k xs (new_cache o) none (run-IsWellFormed o []) (λ e q. q) e there,
        same,
        alive,
      )

  lookup-set :
      (key : String) (value : V) (ttl_ms : Option ℕ) (now : ℕ) (c : Cache V)
      → IsMap c.entries
      → 1 ≤ c.max_entries
      → lookup (set key value ttl_ms now c).entries key ≡ some (entry_of value ttl_ms now c)
  lookup-set key value ttl_ms now c h le =
      let x = entry_of value ttl_ms now c in
      ap (λ m. lookup m key) (set_evicts_oldest key value ttl_ms now c h)
      ∙ lookup-drop_youngest (length (renewed key x c) - c.max_entries) (remove c.entries key) key x
          (lookup-remove c.entries key key ∙ rw (eq_refl key) refl)
          (omega (arith, le, length-append (remove c.entries key) ((key, x) ∷ [])))

  -- A `set` of a cache with room for an entry is seen by `get` and `has` until the time to live is over.
  pub get-set :
      (key : String) (value : V) (ttl_ms : Option ℕ) (now later : ℕ) (c : Cache V)
      → IsMap c.entries
      → 1 ≤ c.max_entries
      → ((get key later (set key value ttl_ms now c)).0
          ≡ (if ltb later (now + or_else ttl_ms c.ttl_ms) then some value else none))
        × (has key later (set key value ttl_ms now c) ≡ ltb later (now + or_else ttl_ms c.ttl_ms))
  unfolding get serve has
  get-set key value ttl_ms now later c h le =
      let e = lookup-set key value ttl_ms now c h le in rw e (ground arith)
