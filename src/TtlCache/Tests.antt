-- ===== src/TtlCache/Tests.antt =====
-- A small cache at work.
use astroid_api.Common.{ℕ, ◌≤◌, ◌<◌, ◌≡◌, refl, true, none, some, List, [], ◌∷◌, arith, IsMap}
use astroid_api.TtlCache.{
  Entry, Options, Cache, new_cache, get, set, has, Operation, ask, store, apply, run,
}
use astroid_api.TtlCache.Freshness.{latest, get-set, get-latest}

abbrev two_entries : Options
two_entries = record { ttl_ms = some 100; max_entries = some 2 }

-- "a" is used after "b", so "c" evicts "b".
abbrev operations : List (Operation ℕ)
operations = store "a" 1 none 0 ∷ store "b" 2 none 5 ∷ ask "a" 10 ∷ store "c" 3 (some 20) 15 ∷ []

abbrev full : Cache ℕ
full = run operations (new_cache two_entries)

reads : Unit {0}
unfolding apply get set has
reads = tt

b_evicted : (get "b" 16 full).0 ≡ none
unfolding reads
b_evicted = refl

a_stays : (get "a" 16 full).0 ≡ some 1
unfolding reads
a_stays = refl

full-IsMap : IsMap full.entries
unfolding reads
full-IsMap = (refl, (refl, tt))

room : 1 ≤ full.max_entries
unfolding reads
room = omega arith

get-set_example :
    ((get "d" 50 (set "d" 4 (some 40) 20 full)).0 ≡ some 4)
    × (has "d" 50 (set "d" 4 (some 40) 20 full) ≡ true)
get-set_example = get-set "d" 4 (some 40) 20 50 full full-IsMap room

get-latest_example :
    (e : Entry ℕ) × (latest "a" 100 operations none ≡ some e) × (e.value ≡ 1) × (16 < e.expires_at)
get-latest_example = get-latest two_entries "a" 16 operations 1 a_stays
