-- ===== src/RedisLock/Tests.antt =====
-- A lock in a Redis of one key.
use astroid_api.Common.{
  ℕ, ◌+◌, String, ◌≡◌, refl, Bool, true, false, Option, none, some, List, [], ◌∷◌, arith, ltb,
  if◌then◌else◌, lt→ltb,
}
use astroid_api.RedisLock.{Redis, default_lock_ttl_ms, with_lock}
use astroid_api.RedisLock.Exclusion.{
  IsRedis, Call, attempts_to_acquire, releases, call, NoneAcquires, lock_excludes,
}

-- The value of the key and when it expires.
abbrev Store : Type 0
Store = Option (String × ℕ)

abbrev value_at : Store → ℕ → Option String
value_at none t = none
value_at (some (v, expires)) t = if ltb t expires then some v else none

abbrev set_free : Store → ℕ → String → ℕ → Option String → Store × Bool
set_free s now token ttl none = (some (token, now + ttl), true)
set_free s now token ttl (some holder) = (s, false)

abbrev one_key : Redis Store
one_key = record {
  get = value_at;
  set = λ s now token ttl. set_free s now token ttl (value_at s now);
  del = λ s now. none;
}

one_key-IsRedis : IsRedis one_key
one_key-IsRedis = record {
  sets = λ s now token ttl free. rw free (refl, λ t after before. rw (lt→ltb _ _ before) refl);
  refuses = λ s now token holder ttl held. rw held refl;
}

abbrev no_lock : Store
no_lock = none

abbrev calls : List (ℕ × Call)
calls =
    (20, attempts_to_acquire "b" 5000)
    ∷ (30, releases "b")
    ∷ (4000, attempts_to_acquire "c" 5000)
    ∷ []

lock_excludes_example :
    ((call one_key no_lock 10 (attempts_to_acquire "a" default_lock_ttl_ms)).1 ≡ true)
    × NoneAcquires one_key
        (call one_key no_lock 10 (attempts_to_acquire "a" default_lock_ttl_ms)).0
        calls
lock_excludes_example =
    lock_excludes one_key no_lock 10 "a" default_lock_ttl_ms calls one_key-IsRedis refl (
      (omega arith, omega arith),
      (refl, ((omega arith, omega arith), (refl, ((omega arith, omega arith), (refl, tt))))),
    )

abbrev slow : Store → ℕ → Store × String
slow s t = (some ("b", 9000), "done")

-- A handler that takes longer than the lock lives; the release leaves the lock of another alone.
late : (with_lock one_key (λ s t. s) "a" 5000 1 100 slow 6000 no_lock 10).state ≡ some ("b", 9000)
unfolding with_lock
late = refl
