-- ===== src/RedisLock.antt =====
-- common/locks/redis-lock.util.ts: the lock of one key. Redis is an interface: the value that the key has at a time,
-- `SET key token PX ttl NX` and `DEL key`, each atomic. Times are milliseconds.
pub mod Exclusion
mod Tests
use astroid_api.Common.{
  ℕ, zero, suc, ◌+◌, String, Bool, true, false, Option, none, some, str_eq, ◌==◌, if◌then◌else◌,
}

pub record Redis (S : Type 0) : Type 0 where
  pub get : S → ℕ → Option String
  pub set : S → ℕ → String → ℕ → S × Bool
  pub del : S → ℕ → S

abbrev pub default_lock_ttl_ms : ℕ
default_lock_ttl_ms = 5000

module _ {S : Type 0} (redis : Redis S) where
  -- `RELEASE_SCRIPT`
  abbrev pub release_held : S → ℕ → String → Option String → S
  release_held s now token none = s
  release_held s now token (some holder) = if str_eq holder token then redis.del s now else s

  unfoldable pub release : S → ℕ → String → S
  release s now token = release_held s now token (redis.get s now)

  -- How the attempts went: the state, the time, and whether the lock was acquired.
  pub record Acquisition : Type 0 where
    pub state : S
    pub time : ℕ
    pub acquired : Bool

  -- The loop of `acquire` with `attempts` left; `others` is what other processes do while it waits.
  unfoldable pub acquire : (S → ℕ → S) → String → ℕ → ℕ → (attempts : ℕ) → S → ℕ → Acquisition
  acquire others token ttl delay zero s now = record { state = s; time = now; acquired = false }
  acquire others token ttl delay (suc attempts) s now =
      let (s', ok) = redis.set s now token ttl in
      let rest = acquire others token ttl delay attempts (others s' now) (now + delay) in
      if ok
      then record { state = s'; time = now; acquired = true }
      else if attempts == 0
      then record { state = s'; time = now; acquired = false }
      else rest

  -- `withLock` on a handler that acts on the state and returns or throws, and takes a while.
  pub record Held (A : Type 0) : Type 0 where
    pub state : S
    pub result : Option A

  unfoldable pub with_lock :
      {A : Type 0} → (S → ℕ → S) → String → ℕ → ℕ → ℕ → (S → ℕ → S × A) → ℕ → S → ℕ → Held A
  unfolding acquire release
  with_lock others token ttl attempts delay handler takes s now =
      let a = acquire others token ttl delay attempts s now in
      let (s', result) = handler a.state a.time in
      if a.acquired
      then record { state = release s' (a.time + takes) token; result = some result }
      else record { state = a.state; result = none }
