-- ===== src/RedisLock/Exclusion.antt =====
-- While a lock is held no other process gets it.
use astroid_api.Common.{
  ℕ, ◌+◌, ◌≤◌, ◌<◌, String, ◌≡◌, refl, Bool, true, false, none, some, List, [], ◌∷◌, arith, str_eq,
}
use astroid_api.RedisLock.{Redis, release, acquire}

-- What the lock relies on: a free key is set until its time to live is over, and a key that is there is left alone.
pub record IsRedis {S : Type 0} (redis : Redis S) : Type 0 where
  pub sets :
      (s : S) (now : ℕ) (token : String) (ttl : ℕ)
      → redis.get s now ≡ none
      → ((redis.set s now token ttl).1 ≡ true)
        × ((t : ℕ)
            → now ≤ t
            → t < now + ttl
            → redis.get (redis.set s now token ttl).0 t ≡ some token)
  pub refuses :
      (s : S) (now : ℕ) (token holder : String) (ttl : ℕ)
      → redis.get s now ≡ some holder
      → redis.set s now token ttl ≡ (s, false)

-- A call of another process: one attempt to acquire the lock, or a release.
pub data Call : Type 0 where
  attempts_to_acquire : (token : String) (ttl : ℕ) → Call
  releases : (token : String) → Call

abbrev pub token_of : Call → String
token_of (attempts_to_acquire token ttl) = token
token_of (releases token) = token

module _ {S : Type 0} (redis : Redis S) where
  -- What a call does, and whether it got the lock.
  unfoldable pub call : S → ℕ → Call → S × Bool
  unfolding acquire release
  call s now (attempts_to_acquire token ttl) =
      let a = acquire redis (λ s t. s) token ttl 0 1 s now in (a.state, a.acquired)
  call s now (releases token) = (release redis s now token, false)

  abbrev pub IsHeld : S → String → ℕ → ℕ → Type 0
  IsHeld s token since deadline = (t : ℕ) → since ≤ t → t < deadline → redis.get s t ≡ some token

  -- Calls at rising times before the deadline, none with the holder's token.
  abbrev pub AreOthers : String → ℕ → ℕ → List (ℕ × Call) → Type 0
  AreOthers token since deadline [] = Unit
  AreOthers token since deadline ((t, c) ∷ calls) =
      ((since ≤ t) × (t < deadline))
      × ((str_eq token (token_of c) ≡ false) × AreOthers token t deadline calls)

  -- No call gets the lock.
  unfoldable pub NoneAcquires : S → List (ℕ × Call) → Type 0
  NoneAcquires s [] = Unit
  NoneAcquires s ((t, c) ∷ calls) = ((call s t c).1 ≡ false) × NoneAcquires (call s t c).0 calls

  held-call :
      (s : S) (token : String) (since deadline t : ℕ) (c : Call)
      → IsRedis redis
      → IsHeld s token since deadline
      → since ≤ t
      → t < deadline
      → str_eq token (token_of c) ≡ false
      → call s t c ≡ (s, false)
  unfolding call
  held-call s token since deadline t (attempts_to_acquire other ttl) laws held after before apart =
      rw (laws.refuses s t other token ttl (held t after before)) refl
  held-call s token since deadline t (releases other) laws held after before apart =
      rw (held t after before, apart) refl

  held-NoneAcquires :
      (s : S) (token : String) (since deadline : ℕ) (calls : List (ℕ × Call))
      → IsRedis redis
      → IsHeld s token since deadline
      → AreOthers token since deadline calls
      → NoneAcquires s calls
  unfolding NoneAcquires
  held-NoneAcquires s token since deadline [] laws held others = tt
  held-NoneAcquires s token since deadline ((t, c) ∷ calls) laws held
        ((after, before), (apart, others)) =
      let same = held-call s token since deadline t c laws held after before apart in
      let still : IsHeld s token t deadline = λ u h k. held u (omega (arith, after, h)) k in
      rw same (refl, held-NoneAcquires s token t deadline calls laws still others)

  -- After an attempt that finds the key free, no attempt of another process gets the lock before the time to
  -- live is over, whatever others acquire and release with tokens of their own.
  pub lock_excludes :
      (s : S) (now : ℕ) (token : String) (ttl : ℕ) (calls : List (ℕ × Call))
      → IsRedis redis
      → redis.get s now ≡ none
      → AreOthers token now (now + ttl) calls
      → ((call s now (attempts_to_acquire token ttl)).1 ≡ true)
        × NoneAcquires (call s now (attempts_to_acquire token ttl)).0 calls
  unfolding call
  lock_excludes s now token ttl calls laws free others =
      let (ok, held) = laws.sets s now token ttl free in
      rw ok (
        refl,
        held-NoneAcquires (redis.set s now token ttl).0 token now (now + ttl) calls laws held
            others,
      )
