-- ===== src/Proxy/RateLimit.antt =====
-- internal/proxy/ratelimit.go: one token bucket for each key. The bucket itself is that of
-- golang.org/x/time/rate, a parameter. `Allow` looks the bucket up, or makes it, under the mutex.
use cloud_vinyl.Prelude.{
  ℕ, ◌≡◌, refl, ite, Bool, none, some, List, [], ◌∷◌, arith, if◌then◌else◌, Text, text_dec, text_eq,
  lookup, insert, lookup-insert,
}

pub record RatePackage : Type 1 where
  pub Limiter : Type 0
  -- `rate.NewLimiter(rps, burst)` for the rates of the server, and `Limiter.Allow` at a time.
  pub new_limiter : Limiter
  pub take_token : Limiter → ℕ → Limiter × Bool

module _ (rate : RatePackage) where
  open rate use {Limiter, new_limiter, take_token}

  pub record TokenBucketRateLimiter : Type 0 where
    pub limiters : List (Text × Limiter)

  unfoldable pub limiter_of : TokenBucketRateLimiter → Text → Limiter
  limiter_of r key = elim (lookup text_dec key r.limiters) [ some l ↦ l | none ↦ new_limiter ]

  unfoldable pub allow_key : TokenBucketRateLimiter → Text → ℕ → TokenBucketRateLimiter × Bool
  allow_key r key now =
      let (l, ok) = take_token (limiter_of r key) now in
      (record { limiters = insert text_dec key l r.limiters }, ok)

  -- A run of requests, each with its key and time: which of them pass.
  unfoldable pub run : TokenBucketRateLimiter → List (Text × ℕ) → List (Text × Bool)
  unfolding allow_key
  run r [] = []
  run r ((key, now) ∷ calls) = let (r', ok) = allow_key r key now in (key, ok) ∷ run r' calls

  -- The same bucket alone, asked at the given times.
  unfoldable pub run_alone : Limiter → List ℕ → List Bool
  run_alone l [] = []
  run_alone l (now ∷ times) = let (l', ok) = take_token l now in ok ∷ run_alone l' times

  abbrev pub times_of : Text → List (Text × ℕ) → List ℕ
  times_of key [] = []
  times_of key ((k, now) ∷ calls) =
      if text_eq k key then now ∷ times_of key calls else times_of key calls

  abbrev pub answers_of : Text → List (Text × Bool) → List Bool
  answers_of key [] = []
  answers_of key ((k, ok) ∷ out) =
      if text_eq k key then ok ∷ answers_of key out else answers_of key out

  limiter_of-allow_key :
      (r : TokenBucketRateLimiter) (k key : Text) (now : ℕ)
      → limiter_of (allow_key r k now).0 key
        ≡ ite (text_dec key k) (take_token (limiter_of r k) now).0 (limiter_of r key)
  unfolding limiter_of allow_key
  limiter_of-allow_key r k key now =
      ground (arith, lookup-insert text_dec key k (take_token (limiter_of r k) now).0 r.limiters)

  -- What one key is answered depends on the requests of that key alone: it is answered as if it
  -- had its bucket to itself, whatever the other keys ask in between.
  pub run-independent :
      (r : TokenBucketRateLimiter) (calls : List (Text × ℕ)) (key : Text)
      → answers_of key (run r calls) ≡ run_alone (limiter_of r key) (times_of key calls)
  unfolding run run_alone
  run-independent r [] key = refl
  run-independent r ((k, now) ∷ calls) key =
      let ih = run-independent (allow_key r k now).0 calls key in
      let same = limiter_of-allow_key r k key now in
      elim (text_dec k key) [ yes e ↦ ground (arith, ih, same) | no n ↦ ground (arith, ih, same) ]
