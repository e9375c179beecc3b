-- ===== src/Infrastructure/Sources/Limits.antt =====
-- ois/infrastructure/source_gateway/limits.py and rate_limits.py: the token bucket and the manager of the
-- buckets of the configured keys. Floating-point arithmetic is a parameter; a reading of the monotonic
-- clock is an argument of the operation that reads it.
use niceone_obsidian.Prelude.{
  String, Bool, true, false, not, ◌||◌, Option, none, some, string_eq, if◌then◌else◌,
}
use niceone_obsidian.Prelude.Dict.{Dict, get, set, delete}
use niceone_obsidian.Prelude.Exec.{Result, ok, err}
use niceone_obsidian.Kernel.Errors.{Exception, exception, value_error}

pub record Floats : Type 1 where
  pub Float : Type 0
  pub zero_f : Float
  pub one_f : Float
  pub plus : Float → Float → Float
  pub minus : Float → Float → Float
  pub times : Float → Float → Float
  pub over : Float → Float → Float
  pub less : Float → Float → Bool

module _ (f : Floats) where
  -- What the clock shows when a bucket is made, when it is asked, and after it refused.
  pub record Readings : Type 0 where
    pub made : f.Float
    pub asked : f.Float
    pub refused : f.Float

  -- A policy that its constructor accepted: both numbers are positive.
  pub record RateLimitPolicy : Type 0 where
    pub capacity : f.Float
    pub refill_per_second : f.Float

  pub record RateLimitState : Type 0 where
    pub tokens : f.Float
    pub observed_at : f.Float

  pub record TokenBucket : Type 0 where
    pub policy : RateLimitPolicy
    pub state : RateLimitState

  pub record RateLimitDecision : Type 0 where
    pub allowed : Bool
    pub retry_after_seconds : f.Float
    pub key : String

  pub record RateLimitManager : Type 0 where
    pub policies : Dict String RateLimitPolicy
    pub buckets : Dict String TokenBucket
    pub last_denied : Dict String f.Float

-- `max(a, b)` and `min(a, b)`
abbrev pub max_f : (f : Floats) → f.Float → f.Float → f.Float
max_f f a b = if f.less a b then b else a

abbrev pub min_f : (f : Floats) → f.Float → f.Float → f.Float
min_f f a b = if f.less b a then b else a

module _ {f : Floats} where
  -- RateLimitPolicy, whose `__post_init__` checks the numbers.
  unfoldable pub rate_limit_policy : f.Float → f.Float → Result Exception (RateLimitPolicy f)
  rate_limit_policy capacity refill =
      if not (f.less f.zero_f capacity) || not (f.less f.zero_f refill)
      then err (exception value_error "rate-limit capacity and refill must be positive")
      else ok (record { capacity = capacity; refill_per_second = refill })

  abbrev pub new_bucket : f.Float → RateLimitPolicy f → TokenBucket f
  new_bucket now p = record {
    policy = p;
    state = record { tokens = p.capacity; observed_at = now };
  }

  -- The tokens that a bucket holds at an instant.
  abbrev pub refilled : f.Float → TokenBucket f → f.Float
  refilled now b = min_f f b.policy.capacity (
      f.plus b.state.tokens
        (f.times (max_f f f.zero_f (f.minus now b.state.observed_at)) b.policy.refill_per_second))

  abbrev pub holding : f.Float → f.Float → TokenBucket f → TokenBucket f
  holding tokens now b = record b { state = record { tokens = tokens; observed_at = now } }

  -- TokenBucket.acquire
  unfoldable pub acquire : f.Float → f.Float → TokenBucket f → Result Exception Bool × TokenBucket f
  acquire cost now b =
      let tokens = refilled now b in
      if not (f.less f.zero_f cost) || f.less b.policy.capacity cost
      then (err (exception value_error "cost must be > 0 and <= bucket capacity"), b)
      else if f.less tokens cost
      then (ok false, holding tokens now b)
      else (ok true, holding (f.minus tokens cost) now b)

  -- RateLimitManager.configure
  unfoldable pub configure : String → RateLimitPolicy f → RateLimitManager f → RateLimitManager f
  unfolding set delete
  configure key p m = record m { policies = set m.policies key p; buckets = delete m.buckets key }

  -- The bucket of a key that has a policy, made where there is none.
  abbrev pub bucket_for : f.Float → RateLimitPolicy f → Option (TokenBucket f) → TokenBucket f
  bucket_for now p none = new_bucket now p
  bucket_for now p (some b) = b

  -- What `allow` returns and keeps, by what `acquire` answered.
  abbrev pub allowed_by :
      f.Float
      → f.Float
      → String
      → RateLimitPolicy f
      → Result Exception Bool × TokenBucket f
      → RateLimitManager f
      → Result Exception (RateLimitDecision f) × RateLimitManager f
  allowed_by cost now key p (err x, b) m = (err x, record m { buckets = set m.buckets key b })
  allowed_by cost now key p (ok true, b) m = (
    ok (record { allowed = true; retry_after_seconds = f.zero_f; key = key }),
    record m { buckets = set m.buckets key b; last_denied = delete m.last_denied key },
  )
  allowed_by cost now key p (ok false, b) m = (
    ok (record {
      allowed = false;
      retry_after_seconds =
          max_f f f.zero_f (f.over (f.minus cost b.state.tokens) p.refill_per_second);
      key = key;
    }),
    record m { buckets = set m.buckets key b; last_denied = set m.last_denied key now },
  )

  abbrev pub allow_policy :
      f.Float
      → Readings f
      → String
      → Option (RateLimitPolicy f)
      → RateLimitManager f
      → Result Exception (RateLimitDecision f) × RateLimitManager f
  allow_policy cost now key none m =
      (ok (record { allowed = true; retry_after_seconds = f.zero_f; key = key }), m)
  allow_policy cost now key (some p) m =
      allowed_by cost now.refused key p
        (acquire cost now.asked (bucket_for now.made p (get m.buckets key))) m

  -- RateLimitManager.allow
  unfoldable pub allow :
      f.Float
      → Readings f
      → String
      → RateLimitManager f
      → Result Exception (RateLimitDecision f) × RateLimitManager f
  unfolding get set delete acquire
  allow cost now key m = allow_policy cost now key (get m.policies key) m
