-- ===== src/Waf/Tokens.antt =====
-- src/security/waf.rs: `TokenBucket`. Instants are nanoseconds.
use stackhouse.Prelude.{ℕ, ◌-◌, Bool, true, false, if◌then◌else◌}
use stackhouse.Floats.{Float}

module _ (fl : Float) where
  open fl use {F}

  -- `struct TokenBucket`
  pub record TokenBucket : Type 0 where
    pub tokens : F
    pub max_tokens : F
    pub refill_rate : F
    pub last_refill : ℕ

  unfoldable pub new_bucket : F → F → ℕ → TokenBucket
  new_bucket most rate now = record {
    tokens = most;
    max_tokens = most;
    refill_rate = rate;
    last_refill = now;
  }

  unfoldable pub refill : TokenBucket → ℕ → TokenBucket
  refill b now = record b {
    tokens =
        fl.min (fl.add b.tokens (fl.mul (fl.seconds (now - b.last_refill)) b.refill_rate))
          b.max_tokens;
    last_refill = now;
  }

  unfoldable pub try_consume : TokenBucket → ℕ → Bool × TokenBucket
  unfolding refill
  try_consume b now =
      let b' = refill b now in
      if fl.le (fl.of_nat 1) b'.tokens
      then (true, record b' { tokens = fl.sub b'.tokens (fl.of_nat 1) })
      else (false, b')
