-- ===== src/Waf/Bucket.antt =====
-- The token bucket.
use stackhouse.Prelude.{ℕ, ◌-◌, ◌≤◌, ◌≡◌, refl, true, arith}
use stackhouse.Floats.{Float, FloatLaws}
use stackhouse.Waf.Tokens.{TokenBucket, new_bucket, refill, try_consume}

module _ (fl : Float) (laws : FloatLaws fl) where
  -- A bucket never holds more than its maximum after a request, keeps its maximum and rate, and
  -- is dated at the request; the request passes exactly if a whole token is there after the
  -- refill.
  pub try_consume-bounds :
      (b : TokenBucket fl) (now : ℕ)
      → (fl.le (try_consume fl b now).1.tokens b.max_tokens ≡ true)
        × ((try_consume fl b now).1.max_tokens ≡ b.max_tokens)
        × ((try_consume fl b now).1.refill_rate ≡ b.refill_rate)
        × ((try_consume fl b now).1.last_refill ≡ now)
        × ((try_consume fl b now).0 ≡ fl.le (fl.of_nat 1) (refill fl b now).tokens)
  unfolding try_consume
  try_consume-bounds b now =
      let earned = fl.add b.tokens (fl.mul (fl.seconds (now - b.last_refill)) b.refill_rate) in
      ground (
        arith,
        laws.min-le_right earned b.max_tokens,
        laws.sub_one-le (fl.min earned b.max_tokens),
        laws.le_trans (fl.sub (fl.min earned b.max_tokens) (fl.of_nat 1))
            (fl.min earned b.max_tokens) b.max_tokens,
      )

  -- A new bucket of at least one token, and of a burst that fits 32 bits, lets its first request
  -- through, whatever the rate.
  pub try_consume-new :
      (burst rate made now : ℕ)
      → 1 ≤ burst
      → burst ≤ 4294967295
      → (try_consume fl (new_bucket fl (fl.of_nat burst) (fl.of_nat rate) made) now).0 ≡ true
  unfolding try_consume new_bucket
  try_consume-new burst rate made now h k =
      rw
        (laws.le-min (fl.of_nat 1)
          (fl.add (fl.of_nat burst) (fl.mul (fl.seconds (now - made)) (fl.of_nat rate)))
          (fl.of_nat burst)
          (laws.le_trans (fl.of_nat 1) (fl.of_nat burst) _ (laws.of_nat_mono 1 burst h k)
            (laws.le-add_earned burst rate (now - made)))
          (laws.of_nat_mono 1 burst h k))
        refl
