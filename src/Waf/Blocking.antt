-- ===== src/Waf/Blocking.antt =====
-- Blocks: by an operator (`block_ip`, `unblock_ip`) and by repeated violations.
use stackhouse.Prelude.{
  ℕ, ◌+◌, ◌^◌, ◌<◌, ◌≡◌, refl, ◌&&◌, true, some, List, [], ◌∷◌, arith, length, ltb, leb,
}
use stackhouse.Prelude.Assoc.{get, get-insert_self}
use stackhouse.Floats.{Float}
use stackhouse.Waf.Service.{nanos, WafRequest, WafService, blocked, check_request, block_ip}
use stackhouse.Waf.Reputation.{
  IpReputation, default_reputation, record_violation, is_blocked, decay,
}

module _ (fl : Float) where
  decay-blocked_until :
      (r : IpReputation fl) (now : ℕ) → (decay fl r now).blocked_until ≡ r.blocked_until
  unfolding decay
  decay-blocked_until r now = ground arith

  decay-is_blocked :
      (r : IpReputation fl) (now : ℕ) → is_blocked fl (decay fl r now) now ≡ is_blocked fl r now
  unfolding is_blocked
  decay-is_blocked r now = rw (decay-blocked_until r now) refl

  -- While an address's reputation is blocked, a request is answered as blocked.
  check_request-blocked :
      (w : WafService fl) (q : WafRequest fl) (later : ℕ) (r : IpReputation fl)
      → w.config.enabled ≡ true
      → get q.ip w.ip_reputations ≡ some r
      → is_blocked fl r later ≡ true
      → ((check_request fl w q later).0 ≡ some (blocked "IP temporarily blocked"))
        × ((check_request fl w q later).1.rate_limiters ≡ w.rate_limiters)
  unfolding check_request
  check_request-blocked w q later r on e b = ground (arith, decay-is_blocked r later)

  -- Once an operator has blocked an address, every request from it is answered as blocked until
  -- the block runs out, with the buckets left alone, if the firewall is enabled.
  pub check_request-block_ip :
      (w : WafService fl) (q : WafRequest fl) (secs now later : ℕ)
      → w.config.enabled ≡ true
      → later < now + nanos secs
      → ((check_request fl (block_ip fl w q.ip secs now) q later).0
          ≡ some (blocked "IP temporarily blocked"))
        × ((check_request fl (block_ip fl w q.ip secs now) q later).1.rate_limiters
            ≡ w.rate_limiters)
  unfolding block_ip is_blocked
  check_request-block_ip w q secs now later on h =
      check_request-blocked (block_ip fl w q.ip secs now) q later _ on
        (get-insert_self q.ip _ w.ip_reputations) (ground arith)

  -- The reputation after violations at the given instants, the last of them first.
  unfoldable pub after_violations : ℕ → List ℕ → IpReputation fl
  after_violations block_nanos [] = default_reputation fl
  after_violations block_nanos (t ∷ ts) =
      record_violation fl (after_violations block_nanos ts) block_nanos t

  after_violations-violations :
      (block_nanos : ℕ) (ts : List ℕ)
      → length ts < 2 ^ 32
      → (after_violations block_nanos ts).violations ≡ length ts
  unfolding after_violations record_violation default_reputation
  after_violations-violations block_nanos [] h = refl
  after_violations-violations block_nanos (t ∷ ts) h =
      ground (arith, after_violations-violations block_nanos ts)

  -- A new reputation is not blocked by fewer than five violations; from the fifth on it is
  -- blocked for the block duration after the last, with no decay between the violations and
  -- fewer than 2^32 of them.
  pub is_blocked-after_violations :
      (block_nanos : ℕ) (t : ℕ) (ts : List ℕ) (now : ℕ)
      → length (t ∷ ts) < 2 ^ 32
      → is_blocked fl (after_violations block_nanos (t ∷ ts)) now
        ≡ (leb 5 (length (t ∷ ts)) && ltb now (t + block_nanos))
  unfolding after_violations record_violation default_reputation is_blocked
  is_blocked-after_violations block_nanos t [] now h = ground arith
  is_blocked-after_violations block_nanos t (s ∷ ts) now h = ground (
    arith,
    after_violations-violations block_nanos (s ∷ ts),
    is_blocked-after_violations block_nanos s ts now,
  )
