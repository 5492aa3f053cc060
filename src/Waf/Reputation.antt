-- ===== src/Waf/Reputation.antt =====
-- src/security/waf.rs: `IpReputation`. Instants are nanoseconds.
use stackhouse.Prelude.{
  ℕ, ◌+◌, ◌-◌, ◌/◌, ◌%◌, ◌^◌, Bool, false, ◌&&◌, Option, none, some, if◌then◌else◌, ltb, leb,
}
use stackhouse.Floats.{Float}

module _ (fl : Float) where
  open fl use {F}

  -- `struct IpReputation`
  pub record IpReputation : Type 0 where
    pub score : F
    pub violations : ℕ
    pub last_violation : Option ℕ
    pub blocked_until : Option ℕ

  unfoldable pub default_reputation : IpReputation
  default_reputation = record {
    score = fl.of_nat 1;
    violations = 0;
    last_violation = none;
    blocked_until = none;
  }

  unfoldable pub record_violation : IpReputation → ℕ → ℕ → IpReputation
  record_violation r block_nanos now =
      let violations = (r.violations + 1) % 2 ^ 32 in
      record {
        score = fl.max (fl.sub r.score (fl.hundredths 10)) (fl.of_nat 0);
        violations = violations;
        last_violation = some now;
        blocked_until = if leb 5 violations then some (now + block_nanos) else r.blocked_until;
      }

  unfoldable pub is_blocked : IpReputation → ℕ → Bool
  is_blocked r now = elim r.blocked_until [ none ↦ false | some until ↦ ltb now until ]

  decay_after : IpReputation → ℕ → IpReputation
  decay_after r elapsed =
      if ltb 3600 elapsed
      then record r {
        score = fl.min (fl.add r.score (fl.hundredths 1)) (fl.of_nat 1);
        violations =
            if ltb 7200 elapsed && ltb 0 r.violations then r.violations - 1 else r.violations;
      }
      else r

  unfoldable pub decay : IpReputation → ℕ → IpReputation
  unfolding decay_after
  decay r now = elim r.last_violation [
    | none ↦ r
    | some last ↦ decay_after r ((now - last) / 1000000000)
  ]
