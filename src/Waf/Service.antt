-- ===== src/Waf/Service.antt =====
-- src/security/waf.rs: `WafService`, with the verdict on a request.
use Prim.Native.String.{String}
use stackhouse.Prelude.{
  ℕ, ◌+◌, ◌*◌, Bool, false, ◌||◌, not, Option, none, some, List, [], ◌∷◌, if◌then◌else◌, length,
  ltb, retain,
}
use stackhouse.Prelude.Text.{Text, to_lowercase, byte_len, contains}
use stackhouse.Prelude.Assoc.{Assoc, get, get_or, insert}
use stackhouse.Floats.{Float}
use stackhouse.Waf.Config.{WafConfig}
use stackhouse.Waf.Tokens.{TokenBucket, new_bucket, try_consume}
use stackhouse.Waf.Reputation.{
  IpReputation, default_reputation, record_violation, is_blocked, decay,
}

abbrev pub nanos : ℕ → ℕ
nanos secs = secs * 1000000000

-- `enum WafDecision`, with the texts of its reasons
pub data WafDecision : Type 0 where
  limited : WafDecision
  blocked : String → WafDecision

module _ (fl : Float) where
  -- `struct WafService`
  pub record WafService : Type 0 where
    pub config : WafConfig fl
    pub rate_limiters : Assoc (TokenBucket fl)
    pub ip_reputations : Assoc (IpReputation fl)

  unfoldable pub new_service : WafConfig fl → WafService
  new_service config = record { config = config; rate_limiters = []; ip_reputations = [] }

  unfoldable pub service_violation : WafService → Text → ℕ → WafService
  service_violation w ip now = record w {
    ip_reputations =
        insert ip
          (record_violation fl (get_or (default_reputation fl) ip w.ip_reputations)
            (nanos w.config.block_duration_secs) now)
          w.ip_reputations;
  }

  pub record WafRequest : Type 0 where
    pub ip : Text
    pub uri : Text
    pub user_agent : Text
    pub body_size : ℕ

  abbrev pub Verdict : Type 0
  Verdict = Option WafDecision

  abbrev mentions : List Text → Text → Bool
  mentions [] s = false
  mentions (w ∷ ws) s = contains (to_lowercase w) s || mentions ws s

  -- The checks behind the rate limit. `none` lets the request pass.
  unfoldable pub check_content : WafService → WafRequest → ℕ → Verdict × WafService
  unfolding service_violation
  check_content w q now =
      if ltb w.config.max_uri_length (byte_len q.uri)
      then (some (blocked "URI too long"), service_violation w q.ip now)
      else if ltb w.config.max_request_body_bytes q.body_size
      then (some (blocked "Request body too large"), w)
      else if mentions w.config.blocked_user_agents (to_lowercase q.user_agent)
      then (some (blocked "Blocked user agent: {}"), service_violation w q.ip now)
      else if mentions w.config.blocked_patterns (to_lowercase q.uri)
      then (some (blocked "Blocked pattern detected: {}"), service_violation w q.ip now)
      else (none, w)

  unfoldable pub check_rate : WafService → WafRequest → ℕ → Verdict × WafService
  unfolding check_content service_violation
  check_rate w q now =
      let fresh =
        new_bucket fl (fl.of_nat w.config.rate_limit_burst)
          (fl.of_nat w.config.rate_limit_requests_per_second) now in
      let (passed, bucket) = try_consume fl (get_or fresh q.ip w.rate_limiters) now in
      let w' = record w { rate_limiters = insert q.ip bucket w.rate_limiters } in
      if not passed then (some limited, service_violation w' q.ip now) else check_content w' q now

  -- With the address's reputation, after its decay.
  check_reputation : WafService → WafRequest → ℕ → IpReputation fl → Verdict × WafService
  unfolding check_rate
  check_reputation w q now rep =
      if is_blocked fl rep now
      then (some (blocked "IP temporarily blocked"), w)
      else if fl.lt rep.score w.config.ip_reputation_threshold
      then (some (blocked "IP reputation too low"), w)
      else check_rate w q now

  decay_entry : WafService → Text → ℕ → IpReputation fl → WafService
  decay_entry w ip now rep = record w {
    ip_reputations = insert ip (decay fl rep now) w.ip_reputations;
  }

  unfoldable pub check_request : WafService → WafRequest → ℕ → Verdict × WafService
  unfolding check_reputation decay_entry check_rate
  check_request w q now =
      if not w.config.enabled then (none, w) else elim (get q.ip w.ip_reputations) [
        | none ↦ check_rate w q now
        | some rep ↦ check_reputation (decay_entry w q.ip now rep) q now (decay fl rep now)
      ]

  unfoldable pub block_ip : WafService → Text → ℕ → ℕ → WafService
  block_ip w ip secs now = record w {
    ip_reputations =
        insert ip
          (record (get_or (default_reputation fl) ip w.ip_reputations) {
            blocked_until = some (now + nanos secs);
            score = fl.of_nat 0;
          })
          w.ip_reputations;
  }

  unfoldable pub unblock_ip : WafService → Text → WafService
  unblock_ip w ip = elim (get ip w.ip_reputations) [
    | none ↦ w
    | some rep ↦ record w {
      ip_reputations =
          insert ip (record rep { blocked_until = none; score = fl.of_nat 1; violations = 0 })
            w.ip_reputations;
    }
  ]

  -- `struct WafStats`
  pub record WafStats : Type 0 where
    pub total_tracked_ips : ℕ
    pub blocked_ips : ℕ
    pub low_reputation_ips : ℕ
    pub config_enabled : Bool

  unfoldable pub stats : WafService → ℕ → WafStats
  stats w now = record {
    total_tracked_ips = length w.rate_limiters;
    blocked_ips = length (retain (λ e. is_blocked fl e.1 now) w.ip_reputations);
    low_reputation_ips =
        length (retain (λ e. fl.lt e.1.score w.config.ip_reputation_threshold) w.ip_reputations);
    config_enabled = w.config.enabled;
  }
