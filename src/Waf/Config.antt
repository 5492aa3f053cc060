-- ===== src/Waf/Config.antt =====
-- src/security/waf.rs: `WafConfig` and its variables of the environment.
use stackhouse.Prelude.{ℕ, ◌*◌, ◌^◌, Bool, true, ◌||◌, Option, none, some, List, [], ◌∷◌, map}
use stackhouse.Prelude.Text.{Text, codes, to_uppercase, split, trim, text_eq, parse_unsigned}
use stackhouse.Floats.{Float}

-- `parse().unwrap_or(d)` of an unsigned number.
abbrev pub parse_or : ℕ → ℕ → Text → ℕ
parse_or limit d s = elim (parse_unsigned limit s) [ none ↦ d | some n ↦ n ]

module _ (fl : Float) where
  open fl use {F}

  -- `struct WafConfig`
  pub record WafConfig : Type 0 where
    pub enabled : Bool
    pub rate_limit_requests_per_second : ℕ
    pub rate_limit_burst : ℕ
    pub rate_limit_window_secs : ℕ
    pub block_duration_secs : ℕ
    pub max_request_body_bytes : ℕ
    pub max_uri_length : ℕ
    pub blocked_user_agents : List Text
    pub blocked_patterns : List Text
    pub geo_block_countries : List Text
    pub ip_reputation_threshold : F

  unfoldable pub default_config : WafConfig
  default_config = record {
    enabled = true;
    rate_limit_requests_per_second = 100;
    rate_limit_burst = 200;
    rate_limit_window_secs = 60;
    block_duration_secs = 300;
    max_request_body_bytes = 10 * 1024 * 1024;
    max_uri_length = 2048;
    blocked_user_agents = codes "sqlmap" ∷ codes "nikto" ∷ codes "nmap" ∷ codes "masscan" ∷ [];
    blocked_patterns =
        codes "/../"
        ∷ codes "/etc/passwd"
        ∷ codes "/proc/self"
        ∷ codes "<script>"
        ∷ codes "UNION SELECT"
        ∷ codes "DROP TABLE"
        ∷ codes "'; --"
        ∷ [];
    geo_block_countries = [];
    ip_reputation_threshold = fl.hundredths 30;
  }

  -- The variables of `from_env`.
  pub record WafEnv : Type 0 where
    pub waf_enabled : Option Text
    pub waf_rate_limit_rps : Option Text
    pub waf_max_body_bytes : Option Text
    pub waf_blocked_countries : Option Text

  unfoldable pub config_from_env : WafEnv → WafConfig
  config_from_env env = record default_config {
    enabled = elim env.waf_enabled [
      | none ↦ default_config.enabled
      | some v ↦ text_eq v (codes "1") || text_eq v (codes "true")
    ];
    rate_limit_requests_per_second = elim env.waf_rate_limit_rps [
      | none ↦ default_config.rate_limit_requests_per_second
      | some v ↦ parse_or (2 ^ 32) 100 v
    ];
    max_request_body_bytes = elim env.waf_max_body_bytes [
      | none ↦ default_config.max_request_body_bytes
      | some v ↦ parse_or (2 ^ 64) (10 * 1024 * 1024) v
    ];
    geo_block_countries = elim env.waf_blocked_countries [
      | none ↦ default_config.geo_block_countries
      | some v ↦ map (λ s. to_uppercase (trim s)) (split b',' v)
    ];
  }
