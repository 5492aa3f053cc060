-- ===== src/Waf/Tests.antt =====
-- Runs of the firewall with natural numbers in the place of `f64`.
use stackhouse.Prelude.{
  ℕ, ◌+◌, ◌-◌, ◌*◌, ◌/◌, ◌≡◌, refl, Bool, true, Option, none, List, [], ◌∷◌, leb, ltb, min, max,
}
use stackhouse.Prelude.Text.{codes}
use stackhouse.Floats.{Float}
use stackhouse.Waf.Service.{
  nanos, WafRequest, WafService, WafDecision, new_service, check_request, block_ip,
}
use stackhouse.Waf.Config.{WafEnv, default_config}
use stackhouse.Waf.Http.{HttpRequest}
use stackhouse.Waf.Tokens.{TokenBucket, try_consume}

-- Numbers of hundredths.
abbrev hundredths : Float
hundredths = record {
  F = ℕ;
  of_nat = λ n. n * 100;
  hundredths = λ n. n;
  seconds = λ n. n / 10000000;
  add = λ a b. a + b;
  sub = λ a b. a - b;
  mul = λ a b. a * b / 100;
  min = λ a b. min a b;
  max = λ a b. max a b;
  le = λ a b. leb a b;
  lt = λ a b. ltb a b;
}

abbrev bucket : TokenBucket hundredths
bucket = record { tokens = 150; max_tokens = 20000; refill_rate = 10000; last_refill = 0 }

abbrev tried : Bool × TokenBucket hundredths
tried = try_consume hundredths bucket (nanos 1)

abbrev request : WafRequest hundredths
request = record { ip = codes "10.0.0.7"; uri = codes "/"; user_agent = []; body_size = 0 }

abbrev service : WafService hundredths
service = new_service hundredths (default_config hundredths)

enabled_default : service.config.enabled ≡ true
unfolding new_service default_config
enabled_default = refl

abbrev after_block : Option WafDecision × WafService hundredths
after_block =
    check_request hundredths (block_ip hundredths service (codes "10.0.0.7") 60 0) request
      (nanos 59)

abbrev instants : List ℕ
instants = 40 ∷ 30 ∷ 20 ∷ 10 ∷ []

abbrev no_env : WafEnv hundredths
no_env = record {
  waf_enabled = none;
  waf_rate_limit_rps = none;
  waf_max_body_bytes = none;
  waf_blocked_countries = none;
}

abbrev get_root : HttpRequest hundredths
get_root = record {
  addr = codes "10.0.0.7";
  path = codes "/";
  user_agent = none;
  content_length = none;
}
