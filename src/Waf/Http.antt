-- ===== src/Waf/Http.antt =====
-- src/security/waf.rs: `waf_middleware`.
use stackhouse.Prelude.{ℕ, ◌^◌, Option, none, some, []}
use stackhouse.Prelude.Text.{Text}
use stackhouse.Floats.{Float}
use stackhouse.Waf.Config.{WafEnv, config_from_env, parse_or}
use stackhouse.Waf.Service.{limited, blocked, WafRequest, new_service, check_request, Verdict}

module _ (fl : Float) where
  -- The response of `waf_middleware`: `none` runs the rest of the application.
  abbrev pub status_of : Verdict fl → Option ℕ
  status_of none = none
  status_of (some limited) = some 429
  status_of (some (blocked reason)) = some 403

  -- What the middleware takes from a request; a header that is missing or not text is `none`.
  pub record HttpRequest : Type 0 where
    pub addr : Text
    pub path : Text
    pub user_agent : Option Text
    pub content_length : Option Text

  unfoldable pub waf_request : HttpRequest → WafRequest fl
  waf_request h = record {
    ip = h.addr;
    uri = h.path;
    user_agent = elim h.user_agent [ none ↦ [] | some s ↦ s ];
    body_size = elim h.content_length [ none ↦ 0 | some s ↦ parse_or (2 ^ 64) 0 s ];
  }

  -- One request: the service is made from the environment for this request alone.
  unfoldable pub waf_middleware : WafEnv fl → HttpRequest → ℕ → Option ℕ
  waf_middleware env h now =
      status_of (check_request fl (new_service fl (config_from_env fl env)) (waf_request h) now).0
