-- ===== src/Network/Tests.antt =====
-- Tests and instances of the allow list.
use stackhouse.Prelude.{
  ◌≡◌, refl, if◌then◌else◌, true, false, not, ◌&&◌, ◌||◌, none, some, [], ◌∷◌, any,
}
use stackhouse.Prelude.Text.{codes, text_eq}
use stackhouse.Network.{
  v4, Parsers, NetworkRule, new_network, enable, add_rule, remove_rule, matches_rule,
  network_middleware, pattern_of,
}
use stackhouse.Network.Admission.{admits, network_middleware-remove_rule}

abbrev parsers : Parsers
parsers = record {
  parse_ip = λ t.
      if text_eq t (codes "10.0.0.0")
      then some (v4 167772160)
      else if text_eq t (codes "99.1.2.3")
      then some (v4 1661010435)
      else none;
  search = λ p t. none;
}

abbrev wide : NetworkRule
wide = record { ip = codes "10.0.0.0/33"; enabled = true }

abbrev office : NetworkRule
office = record { ip = codes "7.7.7.7"; enabled = true }

escaped : pattern_of (codes "1.*") ≡ codes "1\\..*"
escaped = refl

open_by_default : network_middleware parsers new_network none ≡ true
unfolding network_middleware
open_by_default = refl

closed_when_empty : network_middleware parsers (enable new_network) (some (codes "7.7.7.7")) ≡ false
unfolding network_middleware
closed_when_empty = refl

-- A prefix length of 33 lets half of all addresses through.
wide_prefix :
    network_middleware parsers (enable (add_rule wide new_network)) (some (codes "99.1.2.3")) ≡ true
unfolding network_middleware matches_rule
wide_prefix = refl

network_middleware-remove_rule_example :
    network_middleware parsers
      (enable (remove_rule (codes "7.7.7.7") (add_rule wide (add_rule office new_network))))
      (some (codes "7.7.7.7"))
    ≡ (any
          (λ r. admits parsers (codes "7.7.7.7") r && not (text_eq r.ip (codes "7.7.7.7")))
          (office ∷ [])
        || (matches_rule parsers wide.ip (codes "7.7.7.7")
            && not (text_eq wide.ip (codes "7.7.7.7"))))
network_middleware-remove_rule_example =
    network_middleware-remove_rule parsers (add_rule office new_network) wide (codes "7.7.7.7")
      (some (codes "7.7.7.7")) refl
