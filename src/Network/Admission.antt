-- ===== src/Network/Admission.antt =====
-- Who is let through.
use stackhouse.Prelude.{
  ◌≡◌, refl, ◌∙◌, Bool, true, false, not, ◌&&◌, ◌||◌, Option, none, some, List, [], ◌∷◌, ◌++◌,
  arith, if◌then◌else◌, is_empty, any, retain, Bool-cases, inl, inr,
}
use stackhouse.Prelude.Text.{Text, text_eq}
use stackhouse.Network.{
  Parsers, NetworkRule, NetworkService, enable, add_rule, remove_rule, matches_rule, some_rule,
  is_allowed, network_middleware,
}

module _ (p : Parsers) where
  -- A rule that is switched on and matches.
  abbrev pub admits : Text → NetworkRule → Bool
  admits ip r = r.enabled && matches_rule p r.ip ip

  some_rule-any :
      (ip : Text) (rules : List NetworkRule) → some_rule p ip rules ≡ any (admits ip) rules
  unfolding some_rule
  some_rule-any ip [] = refl
  some_rule-any ip (r ∷ rules) = ground (arith, some_rule-any ip rules)

  is_allowed-any :
      (s : NetworkService) (ip : Text)
      → is_allowed p s ip ≡ (not s.enabled || any (admits ip) s.allowlist)
  unfolding is_allowed
  is_allowed-any s ip = elim (Bool-cases s.enabled) [
    | inr off ↦ rw (off, is_allowed) refl
    | inl on ↦ rw (on, is_allowed) (listed s.allowlist)
  ]
    where
      listed :
          (rules : List NetworkRule)
          → (if is_empty rules then false else some_rule p ip rules) ≡ any (admits ip) rules
      listed [] = refl
      listed (r ∷ rules) = some_rule-any ip (r ∷ rules)

  any-append_one :
      (q : NetworkRule → Bool) (rules : List NetworkRule) (r : NetworkRule)
      → any q (rules ++ (r ∷ [])) ≡ (any q rules || q r)
  any-append_one q [] r = ground arith
  any-append_one q (x ∷ rules) r = ground (arith, any-append_one q rules r)

  any-retain :
      (q keep : NetworkRule → Bool) (rules : List NetworkRule)
      → any q (retain keep rules) ≡ any (λ r. q r && keep r) rules
  any-retain q keep [] = refl
  any-retain q keep (r ∷ rules) = ground (arith, any-retain q keep rules)

  -- With the restrictions on and a rule added that is switched on, then the rules of an address removed: a client is let
  -- through just when its address is known and is matched by the added rule or an earlier one that is
  -- switched on, among those of other addresses than the removed.
  pub network_middleware-remove_rule :
      (s : NetworkService) (rule : NetworkRule) (gone : Text) (client : Option Text)
      → rule.enabled ≡ true
      → network_middleware p (enable (remove_rule gone (add_rule rule s))) client ≡ elim client [
        | none ↦ false
        | some ip ↦
            any (λ r. admits ip r && not (text_eq r.ip gone)) s.allowlist
            || (matches_rule p rule.ip ip && not (text_eq rule.ip gone))
      ]
  unfolding network_middleware
  network_middleware-remove_rule s rule gone none on = refl
  network_middleware-remove_rule s rule gone (some ip) on =
      let after = enable (remove_rule gone (add_rule rule s)) in
      is_allowed-any after ip
      ∙ any-retain (admits ip) (λ r. not (text_eq r.ip gone)) (s.allowlist ++ (rule ∷ []))
      ∙ any-append_one (λ r. admits ip r && not (text_eq r.ip gone)) s.allowlist rule
      ∙ rw on refl
