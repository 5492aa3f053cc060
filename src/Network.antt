-- ===== src/Network.antt =====
-- src/security/network.rs: the allow list of addresses and its middleware, with the arithmetic of a release build
-- on `u32`. The parser of addresses and the regex crate are parameters; descriptions are left out.
pub mod Admission
mod Tests
use stackhouse.Prelude.{
  ℕ, ◌^◌, Bool, true, false, not, ◌&&◌, ◌||◌, Option, none, some, List, [], ◌∷◌, ◌++◌,
  if◌then◌else◌, is_empty, retain, ◌==◌,
}
use stackhouse.Prelude.Text.{Text, codes, text_eq, split, contains_char, parse_unsigned}
use stackhouse.Abac.Cidr.{same_network}

-- `IpAddr`; of an address of version 6, only that it is one.
pub data IpAddr : Type 0 where
  v4 : ℕ → IpAddr
  v6 : Text → IpAddr

-- `str::parse::<IpAddr>`, and the search for a pattern, which is `none` where the pattern is refused.
pub record Parsers : Type 0 where
  pub parse_ip : Text → Option IpAddr
  pub search : Text → Text → Option Bool

pub record NetworkRule : Type 0 where
  pub ip : Text
  pub enabled : Bool

pub record NetworkService : Type 0 where
  pub allowlist : List NetworkRule
  pub enabled : Bool

abbrev pub new_network : NetworkService
new_network = record { allowlist = []; enabled = false }

abbrev pub enable : NetworkService → NetworkService
enable s = record s { enabled = true }

abbrev pub disable : NetworkService → NetworkService
disable s = record s { enabled = false }

abbrev pub add_rule : NetworkRule → NetworkService → NetworkService
add_rule rule s = record s { allowlist = s.allowlist ++ (rule ∷ []) }

abbrev pub remove_rule : Text → NetworkService → NetworkService
remove_rule ip s = record s { allowlist = retain (λ r. not (text_eq r.ip ip)) s.allowlist }

-- Both addresses of version 4: the answer of the mask.
abbrev pub cidr_answer : ℕ → IpAddr → IpAddr → Option Bool
cidr_answer prefix_len (v4 r) (v4 c) = some (same_network prefix_len r c)
cidr_answer prefix_len _ _ = none

-- The block on `/`, which answers or passes on.
unfoldable pub cidr_match : Parsers → Text → Text → Option Bool
cidr_match p rule ip = elim (split b'/' rule) [
  | base ∷ (prefix ∷ []) ↦ elim (p.parse_ip base) [
    | none ↦ none
    | some rule_ip ↦ elim (parse_unsigned (2 ^ 32) prefix) [
      | none ↦ none
      | some prefix_len ↦ elim (p.parse_ip ip) [
        | none ↦ none
        | some check_ip ↦ cidr_answer prefix_len rule_ip check_ip
      ]
    ]
  ]
  | _ ↦ none
]

-- `rule.replace('.', "\\.").replace('*', ".*")`
abbrev pub pattern_of : Text → Text
pattern_of [] = []
pattern_of (c ∷ s) =
    let rest = pattern_of s in
    if c == b'.' then 92 ∷ 46 ∷ rest else if c == b'*' then 46 ∷ 42 ∷ rest else c ∷ rest

abbrev pub or_false : Option Bool → Bool
or_false none = false
or_false (some b) = b

abbrev pub wildcard_match : Parsers → Text → Text → Bool
wildcard_match p rule ip =
    contains_char b'*' rule && or_false (p.search (codes "^" ++ (pattern_of rule ++ codes "$")) ip)

unfoldable pub matches_rule : Parsers → Text → Text → Bool
unfolding cidr_match
matches_rule p rule ip =
    if text_eq rule ip
    then true
    else elim (cidr_match p rule ip) [ some b ↦ b | none ↦ wildcard_match p rule ip ]

-- The loop over the rules.
unfoldable pub some_rule : Parsers → Text → List NetworkRule → Bool
some_rule p ip [] = false
some_rule p ip (r ∷ rules) =
    let rest = some_rule p ip rules in
    if not r.enabled then rest else if matches_rule p r.ip ip then true else rest

unfoldable pub is_allowed : Parsers → NetworkService → Text → Bool
unfolding some_rule
is_allowed p s ip =
    if not s.enabled
    then true
    else if is_empty s.allowlist
    then false
    else some_rule p ip s.allowlist

-- Whether the request goes on, or is answered with 403.
unfoldable pub network_middleware : Parsers → NetworkService → Option Text → Bool
unfolding is_allowed
network_middleware p s client_ip =
    if s.enabled then elim client_ip [ none ↦ false | some ip ↦ is_allowed p s ip ] else true
