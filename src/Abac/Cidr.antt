-- ===== src/Abac/Cidr.antt =====
-- src/security/abac.rs: `ip_in_cidr`, with the arithmetic of a release build on `u32`.
use stackhouse.Prelude.{
  ℕ, zero, suc, ◌+◌, ◌-◌, ◌*◌, ◌/◌, ◌%◌, ◌^◌, ◌≤◌, ◌<◌, ◌≡◌, ◌↔◌, sym, ap, ◌∙◌, subst, Bool, true,
  false, Option, none, some, List, [], ◌∷◌, arith, ◌==◌, ==_iff,
}
use native.Mathlib.Nat.{mul-div_cancel}
use native.Mathlib.Numerals.{unary_clauses}
use stackhouse.Prelude.Text.{Text, split, parse_unsigned}

-- `filter_map(|s| s.parse().ok())` to bytes.
abbrev pub octets : List Text → List ℕ
octets [] = []
octets (s ∷ ss) =
    let rest = octets ss in elim (parse_unsigned 256 s) [ none ↦ rest | some n ↦ n ∷ rest ]

-- `u32::from_be_bytes` of four bytes.
abbrev pub from_be_bytes : List ℕ → Option ℕ
from_be_bytes (a ∷ (b ∷ (c ∷ (d ∷ [])))) = some (((a * 256 + b) * 256 + c) * 256 + d)
from_be_bytes _ = none

-- `x & (!0 << k)`: the low `k` bits are cleared.
abbrev pub clear_low : ℕ → ℕ → ℕ
clear_low k x = x / 2 ^ k * 2 ^ k

-- `32 - mask_bits` wraps, and a shift takes its amount modulo 32.
abbrev pub shift_of : ℕ → ℕ
shift_of mask_bits = (2 ^ 32 + 32 - mask_bits) % 2 ^ 32 % 32

-- `x & mask`
abbrev pub masked : ℕ → ℕ → ℕ
masked zero x = 0
masked (suc n) x = clear_low (shift_of (suc n)) x

abbrev pub same_network : ℕ → ℕ → ℕ → Bool
same_network mask_bits a b = masked mask_bits a == masked mask_bits b

-- `parse().unwrap_or(32)`
abbrev pub mask_bits_of : Text → ℕ
mask_bits_of mask = elim (parse_unsigned (2 ^ 32) mask) [ none ↦ 32 | some n ↦ n ]

unfoldable pub ip_in_cidr : Text → Text → Bool
ip_in_cidr ip cidr = elim (split b'/' cidr) [
  | [] ↦ false
  | base ∷ rest ↦ elim rest [
    | [] ↦ false
    | mask ∷ more ↦ elim more [
      | _ ∷ _ ↦ false
      | [] ↦ elim (from_be_bytes (octets (split b'.' base))) [
        | none ↦ false
        | some cidr_u32 ↦ elim (from_be_bytes (octets (split b'.' ip))) [
          | none ↦ false
          | some check_u32 ↦ same_network (mask_bits_of mask) cidr_u32 check_u32
        ]
      ]
    ]
  ]
]

pow_pos : (k : ℕ) → 0 < 2 ^ k
pow_pos zero = omega arith
pow_pos (suc k) = simp unary_clauses (omega (arith, pow_pos k))

clear_low_iff : (k a b : ℕ) → (clear_low k a ≡ clear_low k b) ↔ (a / 2 ^ k ≡ b / 2 ^ k)
clear_low_iff k a b = (
  λ e.
      sym (mul-div_cancel (a / 2 ^ k) (pow_pos k))
      ∙ ap (λ x. x / 2 ^ k) e
      ∙ mul-div_cancel (b / 2 ^ k) (pow_pos k),
  λ e. ap (λ x. x * 2 ^ k) e,
)

shift_of_narrow : (n : ℕ) → 1 ≤ n → n ≤ 32 → shift_of n ≡ 32 - n
shift_of_narrow n h k = omega arith

-- A prefix length of 1 to 32 bits: two addresses are in the same network just when they agree
-- above the low `32 - mask_bits` bits.
pub same_network_iff :
    (n a b : ℕ)
    → suc n ≤ 32
    → (same_network (suc n) a b ≡ true) ↔ (a / 2 ^ (32 - suc n) ≡ b / 2 ^ (32 - suc n))
same_network_iff n a b h =
    let shift = shift_of_narrow (suc n) (omega arith) h in
    let (to, from) = ==_iff (masked (suc n) a) (masked (suc n) b) in
    let (to', from') = clear_low_iff (32 - suc n) a b in
    (
      λ e. to' (subst (λ k. clear_low k a ≡ clear_low k b) shift (to e)),
      λ e. from (subst (λ k. clear_low k a ≡ clear_low k b) (sym shift) (from' e)),
    )
