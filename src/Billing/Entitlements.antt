-- ===== src/Billing/Entitlements.antt =====
-- src/billing/entitlements.rs: `resolve`, the entitlements of a customer at an instant. Of the
-- structs of src/billing/models.rs, the fields that it reads; ids are positive.
pub mod Laws
mod Tests
use stackhouse.Prelude.{
  ℕ, Bool, true, false, ◌&&◌, ◌||◌, not, Option, none, some, List, [], ◌∷◌, ◌==◌, ltb, leb,
  if◌then◌else◌, map, any,
}
use stackhouse.Prelude.Text.{Text, codes}

-- `Entitlement`, `Product`, `Subscription`
pub record Entitlement : Type 0 where
  pub identifier : Text

pub record Product : Type 0 where
  pub id : ℕ
  pub store_product_id : Text

pub record Subscription : Type 0 where
  pub product_id : Option ℕ
  pub is_trial : Bool
  pub auto_renew : Bool
  pub current_period_start : Option ℕ
  pub current_period_end : Option ℕ
  pub grace_period_expires_at : Option ℕ
  pub store : Text

pub record EntitlementInfo : Type 0 where
  pub identifier : Text
  pub is_active : Bool
  pub will_renew : Bool
  pub period_type : Text
  pub latest_purchase_date : Option ℕ
  pub expires_date : Option ℕ
  pub grace_period_expires_date : Option ℕ
  pub store : Text
  pub product_identifier : Option Text

-- `end.map(|e| e > now).unwrap_or(true)`
unfoldable pub runs : Subscription → ℕ → Bool
runs s now = elim s.current_period_end [ none ↦ true | some e ↦ ltb now e ]

-- `(Some(a), Some(b)) => a > b, (Some(_), None) => true, _ => false`
later_expiry : Option ℕ → Option ℕ → Bool
later_expiry (some a) (some b) = ltb b a
later_expiry (some a) none = true
later_expiry none _ = false

unfoldable pub is_more_relevant : Option Subscription → Subscription → ℕ → Bool
unfolding runs later_expiry
is_more_relevant none candidate now = true
is_more_relevant (some cur) candidate now =
    if runs candidate now
    then (if runs cur now
        then later_expiry candidate.current_period_end cur.current_period_end
        else true)
    else if runs cur now
    then false
    else later_expiry candidate.current_period_end cur.current_period_end

-- `sub.product_id` and `product_ids.contains(&pid)`
abbrev pub is_for : List ℕ → Subscription → Bool
is_for ids s = elim s.product_id [ none ↦ false | some pid ↦ any (λ i. i == pid) ids ]

-- One round of the loop over the subscriptions, and the loop.
abbrev pub better : List ℕ → ℕ → Option Subscription → Subscription → Option Subscription
better ids now best s =
    if not (is_for ids s) then best else if is_more_relevant best s now then some s else best

unfoldable pub best_of : List ℕ → ℕ → Option Subscription → List Subscription → Option Subscription
best_of ids now best [] = best
best_of ids now best (s ∷ subs) = best_of ids now (better ids now best s) subs

unfoldable pub in_grace : Subscription → ℕ → Bool
in_grace s now = elim s.grace_period_expires_at [ none ↦ false | some g ↦ ltb now g ]

unfoldable pub expired : Subscription → ℕ → Bool
expired s now = elim s.current_period_end [ none ↦ false | some e ↦ leb e now ]

period_name : Subscription → ℕ → Text
period_name s now =
    if s.is_trial then codes "trial" else if in_grace s now then codes "grace" else codes "normal"

-- `product_index.get(&pid)`: the last product of an id.
find_product : ℕ → List Product → Option Text
find_product pid [] = none
find_product pid (p ∷ ps) = elim (find_product pid ps) [
  | some t ↦ some t
  | none ↦ if p.id == pid then some p.store_product_id else none
]

product_name : Option ℕ → List Product → Option Text
unfolding find_product
product_name none products = none
product_name (some pid) products = find_product pid products

unfoldable pub info_of : Entitlement → List Product → ℕ → Option Subscription → EntitlementInfo
unfolding in_grace expired period_name product_name
info_of ent products now none = record {
  identifier = ent.identifier;
  is_active = false;
  will_renew = false;
  period_type = codes "normal";
  latest_purchase_date = none;
  expires_date = none;
  grace_period_expires_date = none;
  store = codes "unknown";
  product_identifier = none;
}
info_of ent products now (some s) = record {
  identifier = ent.identifier;
  is_active = not (expired s now) || in_grace s now;
  will_renew = s.auto_renew;
  period_type = period_name s now;
  latest_purchase_date = s.current_period_start;
  expires_date = s.current_period_end;
  grace_period_expires_date = s.grace_period_expires_at;
  store = s.store;
  product_identifier = product_name s.product_id products;
}

unfoldable pub resolve :
    List (Entitlement × List ℕ) → List Subscription → List Product → ℕ → List EntitlementInfo
unfolding best_of info_of
resolve [] subs products now = []
resolve ((ent, ids) ∷ rest) subs products now =
    info_of ent products now (best_of ids now none subs) ∷ resolve rest subs products now
