-- ===== src/Billing/Entitlements/Tests.antt =====
-- One customer with a subscription in its grace period.
use stackhouse.Prelude.{
  ℕ, ◌≡◌, refl, inl, inr, true, false, ◌||◌, none, some, List, [], ◌∷◌, In, map,
}
use stackhouse.Prelude.Text.{codes}
use stackhouse.Billing.Entitlements.{
  Entitlement, Product, Subscription, EntitlementInfo, runs, is_for, in_grace, resolve,
}
use stackhouse.Billing.Entitlements.Laws.{resolve_running, resolve_granted}

abbrev pro : Entitlement
pro = record { identifier = codes "pro" }

abbrev monthly : Subscription
monthly = record {
  product_id = some 7;
  is_trial = false;
  auto_renew = true;
  current_period_start = some 10;
  current_period_end = some 40;
  grace_period_expires_at = none;
  store = codes "stripe";
}

-- Run out at 20, in grace until 90.
abbrev lapsed : Subscription
lapsed = record monthly { current_period_end = some 20; grace_period_expires_at = some 90 }

abbrev granted : List EntitlementInfo
granted = resolve ((pro, 7 ∷ []) ∷ []) (lapsed ∷ monthly ∷ []) [] 30

monthly-runs : runs monthly 30 ≡ true
unfolding runs
monthly-runs = refl

resolve_running_example :
    (info : EntitlementInfo) × In info granted
    × (info.identifier ≡ pro.identifier)
    × (info.is_active ≡ true)
resolve_running_example =
    resolve_running ((pro, 7 ∷ []) ∷ []) (lapsed ∷ monthly ∷ []) [] 30 pro (7 ∷ []) monthly
      (inl refl) (inr (inl refl)) refl monthly-runs

abbrev grace_info : EntitlementInfo
grace_info = record {
  identifier = codes "pro";
  is_active = true;
  will_renew = true;
  period_type = codes "grace";
  latest_purchase_date = some 10;
  expires_date = some 20;
  grace_period_expires_date = some 90;
  store = codes "stripe";
  product_identifier = none;
}

grace_listed : In grace_info (resolve ((pro, 7 ∷ []) ∷ []) (lapsed ∷ []) [] 50)
unfolding resolve stackhouse.Billing.Entitlements.is_more_relevant
grace_listed = inl refl

resolve_granted_example :
    (ent : Entitlement) × (ids : List ℕ) × (s : Subscription) × In {A = Entitlement × List ℕ}
      (ent, ids)
      ((pro, 7 ∷ []) ∷ [])
    × In s (lapsed ∷ [])
    × (is_for ids s ≡ true)
    × (grace_info.identifier ≡ ent.identifier)
    × ((runs s 50 || in_grace s 50) ≡ true)
resolve_granted_example =
    resolve_granted ((pro, 7 ∷ []) ∷ []) (lapsed ∷ []) [] 50 grace_info grace_listed refl

-- At 50 both subscriptions have run out; the later one is chosen, though the other is in grace.
grace_overlooked :
    map
      (λ (i : EntitlementInfo). i.is_active)
      (resolve ((pro, 7 ∷ []) ∷ []) (lapsed ∷ monthly ∷ []) [] 50)
    ≡ false ∷ []
unfolding resolve stackhouse.Billing.Entitlements.is_more_relevant
grace_overlooked = refl
