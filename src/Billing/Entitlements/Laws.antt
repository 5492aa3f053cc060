-- ===== src/Billing/Entitlements/Laws.antt =====
-- The subscription that decides an entitlement.
use stackhouse.Prelude.{
  ℕ, ◌≡◌, refl, sym, ◌∙◌, ap, subst, ◌⊎◌, inl, inr, true, false, ◌||◌, Option, none, some, List, [],
  ◌∷◌, arith, In, Bool-cases,
}
use stackhouse.Billing.Entitlements.{
  Entitlement, Product, Subscription, EntitlementInfo, runs, later_expiry, is_more_relevant, is_for,
  best_of, in_grace, expired, info_of, resolve,
}

-- `b` is at least as relevant as `s`.
abbrev IsAhead : ℕ → Subscription → Subscription → Type 0
IsAhead now b s = is_more_relevant (some b) s now ≡ false

IsAhead-refl : (now : ℕ) (s : Subscription) → IsAhead now s s
unfolding is_more_relevant later_expiry
IsAhead-refl now s = ground arith

IsAhead-more :
    (now : ℕ) (b c s : Subscription)
    → IsAhead now b s
    → is_more_relevant (some b) c now ≡ true
    → IsAhead now c s
unfolding is_more_relevant later_expiry runs
IsAhead-more now b c s h k = ground arith

IsAhead-runs :
    (now : ℕ) (b s : Subscription) → IsAhead now b s → runs s now ≡ true → runs b now ≡ true
unfolding is_more_relevant
IsAhead-runs now b s h k = ground arith

-- What the loop over the subscriptions ends with.
abbrev IsBest : List ℕ → ℕ → List Subscription → Subscription → Type 0
IsBest ids now subs b = (s : Subscription) → In s subs → is_for ids s ≡ true → IsAhead now b s

abbrev IsCandidate : List ℕ → List Subscription → Subscription → Type 0
IsCandidate ids subs b = In b subs × (is_for ids b ≡ true)

module _ (ids : List ℕ) (now : ℕ) where
  -- The loop from a best subscription so far.
  best_of-some :
      (a : Subscription) (subs : List Subscription)
      → (b : Subscription) × (best_of ids now (some a) subs ≡ some b)
        × ((b ≡ a) ⊎ IsCandidate ids subs b)
        × ((x : Subscription) → IsAhead now a x → IsAhead now b x)
        × IsBest ids now subs b
  unfolding best_of
  best_of-some a [] = (a, refl, inl refl, (λ x h. h), λ s i. elim i [ ])
  best_of-some a (s ∷ subs) = elim (Bool-cases (is_for ids s)) [
    | inr fails ↦
        let (b, e, from, keeps, best) = best_of-some a subs in
        (
          b,
          rw (fails, best_of) e,
          elim from [ inl same ↦ inl same | inr (i, f) ↦ inr (inr i, f) ],
          keeps,
          λ x i f. elim i [ inl same ↦ cc (ap (is_for ids) same) | inr later ↦ best x later f ],
        )
    | inl holds ↦ elim (Bool-cases (is_more_relevant (some a) s now)) [
      | inl more ↦
          let (b, e, from, keeps, best) = best_of-some s subs in
          (
            b,
            rw (holds, more, best_of) e,
            inr (elim from [
              | inl same ↦ (inl same, ap (is_for ids) same ∙ holds)
              | inr (i, f) ↦ (inr i, f)
            ]),
            (λ x h. keeps x (IsAhead-more now a s x h more)),
            λ x i f. elim i [
              | inl same ↦ keeps x (subst (IsAhead now s) (sym same) (IsAhead-refl now s))
              | inr later ↦ best x later f
            ],
          )
      | inr less ↦
          let (b, e, from, keeps, best) = best_of-some a subs in
          (
            b,
            rw (holds, less, best_of) e,
            elim from [ inl same ↦ inl same | inr (i, f) ↦ inr (inr i, f) ],
            keeps,
            λ x i f. elim i [
              | inl same ↦ keeps x (subst (IsAhead now a) (sym same) less)
              | inr later ↦ best x later f
            ],
          )
    ]
  ]

  -- The whole loop: it finds the best candidate if there is a candidate.
  best_of-none :
      (subs : List Subscription)
      → ((best_of ids now none subs ≡ none)
          × ((s : Subscription) → In s subs → is_for ids s ≡ false))
        ⊎ ((b : Subscription) × (best_of ids now none subs ≡ some b)
            × IsCandidate ids subs b
            × IsBest ids now subs b)
  unfolding best_of is_more_relevant
  best_of-none [] = inl (refl, λ s i. elim i [ ])
  best_of-none (s ∷ subs) = elim (Bool-cases (is_for ids s)) [
    | inl holds ↦
        let (b, e, from, keeps, best) = best_of-some s subs in
        inr (
          b,
          rw (holds, best_of) e,
          elim from [
            | inl same ↦ (inl same, ap (is_for ids) same ∙ holds)
            | inr (i, f) ↦ (inr i, f)
          ],
          λ x i f. elim i [
            | inl same ↦ keeps x (subst (IsAhead now s) (sym same) (IsAhead-refl now s))
            | inr later ↦ best x later f
          ],
        )
    | inr fails ↦ elim (best_of-none subs) [
      | inl (e, none_for) ↦ inl (
        rw (fails, best_of) e,
        λ x i. elim i [ inl same ↦ ap (is_for ids) same ∙ fails | inr later ↦ none_for x later ],
      )
      | inr (b, e, (i, f), best) ↦ inr (
        b,
        rw (fails, best_of) e,
        (inr i, f),
        λ x j g. elim j [ inl same ↦ cc (ap (is_for ids) same) | inr later ↦ best x later g ],
      )
    ]
  ]

info_of_active :
    (ent : Entitlement) (products : List Product) (now : ℕ) (b : Subscription)
    → (info_of ent products now (some b)).is_active ≡ (runs b now || in_grace b now)
unfolding info_of expired runs in_grace
info_of_active ent products now b = ground arith

info_of_identifier :
    (ent : Entitlement) (products : List Product) (now : ℕ) (o : Option Subscription)
    → (info_of ent products now o).identifier ≡ ent.identifier
unfolding info_of
info_of_identifier ent products now none = refl
info_of_identifier ent products now (some s) = refl

inactive :
    (ent : Entitlement) (products : List Product) (now : ℕ)
    → (info_of ent products now none).is_active ≡ false
unfolding info_of
inactive ent products now = refl

-- An entitlement is reported active to a customer who has a subscription for one of its products
-- whose period has not ended.
pub resolve_running :
    (es : List (Entitlement × List ℕ)) (subs : List Subscription) (products : List Product)
    (now : ℕ) (ent : Entitlement) (ids : List ℕ) (s : Subscription)
    → In (ent, ids) es
    → In s subs
    → is_for ids s ≡ true
    → runs s now ≡ true
    → (info : EntitlementInfo) × In info (resolve es subs products now)
      × (info.identifier ≡ ent.identifier)
      × (info.is_active ≡ true)
unfolding resolve
resolve_running [] subs products now ent ids s i j f r = elim i [ ]
resolve_running ((ent', ids') ∷ es) subs products now ent ids s (inr i) j f r =
    let (info, k, n, a) = resolve_running es subs products now ent ids s i j f r in
    (info, inr k, n, a)
resolve_running ((ent', ids') ∷ es) subs products now ent ids s (inl e) j f r =
    elim (best_of-none ids now subs) [
      | inl (_, none_for) ↦ cc (none_for s j)
      | inr (b, found, _, best) ↦
          let active : (info_of ent products now (some b)).is_active ≡ true =
            info_of_active ent products now b
            ∙ ap (λ x. x || in_grace b now) (IsAhead-runs now b s (best s j f) r) in
          (
            info_of ent products now (some b),
            inl (
                ap (info_of ent products now) (sym found)
                ∙ ap
                    (λ (x : Entitlement × List ℕ).
                      info_of x.0 products now (best_of x.1 now none subs))
                    e),
            info_of_identifier ent products now (some b),
            active,
          )
    ]

-- An entitlement is reported active only over a subscription of the customer for one of its
-- products whose period has not ended or that is in its grace period.
pub resolve_granted :
    (es : List (Entitlement × List ℕ)) (subs : List Subscription) (products : List Product)
    (now : ℕ) (info : EntitlementInfo)
    → In info (resolve es subs products now)
    → info.is_active ≡ true
    → (ent : Entitlement) × (ids : List ℕ) × (s : Subscription) × In (ent, ids) es
      × In s subs
      × (is_for ids s ≡ true)
      × (info.identifier ≡ ent.identifier)
      × ((runs s now || in_grace s now) ≡ true)
unfolding resolve
resolve_granted [] subs products now info i a = elim i [ ]
resolve_granted ((ent, ids) ∷ es) subs products now info (inr i) a =
    let (ent', ids', s, k, j, f, n, g) = resolve_granted es subs products now info i a in
    (ent', ids', s, inr k, j, f, n, g)
resolve_granted ((ent, ids) ∷ es) subs products now info (inl e) a =
    elim (best_of-none ids now subs) [
      | inl (found, _) ↦ cc (
        inactive ent products now,
        ap (λ (x : EntitlementInfo). x.is_active) e,
        ap (λ o. (info_of ent products now o).is_active) found,
      )
      | inr (b, found, (j, f), _) ↦
          let same = e ∙ ap (info_of ent products now) found in
          (
            ent,
            ids,
            b,
            inl refl,
            j,
            f,
            ap (λ (x : EntitlementInfo). x.identifier) same
                ∙ info_of_identifier ent products now (some b),
            sym (info_of_active ent products now b)
                ∙ sym (ap (λ (x : EntitlementInfo). x.is_active) same)
                ∙ a,
          )
    ]
