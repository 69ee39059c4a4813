-- ===== src/Predict/Policy/Sizing.antt =====
-- The size of a position of the paper policy, against the caps and the cash.
use japan_agent.Base.{
  ◌≡◌, Bool-cases, inl, inr, ok, >>=-eq-ok, ok-injective, subst, sym, ◌∙◌, arith,
}
use japan_agent.Base.Decimal.{Decimal, mul, lt, min_of, max_of}
use japan_agent.Base.Decimal.Order.{Lt, Le, IsPositive}
use japan_agent.Base.Decimal.Linear.{Le-refl, Le-trans, min_of-Le}
use japan_agent.Predict.Params.{PolicyParams}
use japan_agent.Predict.Fills.{nought}
use japan_agent.Predict.Policy.{PolicyInputs, kelly, headroom, capped, budget_for}

-- A value within the headroom of every cap, and the cash.
pub record IsWithinCaps (inputs : PolicyInputs) (params : PolicyParams) (x : Decimal) : Type 0 where
  pub market : Le x (headroom params.cap_market inputs.equity inputs.exposure.market)
  pub event : Le x (headroom params.cap_event inputs.equity inputs.exposure.event)
  pub category : Le x (headroom params.cap_category inputs.equity inputs.exposure.category)
  pub total : Le x (headroom params.cap_total_open inputs.equity inputs.exposure.total)
  pub cash : Le x inputs.available_cash

below_first : (x a b : Decimal) → Le x (min_of a b) → Le x a
below_first x a b h = Le-trans x (min_of a b) a h (min_of-Le a b).0

below_second : (x a b : Decimal) → Le x (min_of a b) → Le x b
below_second x a b h = Le-trans x (min_of a b) b h (min_of-Le a b).1

capped-IsWithinCaps :
    (wanted : Decimal) (inputs : PolicyInputs) (params : PolicyParams)
    → IsWithinCaps inputs params (capped wanted inputs params)
      × Le (capped wanted inputs params) wanted
unfolding capped
capped-IsWithinCaps wanted inputs params =
    let x = capped wanted inputs params in
    let all5 : Le x (min_of _ inputs.available_cash) = Le-refl x in
    let all4 = below_first x _ inputs.available_cash all5 in
    let all3 =
      below_first x _ (headroom params.cap_total_open inputs.equity inputs.exposure.total) all4 in
    let all2 =
      below_first x _ (headroom params.cap_category inputs.equity inputs.exposure.category) all3 in
    let all1 =
      below_first x _ (headroom params.cap_event inputs.equity inputs.exposure.event) all2 in
    (
      record {
        market = below_second x wanted _ all1;
        event = below_second x _ _ all2;
        category = below_second x _ _ all3;
        total = below_second x _ _ all4;
        cash = below_second x _ _ all5;
      },
      below_first x wanted _ all1,
    )

-- A positive maximum with 0 is its other argument.
positive_max : (x : Decimal) → IsPositive (max_of nought x) → max_of nought x ≡ x
unfolding max_of Lt
positive_max x h = elim (Bool-cases (lt nought x)) [
  | inl more ↦ rw more
  | inr less ↦ absurd (omega (arith, rw (less, max_of) at h))
]

-- A positive budget is within the headroom of each of the four caps and within the available cash,
-- and no more than the policy's fraction of the Kelly fraction of the equity.
pub budget_for-IsWithinCaps :
    (q ask : Decimal) (inputs : PolicyInputs) (params : PolicyParams) {budget : Decimal}
    → budget_for q ask inputs params ≡ ok budget
    → IsPositive budget
    → IsWithinCaps inputs params budget
      × ((k : Decimal) × (kelly q ask ≡ ok k)
          × Le budget (mul (mul params.kelly_fraction k) inputs.equity))
unfolding budget_for
budget_for-IsWithinCaps q ask inputs params {budget} e h =
    let (k, known, e1) = >>=-eq-ok (kelly q ask) _ e in
    let wanted = mul (mul params.kelly_fraction k) inputs.equity in
    let x = capped wanted inputs params in
    let whole : max_of nought x ≡ budget = ok-injective e1 in
    let same : x ≡ budget = sym (positive_max x (subst IsPositive (sym whole) h)) ∙ whole in
    let (within, least) = capped-IsWithinCaps wanted inputs params in
    (
      subst (IsWithinCaps inputs params) same within,
      (k, known, subst (λ d. Le d wanted) same least),
    )
