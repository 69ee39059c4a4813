-- ===== src/Predict/Tickets/Totals.antt =====
-- The totals of a ticket whose fills are those of a walk.
use japan_agent.Base.{◌≡◌, refl, subst, true, false, List, [], ◌∷◌, map, ok, All, arith}
use japan_agent.Base.Decimal.{Decimal, dec, lt, add, mul, sum_from}
use japan_agent.Base.Decimal.Order.{Lt, IsPositive, Lt→lt, Lt→le}
use japan_agent.Base.Decimal.Sign.{IsNonneg}
use japan_agent.Predict.Fills.{AskLevel, Fill, Walk, cost, walk_asks}
use japan_agent.Predict.Fills.Sums.{mul_comm, notional_from, IsPriced, walk_asks-IsTotalled}
use japan_agent.Predict.Policy.{is_side}
use japan_agent.Predict.Tickets.{TicketDraft, nought, totals_from, is_empty, ticket_totals}

totals_from-eq-ok :
    (shares notional : Decimal) (fs : List Fill)
    → All IsPriced fs
    → totals_from shares notional fs
      ≡ ok (sum_from shares (map (λ (f : Fill). f.shares) fs), notional_from notional fs)
unfolding totals_from sum_from notional_from
totals_from-eq-ok shares notional [] h = refl
totals_from-eq-ok shares notional (f ∷ fs) (p, ps) =
    rw
      (
        Lt→lt nought f.price p.price_above,
        Lt→lt f.price (dec 1 0) p.price_below,
        Lt→le f.shares nought p.some_shares,
        mul_comm f.price f.shares,
      )
      (totals_from-eq-ok (add shares f.shares) (add notional (mul f.shares f.price)) fs ps)

nonneg_fee : (x : Decimal) → IsNonneg x → lt x nought ≡ false
unfolding lt
nonneg_fee x h = let none = h.nonneg in ground arith

some_fills :
    (fs : List Fill)
    → IsPositive (sum_from nought (map (λ (f : Fill). f.shares) fs))
    → is_empty fs ≡ false
unfolding sum_from Lt
some_fills [] h = absurd (omega arith)
some_fills (f ∷ fs) h = refl

-- If a walk bought some shares, a ticket of YES or NO with the fills and the fee of the walk adds up,
-- and to the shares and the cost of the walk.
pub ticket_totals-walk_asks :
    (asks : List AskLevel) (budget rate limit tick : Decimal) (w : Walk) (d : TicketDraft)
    → walk_asks asks budget rate limit tick ≡ ok w
    → IsPositive w.shares
    → is_side d.outcome ≡ true
    → d.fills ≡ w.fills
    → d.fee ≡ w.fee
    → ticket_totals d ≡ ok (w.shares, cost w)
unfolding ticket_totals cost
ticket_totals-walk_asks asks budget rate limit tick w d walked bought side fills fee =
    let t = walk_asks-IsTotalled asks budget rate limit tick walked in
    rw
      (
        side,
        fills,
        fee,
        some_fills w.fills (subst IsPositive t.shares bought),
        nonneg_fee w.fee t.fee,
        totals_from-eq-ok nought nought w.fills t.priced,
        ← t.shares,
        ← t.notional,
      )
      refl
