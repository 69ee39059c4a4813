-- ===== src/Predict/Fills/Sums.antt =====
-- What the totals of a walk are of its fills.
use mathlib.Core.Path.{ap₂}
use mathlib.Core.List.{append-nil, append_assoc}
use japan_agent.Base.{
  ℕ, ◌≡◌, refl, subst, sym, ◌∙◌, ap, false, not, ◌&&◌, List, [], ◌∷◌, ◌++◌, map, ok, inl, inr, All,
  Bool-cases, >>=-eq-ok, map_err, guard-eq-ok, ok-injective, arith,
}
use japan_agent.Base.Int.{ℤ, pos_part, neg_part, sub_ℕ}
use japan_agent.Base.Decimal.{Decimal, lt, le, add, mul, exact_mul, fix, sum_from}
use japan_agent.Base.Decimal.Order.{Lt, IsPositive, le→Lt}
use japan_agent.Base.Decimal.Linear.{Le_of_Lt}
use japan_agent.Base.Decimal.Sign.{IsNonneg, add-IsNonneg, mul-IsNonneg, sub-IsNonneg, lt-IsNonneg}
use japan_agent.Predict.Fills.{
  AskLevel, Fill, Walk, arithmetic, nought, one, sorted_asks, fee_per_share, level_fee, take_of,
  Walked, buy_level, walk_levels, finish_walk, start, walk_asks,
}
use japan_agent.Predict.Fills.Within.{IsQuoted, positive_parts-neg_part, sorted_asks-IsBook}

exact_mul_comm : (a b : Decimal) → exact_mul a b ≡ exact_mul b a
unfolding exact_mul
exact_mul_comm a b =
    let pa = pos_part a.coefficient in
    let na = neg_part a.coefficient in
    let pb = pos_part b.coefficient in
    let nb = neg_part b.coefficient in
    ap₂ (λ (c : ℤ) (p : ℕ). record { coefficient = c; places = p })
      (ap₂ sub_ℕ (grind (arith, pa, na, pb, nb)) (grind (arith, pa, na, pb, nb))) (omega arith)

pub mul_comm : (a b : Decimal) → mul a b ≡ mul b a
unfolding mul
mul_comm a b = ap fix (exact_mul_comm a b)

-- The notional of fills, from a notional on.
unfoldable pub notional_from : Decimal → List Fill → Decimal
notional_from n [] = n
notional_from n (f ∷ fs) = notional_from (add n (mul f.shares f.price)) fs

-- A fill at a price between 0 and 1, of a positive number of shares.
pub record IsPriced (f : Fill) : Type 0 where
  pub price_above : Lt nought f.price
  pub price_below : Lt f.price one
  pub some_shares : IsPositive f.shares

-- What the loop over the levels adds.
record Adds (rate : Decimal) (w end : Walked) : Type 0 where
  pub new : List Fill
  pub fills : end.fills ≡ w.fills ++ new
  pub priced : All IsPriced new
  pub notional : end.notional ≡ notional_from w.notional new
  pub fee : IsNonneg rate → IsNonneg w.fee → IsNonneg end.fee

Adds-nothing : (rate : Decimal) (w : Walked) {end : Walked} → w ≡ end → Adds rate w end
unfolding notional_from
Adds-nothing rate w same = subst (Adds rate w) same (record {
  new = [];
  fills = sym (append-nil w.fills);
  priced = tt;
  notional = refl;
  fee = λ _ h. h;
})

IsPositive-IsNonneg : (x : Decimal) → IsPositive x → IsNonneg x
IsPositive-IsNonneg x h = record { nonneg = positive_parts-neg_part x.coefficient x.places h }

level_fee-IsNonneg :
    (rate : Decimal) (level : AskLevel) (take : Decimal)
    → IsNonneg rate
    → IsQuoted level
    → IsPositive take
    → IsNonneg (level_fee take level.price rate)
unfolding level_fee fee_per_share
level_fee-IsNonneg rate level take h q k =
    let price = IsPositive-IsNonneg level.price q.price_above in
    mul-IsNonneg take _ (IsPositive-IsNonneg take k) (
      mul-IsNonneg _ _ (mul-IsNonneg rate level.price h price) (
        sub-IsNonneg one level.price (record { nonneg = refl }) price
          (Le_of_Lt level.price one q.price_below)))

walk_levels-Adds :
    (rate limit : Decimal) (levels : List AskLevel) (w : Walked) {end : Walked}
    → All IsQuoted levels
    → walk_levels rate limit levels w ≡ ok end
    → Adds rate w end
unfolding walk_levels buy_level notional_from
walk_levels-Adds rate limit [] w good e = Adds-nothing rate w (ok-injective e)
walk_levels-Adds rate limit (l ∷ ls) w (good, others) e = elim (Bool-cases (lt limit l.price)) [
  | inl above ↦ Adds-nothing rate w (ok-injective (rw above at e))
  | inr within ↦
      let (taken, took, rest) =
        >>=-eq-ok (map_err arithmetic (take_of rate l w.remaining)) _ (rw within at e) in
      elim (Bool-cases (le taken nought)) [
        | inl nothing ↦ Adds-nothing rate w (ok-injective (rw nothing at rest))
        | inr more ↦
            let fill : Fill = record { price = l.price; shares = taken } in
            let some_taken = le→Lt taken nought more in
            let adds =
              walk_levels-Adds rate limit ls (buy_level rate l taken w) others (rw more at rest) in
            record {
              new = fill ∷ adds.new;
              fills = adds.fills ∙ append_assoc w.fills (fill ∷ []) adds.new;
              priced = (
                record {
                  price_above = good.price_above;
                  price_below = good.price_below;
                  some_shares = some_taken;
                },
                adds.priced,
              );
              notional = adds.notional;
              fee = λ h k.
                  adds.fee h
                    (add-IsNonneg w.fee _ k (level_fee-IsNonneg rate l taken h good some_taken));
            }
      ]
]

-- A walk whose totals are those of its fills.
pub record IsTotalled (w : Walk) : Type 0 where
  pub priced : All IsPriced w.fills
  pub shares : w.shares ≡ sum_from nought (map (λ (f : Fill). f.shares) w.fills)
  pub notional : w.notional ≡ notional_from nought w.fills
  pub fee : IsNonneg w.fee

-- Where the walk of a book returns, each of its fills has a price between 0 and 1 and a positive
-- number of shares, the shares and the notional of the walk are the sums over its fills, and its fee
-- is not negative.
pub walk_asks-IsTotalled :
    (asks : List AskLevel) (budget rate limit tick : Decimal) {w : Walk}
    → walk_asks asks budget rate limit tick ≡ ok w
    → IsTotalled w
unfolding walk_asks finish_walk le
walk_asks-IsTotalled asks budget rate limit tick e =
    let (_, e1) = guard-eq-ok (lt budget nought) _ _ e in
    let (rated, e2) = guard-eq-ok (not (le nought rate && lt rate one)) _ _ e1 in
    let (levels, sorted, e3) = >>=-eq-ok (sorted_asks asks tick) _ e2 in
    let (end, looped, finished) = >>=-eq-ok (walk_levels rate limit levels (start budget)) _ e3 in
    let book = sorted_asks-IsBook asks tick sorted in
    let adds = walk_levels-Adds rate limit levels (start budget) book.all_quoted looped in
    subst IsTotalled (ok-injective finished) (record {
      priced = subst (All IsPriced) (sym adds.fills) adds.priced;
      shares = refl;
      notional = adds.notional ∙ ap (notional_from nought) (sym adds.fills);
      fee = adds.fee (lt-IsNonneg rate (not_below rated)) (record { nonneg = refl });
    })
  where
    not_below : not (not (lt rate nought) && lt rate one) ≡ false → lt rate nought ≡ false
    not_below h = ground arith
