-- ===== src/Predict/Fills/Within.antt =====
-- What a walk buys, against the book that it walks.
use mathlib.Core.List.{Perm, append-nil, append_assoc}
use japan_agent.Base.{
  ℕ, ◌≡◌, refl, subst, sym, ◌∙◌, ap, true, false, not, ◌&&◌, List, [], ◌∷◌, ◌++◌, ok, inl, inr, All,
  Bool-cases, >>=-eq-ok, map_err, map_err-eq-ok, guard-eq-ok, arith, ok-injective,
}
use japan_agent.Base.Int.{ℤ, pos, negsuc, neg_part}
use japan_agent.Base.Decimal.{Decimal, lt, le, div, min_of, add}
use japan_agent.Base.Decimal.Order.{Lt, Le, IsPositive, lt→Lt, lt→Le, le→Lt, Le→lt}
use japan_agent.Base.Decimal.Linear.{Le_of_Lt, Le-trans, min_of-Le, quantize_down-Le}
use japan_agent.Base.Sort.{sort-perm, sort-Ascending, sort-All, Ascending}
use japan_agent.Predict.Fills.{
  AskLevel, Fill, Walk, arithmetic, nought, one, cheaper, check_level, check_levels, sorted_asks,
  round_shares, take_of, Walked, buy_level, walk_levels, finish_walk, walk_asks, start,
  fee_per_share,
}

-- A level that the checks let through.
pub record IsQuoted (level : AskLevel) : Type 0 where
  pub price_above : Lt nought level.price
  pub price_below : Lt level.price one
  pub some_size : IsPositive level.size

-- A fill of one level.
pub record Buys (limit : Decimal) (level : AskLevel) (fill : Fill) : Type 0 where
  pub quoted : IsQuoted level
  pub same_price : fill.price ≡ level.price
  pub within_limit : Le level.price limit
  pub some_shares : IsPositive fill.shares
  pub within_size : Le fill.shares level.size

-- The fills are of the first levels of the list, one of each, in that order.
pub data Takes (limit : Decimal) : List AskLevel → List Fill → Type 0 where
  stop : {ls : List AskLevel} → Takes limit ls []
  take :
      {l : AskLevel} {f : Fill} {ls : List AskLevel} {fs : List Fill}
      → Buys limit l f
      → Takes limit ls fs
      → Takes limit (l ∷ ls) (f ∷ fs)

-- A positive decimal has no negative part.
pub positive_parts-neg_part :
    (c : ℤ) (p : ℕ) → IsPositive (record { coefficient = c; places = p }) → neg_part c ≡ 0
unfolding Lt
positive_parts-neg_part (pos n) p h = omega arith
positive_parts-neg_part (negsuc n) p h = absurd (omega arith)

check_level-IsQuoted :
    (tick : Decimal) (level : AskLevel) {u : Unit {0}}
    → check_level tick level ≡ ok u
    → IsQuoted level
unfolding check_level
check_level-IsQuoted tick level e = record {
  price_above = lt→Lt nought level.price (ground arith);
  price_below = lt→Lt level.price one (ground arith);
  some_size = le→Lt level.size nought (ground arith);
}

pub check_levels-IsQuoted :
    (tick : Decimal) (levels : List AskLevel) {u : Unit {0}}
    → check_levels tick levels ≡ ok u
    → All IsQuoted levels
unfolding check_levels
check_levels-IsQuoted tick [] e = tt
check_levels-IsQuoted tick (level ∷ rest) e =
    let (_, checked, others) = >>=-eq-ok (check_level tick level) _ e in
    (check_level-IsQuoted tick level checked, check_levels-IsQuoted tick rest others)

pub take_of-Le :
    (rate : Decimal) (level : AskLevel) (remaining : Decimal) {taken : Decimal}
    → IsPositive level.size
    → take_of rate level remaining ≡ ok taken
    → Le taken level.size
unfolding take_of round_shares
take_of-Le rate level remaining h e =
    let (size, rounded, e1) = >>=-eq-ok (round_shares level.size) _ e in
    let (ratio, _, e2) =
      >>=-eq-ok (div remaining (add level.price (fee_per_share level.price rate))) _ e1 in
    let (affordable, _, e3) = >>=-eq-ok (round_shares ratio) _ e2 in
    let least : Le (min_of size affordable) level.size =
      Le-trans _ size _ (min_of-Le size affordable).0 (
        quantize_down-Le level.size 2
          (positive_parts-neg_part level.size.coefficient level.size.places h) rounded) in
    subst (λ d. Le d level.size) (ok-injective e3) least

-- What a loop over the levels adds to the fills that it starts from.
abbrev Extends : Decimal → List AskLevel → Walked → Walked → Type 0
Extends limit levels w end =
    (new : List Fill) × (end.fills ≡ w.fills ++ new) × Takes limit levels new

unchanged :
    (limit : Decimal) (levels : List AskLevel) (w : Walked) {end : Walked}
    → w ≡ end
    → Extends limit levels w end
unchanged limit levels w same =
    ([], ap (λ (r : Walked). r.fills) (sym same) ∙ sym (append-nil w.fills), Takes.stop)

walk_levels-Extends :
    (rate limit : Decimal) (levels : List AskLevel) (w : Walked) {end : Walked}
    → All IsQuoted levels
    → walk_levels rate limit levels w ≡ ok end
    → Extends limit levels w end
unfolding walk_levels buy_level
walk_levels-Extends rate limit [] w good e = unchanged limit [] w (ok-injective e)
walk_levels-Extends rate limit (l ∷ ls) w (good, others) e = elim (Bool-cases (lt limit l.price)) [
  | inl above ↦ unchanged limit (l ∷ ls) w (ok-injective (rw above at e))
  | inr within ↦
      let (taken, took, rest) =
        >>=-eq-ok (map_err arithmetic (take_of rate l w.remaining)) _ (rw within at e) in
      elim (Bool-cases (le taken nought)) [
        | inl nothing ↦ unchanged limit (l ∷ ls) w (ok-injective (rw nothing at rest))
        | inr more ↦
            let (new, same, takes) =
              walk_levels-Extends rate limit ls (buy_level rate l taken w) others
                (rw more at rest) in
            let fill : Fill = record { price = l.price; shares = taken } in
            (
              fill ∷ new,
              same ∙ append_assoc w.fills (fill ∷ []) new,
              Takes.take
                  (record {
                    quoted = good;
                    same_price = refl;
                    within_limit = lt→Le limit l.price within;
                    some_shares = le→Lt taken nought more;
                    within_size =
                        take_of-Le rate l w.remaining good.some_size
                          (map_err-eq-ok arithmetic _ took);
                  })
                  takes,
            )
      ]
]

cheaper-apart : (a b : AskLevel) → cheaper a b ≡ true → cheaper b a ≡ false
cheaper-apart a b h = Le→lt b.price a.price (Le_of_Lt a.price b.price (lt→Lt a.price b.price h))

cheaper-chained :
    (a b c : AskLevel) → cheaper b a ≡ false → cheaper c b ≡ false → cheaper c a ≡ false
cheaper-chained a b c h k =
    Le→lt c.price a.price
      (Le-trans a.price b.price c.price (lt→Le b.price a.price h) (lt→Le c.price b.price k))

-- The book in order of price.
pub record IsBook (asks levels : List AskLevel) : Type 0 where
  pub same_levels : Perm levels asks
  pub cheapest_first : Ascending cheaper levels
  pub all_quoted : All IsQuoted levels

pub sorted_asks-IsBook :
    (asks : List AskLevel) (tick : Decimal) {levels : List AskLevel}
    → sorted_asks asks tick ≡ ok levels
    → IsBook asks levels
unfolding sorted_asks
sorted_asks-IsBook asks tick e =
    let (_, e1) = guard-eq-ok (le tick nought) _ _ e in
    let (_, checked, sorted) = >>=-eq-ok (check_levels tick asks) _ e1 in
    subst (IsBook asks) (ok-injective sorted) (record {
      same_levels = sort-perm cheaper asks;
      cheapest_first = sort-Ascending cheaper cheaper-apart cheaper-chained asks;
      all_quoted = sort-All cheaper IsQuoted asks (check_levels-IsQuoted tick asks checked);
    })

-- If the walk of a book succeeds, its fills are of the first levels of the book in the order of
-- price: the levels are those of the book, the cheapest first, and each fill is of a positive
-- number of shares, no more than the size of its own level, at that level's price, which is between
-- 0 and 1 and not above the limit.
pub walk_asks-Takes :
    (asks : List AskLevel) (budget rate limit tick : Decimal) {w : Walk}
    → walk_asks asks budget rate limit tick ≡ ok w
    → (levels : List AskLevel) × Perm levels asks
      × Ascending cheaper levels
      × Takes limit levels w.fills
unfolding walk_asks finish_walk
walk_asks-Takes asks budget rate limit tick e =
    let (_, e1) = guard-eq-ok (lt budget nought) _ _ e in
    let (_, e2) = guard-eq-ok (not (le nought rate && lt rate one)) _ _ e1 in
    let (levels, sorted, e3) = >>=-eq-ok (sorted_asks asks tick) _ e2 in
    let (end, looped, finished) = >>=-eq-ok (walk_levels rate limit levels (start budget)) _ e3 in
    let book = sorted_asks-IsBook asks tick sorted in
    let (new, same, takes) =
      walk_levels-Extends rate limit levels (start budget) book.all_quoted looped in
    (
      levels,
      book.same_levels,
      book.cheapest_first,
      subst (Takes limit levels) (sym same ∙ ap (λ (r : Walk). r.fills) (ok-injective finished))
          takes,
    )
