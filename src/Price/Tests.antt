-- ===== src/Price/Tests.antt =====
-- Conversions and comparisons at concrete prices: 2 of asset 1 over 3 of asset 2, and others.
use fin_chain_core.Prelude.{◌≡◌, ◌↔◌, refl, true, arith}
use fin_chain_core.Prelude.Int.{pos, ◌≤ℤ◌}
use fin_chain_core.Prelude.Results.{ok}
use fin_chain_core.Asset.{asset}
use fin_chain_core.Price.{Price, price, multiply, is_null}
use fin_chain_core.Price.Multiply.{multiply_floor, multiply_round_trip}
use fin_chain_core.Price.Order.{ratio, is_null_iff}

abbrev two_for_three : Price
two_for_three = price (asset (pos 2) 1) (asset (pos 3) 2)

multiply_floor_example : multiply (asset (pos 7) 1) two_for_three ≡ ok (asset (pos 10) 2)
multiply_floor_example = multiply_floor 7 2 3 1 2 (omega arith) (omega arith) (omega arith)

-- 7 buys 10, and 10 buys back 6.
multiply_round_trip_example : ((asset (pos 6) 1).asset_id ≡ 1) × (pos 6 ≤ℤ pos 7)
unfolding multiply
multiply_round_trip_example =
    multiply_round_trip 7 2 3 1 2 (asset (pos 10) 2) (asset (pos 6) 1) (omega arith) (omega arith)
      (omega arith) (omega arith) refl refl

-- Five units of the core asset over three of them count as a null price.
is_null_iff_example :
    (is_null (ratio 5 0 3 0) ≡ true)
    ↔ (((ratio 5 0 3 0).base.asset_id ≡ 0) × ((ratio 5 0 3 0).quote.asset_id ≡ 0))
is_null_iff_example = is_null_iff (ratio 5 0 3 0)
