-- ===== src/Reserves/Calculation/Ratio.antt =====
-- The reserve ratio against the test of full reserve.
use native.Mathlib.Nat.{le-div_iff_mul-le, div-lt_iff_lt-mul, mul_comm}
use trustee_bank.Prelude.{
  ℕ, zero, suc, Option, ◌*◌, ◌/◌, ◌%◌, ◌≤◌, ◌<◌, ◌≡◌, ◌↔◌, refl, true, false, some, arith,
}
use trustee_bank.Prelude.Int.{ℤ, pos, quot-pos, mul-pos, eqb_ℤ}
use trustee_bank.Prelude.Text.{same_text_iff}
use trustee_bank.Money.{CurrencyCode}
use trustee_bank.Money.Laws.{of, gte-iff-le}
use trustee_bank.Result.{Result, ok}
use trustee_bank.Reserves.Calculation.{reserve_ratio_bps, is_fully_reserved}

-- Both in one currency, with a positive obligation, the ratio is the floor of 10000 times the quotient.
pub ratio_floor :
    (e o : ℕ) (c : CurrencyCode)
    → 0 < o
    → reserve_ratio_bps (of (pos e) c) (of (pos o) c) ≡ ok (some (pos ((e * 10000) / o)))
unfolding reserve_ratio_bps
ratio_floor e o c h = rw (mul-pos, quot-pos) (ground (arith, same_text_iff c c))

positive_ne : (o : ℕ) → 0 < o → eqb_ℤ (pos o) (pos 0) ≡ false
positive_ne o h = ground arith

fully_reserved_iff :
    (e o r : ℕ) (c : CurrencyCode)
    → 0 < o
    → (is_fully_reserved (of (pos e) c) (of (pos o) c) (pos r) ≡ ok true) ↔ ((o * r) / 10000 ≤ e)
unfolding is_fully_reserved
fully_reserved_iff e o r c h =
    let covers = gte-iff-le (of (pos e) c) (of (pos ((o * r) / 10000)) c) refl in
    rw (positive_ne o h, mul-pos, quot-pos)
      (λ q. omega (arith, covers.0 q), λ le. covers.1 (omega arith))

quotient_of :
    {m : Result (Option ℤ)} {p q : ℕ} → m ≡ ok (some (pos p)) → m ≡ ok (some (pos q)) → p ≡ q
quotient_of h k = cc

-- A request of r basis points that the floored ratio meets is fully reserved.
ratio_reserves :
    (e o r q : ℕ) (c : CurrencyCode)
    → 0 < o
    → reserve_ratio_bps (of (pos e) c) (of (pos o) c) ≡ ok (some (pos q))
    → r ≤ q
    → is_fully_reserved (of (pos e) c) (of (pos o) c) (pos r) ≡ ok true
ratio_reserves e o r q c h ratio le =
    let exact : (e * 10000) / o ≡ q = quotient_of (ratio_floor e o c h) ratio in
    let fits : r * o ≤ e * 10000 = (le-div_iff_mul-le h).0 (omega arith) in
    (fully_reserved_iff e o r c h).1 (omega (arith, mul_comm o r))

-- At 100% the two agree, for a reserve that is not negative and a positive obligation in one currency:
-- the obligation is fully reserved exactly when the ratio is computed and is 10000 or more.
pub fully_reserved_at_par :
    (e o : ℕ) (c : CurrencyCode)
    → 0 < o
    → (is_fully_reserved (of (pos e) c) (of (pos o) c) (pos 10000) ≡ ok true) ↔ (
        (q : ℕ) × (reserve_ratio_bps (of (pos e) c) (of (pos o) c) ≡ ok (some (pos q)))
        × (10000 ≤ q))
fully_reserved_at_par e o c h = (
  λ full.
      let covered : (o * 10000) / 10000 ≤ e = (fully_reserved_iff e o 10000 c h).0 full in
      ((e * 10000) / o, ratio_floor e o c h, (le-div_iff_mul-le h).1 (omega arith)),
  λ (q, ratio, le). ratio_reserves e o 10000 q c h ratio le,
)

positive_factor : (o r : ℕ) → 0 < (o * r) % 10000 → 0 < o
positive_factor zero r h = omega arith
positive_factor (suc o) r h = omega arith

-- Where r basis points of the obligation are no whole number, the floor of that amount passes the test
-- of full reserve, although its ratio is below r.
pub floor_passes_below_ratio :
    (o r : ℕ) (c : CurrencyCode)
    → 0 < (o * r) % 10000
    → (is_fully_reserved (of (pos ((o * r) / 10000)) c) (of (pos o) c) (pos r) ≡ ok true)
      × ((q : ℕ) × (reserve_ratio_bps (of (pos ((o * r) / 10000)) c) (of (pos o) c)
            ≡ ok (some (pos q)))
          × (q < r))
floor_passes_below_ratio o r c h =
    let f = (o * r) / 10000 in
    let positive : 0 < o = positive_factor o r h in
    (
      (fully_reserved_iff f o r c positive).1 (omega arith),
      (
        (f * 10000) / o,
        ratio_floor f o c positive,
        (div-lt_iff_lt-mul positive).1 (omega (arith, mul_comm o r)),
      ),
    )
