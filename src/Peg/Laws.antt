-- ===== src/Peg/Laws.antt =====
-- Issuing units and reading them back from their backing.
use native.Mathlib.Nat.{mul-mod_left, div-eq_of_eq-mul_left}
use trustee_bank.Prelude.{◌≡◌, refl, ℕ, ◌*◌, ◌/◌, ◌%◌, ◌<◌, some, arith}
use trustee_bank.Prelude.Int.{mul-pos, quot-pos, rem-pos, pos}
use trustee_bank.Prelude.Text.{same_text_iff, to_upper_case, to_upper_case_idem}
use trustee_bank.Money.{CurrencyCode, money}
use trustee_bank.Money.Laws.{of}
use trustee_bank.Result.{ok}
use trustee_bank.Peg.{Peg, make_peg, backing_for_units, units_for_backing}

-- A peg with a positive denomination is made, in the upper-case currency. The backing of any number
-- of units is then that number times the denomination, and the backing gives back the units.
pub units_round_trip :
    (c : CurrencyCode) (d units : ℕ)
    → 0 < d
    → let peg : Peg = record { peg_currency = to_upper_case c; denomination_minor = pos d } in
      (make_peg c (pos d) ≡ ok peg)
      × (backing_for_units (pos units) peg ≡ ok (of (pos (units * d)) (to_upper_case c)))
      × (units_for_backing (of (pos (units * d)) (to_upper_case c)) peg ≡ ok (some (pos units)))
unfolding make_peg backing_for_units units_for_backing money
units_round_trip c d units h =
    let whole : (units * d) % d ≡ 0 = mul-mod_left units d in
    let back : (units * d) / d ≡ units = div-eq_of_eq-mul_left h refl in
    (
      ground arith,
      rw (mul-pos, to_upper_case_idem) (ground arith),
      rw
          (
            rem-pos (units * d) d h,
            quot-pos,
            whole,
            back,
            (same_text_iff (to_upper_case c) _).1 refl,
          )
          refl,
    )
