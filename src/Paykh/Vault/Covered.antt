-- ===== src/Paykh/Vault/Covered.antt =====
-- Every outstanding unit is covered by reserved funding, along the steps.
use text.Mathlib.Text.{◌==◌ as str_eq}
use text.Mathlib.TextEquality.{eq_iff}
use trustee_bank.Prelude.{
  ◌≡◌, refl, sym, subst, ap, ◌∙◌, inl, inr, Bool-cases, String, some, none, ◌∷◌, arith,
}
use trustee_bank.Prelude.Int.{ℤ, pos, ◌-ℤ◌, ◌≤ℤ◌, ◌<ℤ◌, int_laws, parts_of}
use trustee_bank.Store.Table.{
  Table, find_unique, update, find_unique-update_self, find_unique-update_ne,
}
use trustee_bank.Store.Every.{Every, some_injective, put-Every, update-Every, weaken-Every}
use trustee_bank.Store.PaykhRows.{PaykhProgramFund, PaykhLoyaltyLiability}
use trustee_bank.Paykh.ProgramFunds.{funded_by, reserved_by}
use trustee_bank.Paykh.Loyalty.{issued_by, redeemed_by}
use trustee_bank.Paykh.Vault.{Vault, Step}

-- A fund's reservations are not negative, and do not exceed what was paid in.
pub record IsFunded (f : PaykhProgramFund) : Type 0 where
  pub not_negative : pos 0 ≤ℤ f.reserved_minor
  pub within : f.reserved_minor ≤ℤ f.funded_minor

-- What is out of a stablecoin: what was issued less what was redeemed, never negative, and within the
-- reservations of its fund, which is stored.
pub record IsCovered (funds : Table PaykhProgramFund) (l : PaykhLoyaltyLiability) : Type 0 where
  pub fund : PaykhProgramFund
  pub stored : find_unique l.program_fund_id funds ≡ some fund
  pub not_negative : pos 0 ≤ℤ l.outstanding_minor
  pub covered : l.outstanding_minor ≤ℤ fund.reserved_minor
  pub settled : l.outstanding_minor ≡ l.issued_total_minor -ℤ l.redeemed_total_minor

pub record FullyBacked (v : Vault) : Type 0 where
  pub funds_within : Every IsFunded v.funds
  pub liabilities_covered : Every (IsCovered v.funds) v.liabilities

-- A fund that reserves no less covers what it covered.
patch_fund-IsCovered :
    (k : String) (g : PaykhProgramFund → PaykhProgramFund) (funds : Table PaykhProgramFund)
    (l : PaykhLoyaltyLiability)
    → ((f : PaykhProgramFund)
        → find_unique k funds ≡ some f
        → f.reserved_minor ≤ℤ (g f).reserved_minor)
    → IsCovered funds l
    → IsCovered (update k g funds) l
patch_fund-IsCovered k g funds l grows h = elim (Bool-cases (str_eq k l.program_fund_id)) [
  | inl here ↦
      let same : k ≡ l.program_fund_id = (eq_iff k l.program_fund_id).0 here in
      let more = grows h.fund (rw same h.stored) in
      let le = h.covered in
      record {
        fund = g h.fund;
        stored = rw same (find_unique-update_self l.program_fund_id g funds h.fund h.stored);
        not_negative = h.not_negative;
        covered = omega arith;
        settled = h.settled;
      }
  | inr there ↦ record {
    fund = h.fund;
    stored = find_unique-update_ne k l.program_fund_id g funds there ∙ h.stored;
    not_negative = h.not_negative;
    covered = h.covered;
    settled = h.settled;
  }
]

new_fund-IsCovered :
    (k : String) (f : PaykhProgramFund) (funds : Table PaykhProgramFund) (l : PaykhLoyaltyLiability)
    → find_unique k funds ≡ none
    → IsCovered funds l
    → IsCovered ((k, f) ∷ funds) l
unfolding find_unique
new_fund-IsCovered k f funds l free h = record {
  fund = h.fund;
  stored = elim (Bool-cases (str_eq k l.program_fund_id)) [
    | inl here ↦
        cc
          (sym free ∙ ap (λ i. find_unique i funds) ((eq_iff k l.program_fund_id).0 here), h.stored)
    | inr there ↦ rw there h.stored
  ];
  not_negative = h.not_negative;
  covered = h.covered;
  settled = h.settled;
}

-- A patch of one fund that keeps it within its funding, and reserves no less.
patch-FullyBacked :
    (v : Vault) (k : String) (f : PaykhProgramFund) (g : PaykhProgramFund → PaykhProgramFund)
    → find_unique k v.funds ≡ some f
    → f.reserved_minor ≤ℤ (g f).reserved_minor
    → (g f).reserved_minor ≤ℤ (g f).funded_minor
    → FullyBacked v
    → Every IsFunded (update k g v.funds) × Every (IsCovered (update k g v.funds)) v.liabilities
patch-FullyBacked v k f g found more within h =
    let own = h.funds_within k f found in
    let start = own.not_negative in
    (
      update-Every IsFunded k g f v.funds found
          (record { not_negative = omega arith; within = within }) h.funds_within,
      weaken-Every (IsCovered v.funds) (IsCovered (update k g v.funds)) v.liabilities
          (λ l c.
            patch_fund-IsCovered k g v.funds l
              (λ q present.
                subst (λ r. r.reserved_minor ≤ℤ (g r).reserved_minor)
                  (some_injective (sym found ∙ present)) more)
              c)
          h.liabilities_covered,
    )

-- The row of a patched liability, covered by the same fund row.
recover :
    (funds : Table PaykhProgramFund) (l m : PaykhLoyaltyLiability) (c : IsCovered funds l)
    → l.program_fund_id ≡ m.program_fund_id
    → pos 0 ≤ℤ m.outstanding_minor
    → m.outstanding_minor ≤ℤ c.fund.reserved_minor
    → m.outstanding_minor ≡ m.issued_total_minor -ℤ m.redeemed_total_minor
    → IsCovered funds m
recover funds l m c same start within settled = record {
  fund = c.fund;
  stored = rw (sym same) c.stored;
  not_negative = start;
  covered = within;
  settled = settled;
}

credited_within :
    (f : PaykhProgramFund) (minor : ℤ)
    → pos 0 <ℤ minor
    → IsFunded f
    → (funded_by minor f).reserved_minor ≤ℤ (funded_by minor f).funded_minor
credited_within f minor positive h = let le = h.within in omega int_laws

reserved_more :
    (f : PaykhProgramFund) (minor : ℤ)
    → pos 0 ≤ℤ minor
    → f.reserved_minor ≤ℤ (reserved_by minor f).reserved_minor
reserved_more f minor start = omega int_laws

reserved_within :
    (f : PaykhProgramFund) (minor : ℤ)
    → minor ≤ℤ f.funded_minor -ℤ f.reserved_minor
    → (reserved_by minor f).reserved_minor ≤ℤ (reserved_by minor f).funded_minor
reserved_within f minor available = omega int_laws

-- Each step keeps the stablecoins covered.
pub step-FullyBacked : {v w : Vault} → Step v w → FullyBacked v → FullyBacked w
step-FullyBacked Step.idle h = h
step-FullyBacked (Step.opened {v} id f free empty) h = record {
  funds_within =
      put-Every IsFunded id f v.funds
        (record {
          not_negative = rw empty.nothing_reserved (omega arith);
          within = rw (empty.nothing_reserved, empty.nothing_funded) (omega arith);
        })
        h.funds_within;
  liabilities_covered =
      weaken-Every (IsCovered v.funds) (IsCovered ((id, f) ∷ v.funds)) v.liabilities
        (λ l c. new_fund-IsCovered id f v.funds l free c) h.liabilities_covered;
}
step-FullyBacked (Step.credited {v} id f minor found positive) h =
    let (funds, liabilities) =
      patch-FullyBacked v id f (funded_by minor) found (omega arith)
        (credited_within f minor positive (h.funds_within id f found)) h in
    record { funds_within = funds; liabilities_covered = liabilities }
step-FullyBacked (Step.funded {v} id f amount references entry found positive built) h =
    let (funds, liabilities) =
      patch-FullyBacked v id f (funded_by amount.minor) found (omega arith)
        (credited_within f amount.minor positive (h.funds_within id f found)) h in
    record { funds_within = funds; liabilities_covered = liabilities }
step-FullyBacked (Step.reserved {v} id f minor found start available) h =
    let (funds, liabilities) =
      patch-FullyBacked v id f (reserved_by minor) found (reserved_more f minor start)
        (reserved_within f minor available) h in
    record { funds_within = funds; liabilities_covered = liabilities }
step-FullyBacked (Step.bound {v} id f l found unissued) h =
    let start = (h.funds_within l.program_fund_id f found).not_negative in
    record {
      funds_within = h.funds_within;
      liabilities_covered =
          put-Every (IsCovered v.funds) id l v.liabilities
            (record {
              fund = f;
              stored = found;
              not_negative = rw unissued.nothing_out (omega arith);
              covered = rw unissued.nothing_out start;
              settled =
                  rw (unissued.nothing_out, unissued.nothing_issued, unissued.nothing_redeemed)
                    (omega int_laws);
            })
            h.liabilities_covered;
    }
step-FullyBacked
      (Step.issued {v} id f l amount references entry found stored booked available built) h =
    let positive = booked.positive in
    let (funds, liabilities) =
      patch-FullyBacked v l.program_fund_id f (reserved_by amount.minor) stored
        (reserved_more f amount.minor (omega arith)) (reserved_within f amount.minor available) h in
    let c = h.liabilities_covered id l found in
    let covered : l.outstanding_minor ≤ℤ f.reserved_minor =
      subst (λ r. l.outstanding_minor ≤ℤ r.reserved_minor) (some_injective (sym c.stored ∙ stored))
        c.covered in
    let start = c.not_negative in
    record {
      funds_within = funds;
      liabilities_covered =
          update-Every (IsCovered (update l.program_fund_id (reserved_by amount.minor) v.funds)) id
            (issued_by amount.minor) l v.liabilities found
            (record {
              fund = reserved_by amount.minor f;
              stored =
                  find_unique-update_self l.program_fund_id (reserved_by amount.minor) v.funds f
                    stored;
              not_negative = omega int_laws;
              covered = omega int_laws;
              settled = omega (int_laws, parts_of c.settled);
            })
            liabilities;
    }
step-FullyBacked (Step.redeemed {v} id l amount references entry found booked enough built) h =
    let c = h.liabilities_covered id l found in
    let covered = c.covered in
    let positive = booked.positive in
    record {
      funds_within = h.funds_within;
      liabilities_covered =
          update-Every (IsCovered v.funds) id (redeemed_by amount.minor) l v.liabilities found
            (recover v.funds l (redeemed_by amount.minor l) c refl (omega int_laws) (omega int_laws)
              (omega (int_laws, parts_of c.settled)))
            h.liabilities_covered;
    }
step-FullyBacked (Step.reconciled {v} id l g found same) h =
    let c = h.liabilities_covered id l found in
    record {
      funds_within = h.funds_within;
      liabilities_covered =
          update-Every (IsCovered v.funds) id g l v.liabilities found
            (recover v.funds l (g l) c same.same_fund
              (rw (sym same.same_outstanding) c.not_negative)
              (rw (sym same.same_outstanding) c.covered)
              (rw (sym same.same_outstanding, sym same.same_issued, sym same.same_redeemed)
                c.settled))
            h.liabilities_covered;
    }
