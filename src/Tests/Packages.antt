-- ===== src/Tests/Packages.antt =====
-- Runs of the theorems on packages/domain, packages/ledger and packages/reserves.
use trustee_bank.Prelude.{◌≤◌, ◌<◌, ◌≡◌, ◌↔◌, refl, ℕ, true, some, [], ◌∷◌, All, arith}
use trustee_bank.Prelude.Int.{quot, ◌*ℤ◌, pos, ◌+ℤ◌, ◌-ℤ◌, ◌≤ℤ◌}
use trustee_bank.Prelude.Text.{to_upper_case, same_text}
use trustee_bank.Money
use trustee_bank.Money.{Money, zero, gte, negate}
use trustee_bank.Money.Laws.{of}
use trustee_bank.Result.{ok, ◌>>=◌}
use trustee_bank.Ledger.Journal.{add_effects, build_journal_entry, account_effect, reverse}
use trustee_bank.Ledger.Journal.Build.{IsPostable, posted, build_posted, build-eq-ok_iff}
use trustee_bank.Ledger.Journal.Reverse.{reversed, reverse_undoes}
use trustee_bank.Ledger.Entries.Transfer.{transfer-IsPostable}
use trustee_bank.Ledger.Entries.Templates.{TemplatesBook, templates_book}
use trustee_bank.Ledger.Accounts.{
  ledger_account_type_of, before_colon, debit_positive, LedgerAccountType,
  type_of_trustee_bank_cash, type_of_pending_mint, type_of_paychain_reserve_obligation,
}
use trustee_bank.Ledger.LedgerAccountCode.{
  asset_trustee_bank_cash, liability_pending_mint, liability_paychain_reserve_obligation,
}
use trustee_bank.Reserves.Calculation.{
  EligibleReserveInput, MintCapacityInput, eligible_reserve, mint_capacity, reserve_ratio_bps,
  is_fully_reserved,
}
use trustee_bank.Reserves.Calculation.Laws.{
  MintCapacityInOneCurrency, eligible_reserve-eq_clamp, mint_capacity_exact, committed, clamp,
  deductions,
}
use trustee_bank.Reserves.Calculation.Ratio.{fully_reserved_at_par, floor_passes_below_ratio}
use trustee_bank.ReserveLedger.{
  find_postings, net_from, post_entry, account_balance, subledger_balances,
}
use trustee_bank.ReserveLedger.Balance.{
  IsBalanced, net, post_moves_balance, built_journals_balance, post_all,
}
use trustee_bank.Tests.Sample.{usd, references, deposit_input, db}

usd_upper : to_upper_case usd ≡ usd
unfolding to_upper_case
usd_upper = refl

deposit-IsPostable : IsPostable deposit_input
deposit-IsPostable =
    transfer-IsPostable "Deposit" asset_trustee_bank_cash liability_paychain_reserve_obligation
      (of (pos 10000) usd) references (record { positive = ground arith; upper_case = usd_upper })
      type_of_trustee_bank_cash type_of_paychain_reserve_obligation

deposit_built : build_journal_entry deposit_input ≡ ok (posted deposit_input)
deposit_built = build_posted deposit_input deposit-IsPostable

build-eq-ok_iff_example :
    (build_journal_entry deposit_input ≡ ok (posted deposit_input))
    ↔ (IsPostable deposit_input × (posted deposit_input ≡ posted deposit_input))
build-eq-ok_iff_example = build-eq-ok_iff deposit_input (posted deposit_input)

deposit_effect :
    account_effect (posted deposit_input) asset_trustee_bank_cash ≡ ok (of (pos 10000) usd)
unfolding account_effect add_effects ledger_account_type_of before_colon debit_positive Money.add
    Money.subtract Money.zero same_text to_upper_case ◌+ℤ◌ ◌-ℤ◌
deposit_effect = refl

reverse_undoes_example :
    (reverse (posted deposit_input) "rev" "ops" "wrong"
      ≡ ok (reversed deposit_input "rev" "ops" "wrong"))
    × ((reversed deposit_input "rev" "ops" "wrong").reversal_of ≡ some "test")
    × (account_effect (reversed deposit_input "rev" "ops" "wrong") asset_trustee_bank_cash
        ≡ ok (negate (of (pos 10000) usd)))
reverse_undoes_example =
    reverse_undoes deposit_input "rev" "ops" "wrong" (posted deposit_input) asset_trustee_bank_cash
      deposit_built deposit_effect

templates_book_example :
    TemplatesBook (of (pos 500) usd) references liability_pending_mint LedgerAccountType.liability
templates_book_example =
    templates_book (of (pos 500) usd) references liability_pending_mint
      (record { positive = ground arith; upper_case = usd_upper }) type_of_pending_mint

cash_before :
    account_balance db.ledger_entries "p1" asset_trustee_bank_cash usd ≡ ok (of (pos 10000) usd)
unfolding account_balance find_postings net_from ledger_account_type_of before_colon debit_positive
    Money.zero Money.money same_text to_upper_case ◌+ℤ◌ ◌-ℤ◌
cash_before = refl

post_moves_balance_example :
    account_balance
      (post_entry (posted deposit_input) db).ledger_entries
      "p1"
      asset_trustee_bank_cash
      usd
    ≡ ok (of (pos 10000 +ℤ pos 10000) usd)
post_moves_balance_example =
    post_moves_balance deposit_input (posted deposit_input) db asset_trustee_bank_cash deposit_built
      deposit_effect cash_before

db-IsBalanced : All IsBalanced db.ledger_entries
unfolding net Money.zero ◌+ℤ◌ ◌-ℤ◌
db-IsBalanced = (refl, (refl, tt))

built_journals_balance_example :
    subledger_balances (post_all (posted deposit_input ∷ []) db).ledger_entries "p1"
    ≡ record { balanced = true; net = pos 0 }
built_journals_balance_example =
    built_journals_balance (posted deposit_input ∷ []) db "p1" ((deposit_input, deposit_built), tt)
      db-IsBalanced

abbrev bank : EligibleReserveInput
bank = record {
  currency = usd;
  cleared_bank_balance = of (pos 900) usd;
  restricted_funds = of (pos 100) usd;
  unmatched_funds = of (pos 0) usd;
  pending_outgoing_payouts = of (pos 300) usd;
  bank_charges_due = of (pos 1) usd;
  regulatory_holds = of (pos 0) usd;
  operational_funds = of (pos 0) usd;
  other_ineligible_amounts = of (pos 0) usd;
}

eligible_reserve-eq_clamp_example :
    eligible_reserve bank ≡ ok (of (clamp (pos 900 -ℤ deductions bank)) usd)
eligible_reserve-eq_clamp_example = eligible_reserve-eq_clamp bank (record {
  upper_case = usd_upper;
  cleared = refl;
  restricted = refl;
  unmatched = refl;
  payouts = refl;
  charges = refl;
  holds = refl;
  operational = refl;
  other = refl;
})

abbrev capacity_input : MintCapacityInput
capacity_input = record {
  currency = usd;
  eligible_reserve = of (pos 900) usd;
  existing_reserve_obligation = of (pos 500) usd;
  required_safety_buffer = of (pos 25) usd;
  pending_mint_authorizations = of (pos 75) usd;
}

capacity-InOneCurrency : MintCapacityInOneCurrency capacity_input
capacity-InOneCurrency = record {
  upper_case = usd_upper;
  eligible = refl;
  obligation = refl;
  buffer = refl;
  pending = refl;
}

mint_capacity_exact_example :
    ((mint_capacity capacity_input >>= λ capacity. gte capacity (of (pos 300) usd)) ≡ ok true)
    ↔ (committed capacity_input +ℤ pos 300 ≤ℤ pos 900)
mint_capacity_exact_example =
    mint_capacity_exact capacity_input (of (pos 300) usd) capacity-InOneCurrency refl (ground arith)

ratio_1234 : reserve_ratio_bps (of (pos 1234) usd) (of (pos 1000) usd) ≡ ok (some (pos 12340))
unfolding reserve_ratio_bps same_text quot ◌*ℤ◌ Money.is_zero
ratio_1234 = refl

fully_reserved_at_par_example :
    (is_fully_reserved (of (pos 999) usd) (of (pos 1000) usd) (pos 10000) ≡ ok true) ↔ (
      (q : ℕ) × (reserve_ratio_bps (of (pos 999) usd) (of (pos 1000) usd) ≡ ok (some (pos q)))
      × (10000 ≤ q))
fully_reserved_at_par_example = fully_reserved_at_par 999 1000 usd (ground arith)

floor_passes_below_ratio_example :
    (is_fully_reserved (of (pos 101) usd) (of (pos 101) usd) (pos 10050) ≡ ok true)
    × ((q : ℕ) × (reserve_ratio_bps (of (pos 101) usd) (of (pos 101) usd) ≡ ok (some (pos q)))
        × (q < 10050))
floor_passes_below_ratio_example = floor_passes_below_ratio 101 10050 usd (ground arith)
