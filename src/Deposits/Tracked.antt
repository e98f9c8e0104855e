-- ===== src/Deposits/Tracked.antt =====
-- The UNMATCHED_DEPOSIT account against the deposits that are not cleared.
use Prim.Native.String.{◌++◌ as concat}
use text.Mathlib.Text.{◌==◌ as str_eq}
use trustee_bank.Prelude.{
  ◌≡◌, refl, sym, ap, ◌∙◌, inl, inr, Bool-cases, String, Bool, true, false, ◌&&◌, arith,
  if◌then◌else◌, is_present,
}
use trustee_bank.Prelude.Int.{
  ℤ, pos, neg, ◌+ℤ◌, ◌<ℤ◌, ◌≤ℤ◌, eqb_ℤ, int_laws, +ℤ_zero_left, +ℤ_zero_right,
}
use trustee_bank.Prelude.Text.{same_text, to_upper_case, to_upper_case_idem}
use trustee_bank.Money.{CurrencyCode, money, zero}
use trustee_bank.Result.{ok, err, invalid_posting, Option-cases, Result-cases}
use trustee_bank.Ledger.LedgerAccountCode.{asset_trustee_bank_cash, liability_unmatched_deposit}
use trustee_bank.Ledger.Accounts.{type_of_trustee_bank_cash, type_of_unmatched_deposit}
use trustee_bank.Ledger.Journal.{
  JournalEntry, JournalEntryInput, JournalReferences, build_journal_entry,
}
use trustee_bank.Ledger.Journal.Build.{build-eq-ok_iff, build_posted, posted}
use trustee_bank.Ledger.Entries.{transfer_entry}
use trustee_bank.Ledger.Entries.Transfer.{transfer_input, transfer-IsPostable, transfer_refuses}
use trustee_bank.Store.Table.{find_unique}
use trustee_bank.Store.Rows.{Deposit, DepositStatus}
use trustee_bank.Store.Db.{Db}
use trustee_bank.Store.Action.{Env}
use trustee_bank.ReserveLedger.{post_entry}
use trustee_bank.ReserveLedger.Balance.{contribution}
use trustee_bank.ReserveLedger.Tracking.{
  Tracks, Tracks-entry-update, Tracks-entry-new, Tracks-update, transfer-contribution,
}
use trustee_bank.Funding.{CreateFundingInstruction, create, cancel}
use trustee_bank.Deposits.{
  RegisterDeposit, references_of, entry_input, register, match_deposit, clear, detected_row,
  detected_input, cleared_input, matched_to, cleared, is_matchable, is_matched, is_taken,
}

-- Where the currency is in upper case, the entry is a template's.
entry_input-transfer :
    (description from to : String) (minor : ℤ) (currency : CurrencyCode)
    (references : JournalReferences)
    → to_upper_case currency ≡ currency
    → entry_input description from to minor currency references
      ≡ transfer_input description from to (money minor currency) references
unfolding money zero
entry_input-transfer description from to minor currency references h = rw h (rw h refl)

-- A built entry has its currency in upper case.
built_upper_case :
    (description from to : String) (minor : ℤ) (currency : CurrencyCode)
    (references : JournalReferences) {entry : JournalEntry}
    → build_journal_entry (entry_input description from to minor currency references) ≡ ok entry
    → to_upper_case currency ≡ currency
built_upper_case description from to minor currency references {entry} h =
    let (postable, same) =
      (build-eq-ok_iff (entry_input description from to minor currency references) entry).0 h in
    postable.upper_case

built_transfer :
    (description from to : String) (minor : ℤ) (currency : CurrencyCode)
    (references : JournalReferences) {entry : JournalEntry}
    → build_journal_entry (entry_input description from to minor currency references) ≡ ok entry
    → transfer_entry description from to (money minor currency) references ≡ ok entry
unfolding transfer_entry
built_transfer description from to minor currency references h =
    sym (
      ap build_journal_entry (
        entry_input-transfer description from to minor currency references
          (built_upper_case description from to minor currency references h)))
    ∙ h

abbrev pub is_uncleared : DepositStatus → Bool
is_uncleared DepositStatus.detected = true
is_uncleared DepositStatus.unmatched = true
is_uncleared DepositStatus.matched = true
is_uncleared _ = false

abbrev detected_transfer : String → RegisterDeposit → String → JournalEntryInput
detected_transfer id input asset_id =
    transfer_input "Detected deposit booked as unmatched" asset_trustee_bank_cash
      liability_unmatched_deposit (money input.amount_minor input.currency)
      (references_of (concat "deposit:" id) input.program_id asset_id input.actor)

-- The entry of a bookable registration.
pub detected_built :
    (id : String) (input : RegisterDeposit) (asset_id : String)
    → pos 0 <ℤ input.amount_minor
    → to_upper_case input.currency ≡ input.currency
    → build_journal_entry (detected_input id input asset_id)
      ≡ ok (posted (detected_input id input asset_id))
unfolding money
detected_built id input asset_id positive upper =
    let e : detected_input id input asset_id ≡ detected_transfer id input asset_id =
      entry_input-transfer _ _ _ input.amount_minor input.currency _ upper in
    ap build_journal_entry e
    ∙ build_posted (detected_transfer id input asset_id) (
        transfer-IsPostable _ _ _ _ _
          (record { positive = positive; upper_case = to_upper_case_idem input.currency })
          type_of_trustee_bank_cash type_of_unmatched_deposit)
    ∙ ap (λ i. ok (posted i)) (sym e)

-- An amount that is not positive is refused.
pub detected_refused :
    (id : String) (input : RegisterDeposit) (asset_id : String)
    → to_upper_case input.currency ≡ input.currency
    → input.amount_minor ≤ℤ pos 0
    → build_journal_entry (detected_input id input asset_id) ≡ err invalid_posting
unfolding money transfer_entry
detected_refused id input asset_id upper amount =
    let e : detected_input id input asset_id ≡ detected_transfer id input asset_id =
      entry_input-transfer _ _ _ input.amount_minor input.currency _ upper in
    ap build_journal_entry e ∙ transfer_refuses _ _ _ _ _ amount

module _ (program_id : String) (currency : CurrencyCode) where
  abbrev pub concerns : Deposit → Bool
  concerns d = str_eq d.program_id program_id && same_text (to_upper_case d.currency) currency

  -- What a deposit adds to the unmatched funds: its amount until it is cleared.
  abbrev pub uncleared : Deposit → ℤ
  uncleared d =
      if is_uncleared d.status then (if concerns d then d.amount_minor else pos 0) else pos 0

  abbrev pub Unmatched : Db → Type 0
  Unmatched db =
      Tracks uncleared false program_id liability_unmatched_deposit currency db.ledger_entries
        db.deposits

  detected-contribution :
      (id : String) (input : RegisterDeposit) (asset_id : String) {entry : JournalEntry}
      → build_journal_entry (detected_input id input asset_id) ≡ ok entry
      → contribution false program_id liability_unmatched_deposit currency entry
        ≡ uncleared (detected_row input)
  unfolding money
  detected-contribution id input asset_id h =
      transfer-contribution _ _ _ _ _ false program_id liability_unmatched_deposit currency
        (built_transfer _ _ _ input.amount_minor input.currency _ h)
      ∙ ap (λ n. if concerns (detected_row input) then n else pos 0) (+ℤ_zero_left _)

  cleared-contribution :
      (id : String) (d : Deposit) (asset_id actor : String) {entry : JournalEntry}
      → build_journal_entry (cleared_input id d asset_id actor) ≡ ok entry
      → contribution false program_id liability_unmatched_deposit currency entry
        ≡ (if concerns d then neg d.amount_minor else pos 0)
  unfolding money
  cleared-contribution id d asset_id actor h =
      transfer-contribution _ _ _ _ _ false program_id liability_unmatched_deposit currency
        (built_transfer _ _ _ d.amount_minor d.currency _ h)
      ∙ ap (λ n. if concerns d then n else pos 0) (+ℤ_zero_right _)

  -- The weights of a deposit that is matched, and of one that is cleared.
  uncleared-matched_to :
      (fi : String) (d : Deposit)
      → is_matchable d.status ≡ true
      → uncleared d ≡ uncleared (matched_to fi d)
  uncleared-matched_to fi d h = ground arith

  uncleared_of_matched :
      (d : Deposit)
      → is_matched d.status ≡ true
      → uncleared d ≡ (if concerns d then d.amount_minor else pos 0)
  uncleared_of_matched d h = ground arith

  opposite : (b : Bool) (n : ℤ) → (if b then neg n else pos 0) +ℤ (if b then n else pos 0) ≡ pos 0
  opposite true n = omega int_laws
  opposite false n = omega int_laws

  -- A registration whose amount is positive and whose currency is in upper case.
  pub register-Unmatched :
      (id : String) (input : RegisterDeposit) (env : Env) (db : Db)
      → pos 0 <ℤ input.amount_minor
      → to_upper_case input.currency ≡ input.currency
      → Unmatched db
      → Unmatched (register id input env db).1
  unfolding register post_entry
  register-Unmatched id input env db positive upper h =
      elim (Option-cases (find_unique input.trustee_account_id db.trustee_accounts)) [
        | inr missing ↦ rw missing h
        | inl (account, found) ↦
            rw found (elim (Bool-cases (is_taken id input.bank_transaction_id db.deposits)) [
              | inl taken ↦ rw taken h
              | inr free ↦
                  rw free
                    (elim (Bool-cases (is_present (find_unique input.program_id db.programs))) [
                      | inr absent ↦ rw absent h
                      | inl present ↦
                          let built =
                            detected_built id input account.supported_asset_id positive upper in
                          rw (present, built)
                            (Tracks-entry-new _ _ _ _ _
                              (posted (detected_input id input account.supported_asset_id)) _ id
                              (detected_row input) db.deposits
                              (detected-contribution id input account.supported_asset_id built) h)
                    ])
            ])
      ]

  pub match-Unmatched :
      (id fi actor : String) (env : Env) (db : Db)
      → Unmatched db
      → Unmatched (match_deposit id fi actor env db).1
  unfolding match_deposit
  match-Unmatched id fi actor env db h = elim (Option-cases (find_unique id db.deposits)) [
    | inr missing ↦ rw missing h
    | inl (d, found) ↦ rw found (elim (Bool-cases (is_matchable d.status)) [
      | inr other ↦ rw other h
      | inl matchable ↦ rw matchable (elim (Option-cases (find_unique fi db.funding_instructions)) [
        | inr unknown ↦ rw unknown h
        | inl (f, known) ↦ rw known (elim (Bool-cases (same_text f.currency d.currency)) [
          | inr differs ↦ rw differs h
          | inl same ↦ rw same (elim (Bool-cases (eqb_ℤ f.amount_minor d.amount_minor)) [
            | inr unequal ↦ rw unequal h
            | inl equal ↦ rw equal (
                Tracks-update _ _ _ _ _ db.ledger_entries id (matched_to fi) db.deposits d found
                  (uncleared-matched_to fi d matchable) h)
          ])
        ])
      ])
    ])
  ]

  pub clear-Unmatched :
      (id actor : String) (env : Env) (db : Db) → Unmatched db → Unmatched (clear id actor env db).1
  unfolding clear post_entry
  clear-Unmatched id actor env db h = elim (Option-cases (find_unique id db.deposits)) [
    | inr missing ↦ rw missing h
    | inl (d, found) ↦ rw found (elim (Bool-cases (is_matched d.status)) [
      | inr other ↦ rw other h
      | inl matched ↦
          rw matched (elim (Option-cases (find_unique d.trustee_account_id db.trustee_accounts)) [
            | inr unknown ↦ rw unknown h
            | inl (account, known) ↦
                rw known
                  (elim (Result-cases
                    (build_journal_entry (cleared_input id d account.supported_asset_id actor))) [
                      | inr (e, failed) ↦ rw failed h
                      | inl (entry, built) ↦ rw built (
                          Tracks-entry-update _ _ _ _ _ entry db.ledger_entries id (cleared env.now)
                            db.deposits d found
                            (rw
                              (
                                cleared-contribution id d account.supported_asset_id actor built,
                                uncleared_of_matched d matched,
                              )
                              (opposite (concerns d) d.amount_minor))
                            h)
                    ])
          ])
    ])
  ]

  pub create-Unmatched :
      (id suffix : String) (input : CreateFundingInstruction) (env : Env) (db : Db)
      → Unmatched db
      → Unmatched (create id suffix input env db).1
  unfolding create
  create-Unmatched id suffix input env db h = ground arith

  pub cancel-Unmatched :
      (id actor : String) (env : Env) (db : Db)
      → Unmatched db
      → Unmatched (cancel id actor env db).1
  unfolding cancel
  cancel-Unmatched id actor env db h = ground arith
