-- ===== src/Deposits/Backed.antt =====
-- The funding instructions behind matched and cleared deposits.
use text.Mathlib.Text.{◌==◌ as str_eq}
use text.Mathlib.TextEquality.{eq_iff}
use trustee_bank.Prelude.{
  ◌≡◌, refl, sym, ap, ◌+◌, ◌*◌, ◌∙◌, inl, inr, Bool-cases, String, Bool, true, false, not, Option,
  some, none, ◌∷◌, arith, is_present, is_absent, or_default,
}
use trustee_bank.Prelude.Int.{eqb_ℤ}
use trustee_bank.Prelude.Text.{same_text}
use trustee_bank.Result.{Option-cases, Result-cases}
use trustee_bank.Ledger.Journal.{build_journal_entry}
use trustee_bank.Store.Table.{
  Table, find_unique, update, find_unique-update_self, find_unique-update_ne,
}
use trustee_bank.Store.Every.{Every, put-Every, update-Every, weaken-Every}
use trustee_bank.Store.Rows.{Deposit, DepositStatus, FundingInstruction}
use trustee_bank.Store.Db.{Db}
use trustee_bank.Store.Action.{Env}
use trustee_bank.ReserveLedger.{post_entry}
use trustee_bank.Funding
use trustee_bank.Funding.{
  CreateFundingInstruction, create, cancel, cancelled, is_funded, reference_of, issued_row,
}
use trustee_bank.Deposits.{
  RegisterDeposit, register, match_deposit, clear, detected_row, detected_input, cleared_input,
  matched_to, cleared, is_matchable, is_matched, is_taken,
}

abbrev pub needs_instruction : DepositStatus → Bool
needs_instruction DepositStatus.matched = true
needs_instruction DepositStatus.cleared = true
needs_instruction _ = false

-- The instruction of a deposit: it is stored, and has the deposit's amount and currency.
pub record Instructed (instructions : Table FundingInstruction) (d : Deposit) : Type 0 where
  pub id : String
  pub named : d.funding_instruction_id ≡ some id
  pub instruction : FundingInstruction
  pub stored : find_unique id instructions ≡ some instruction
  pub same_currency : same_text instruction.currency d.currency ≡ true
  pub same_amount : eqb_ℤ instruction.amount_minor d.amount_minor ≡ true

abbrev pub IsBacked : Table FundingInstruction → Deposit → Type 0
IsBacked instructions d = needs_instruction d.status ≡ true → Instructed instructions d

-- Every deposit that is matched or cleared has its instruction.
abbrev pub Backed : Db → Type 0
Backed db = Every (IsBacked db.funding_instructions) db.deposits

needs_of_matched : (s : DepositStatus) → is_matched s ≡ true → needs_instruction s ≡ true
needs_of_matched s h = ground arith

pub register-Backed :
    (id : String) (input : RegisterDeposit) (env : Env) (db : Db)
    → Backed db
    → Backed (register id input env db).1
unfolding register post_entry
register-Backed id input env db h =
    elim (Option-cases (find_unique input.trustee_account_id db.trustee_accounts)) [
      | inr missing ↦ rw missing h
      | inl (account, found) ↦
          rw found (elim (Bool-cases (is_taken id input.bank_transaction_id db.deposits)) [
            | inl taken ↦ rw taken h
            | inr free ↦
                let new =
                  put-Every (IsBacked db.funding_instructions) id (detected_row input) db.deposits
                    (λ k. cc) h in
                rw free (elim (Bool-cases (is_present (find_unique input.program_id db.programs))) [
                  | inr absent ↦ rw absent h
                  | inl present ↦
                      rw present
                        (elim (Result-cases (
                          build_journal_entry
                            (detected_input id input account.supported_asset_id))) [
                              | inr (e, failed) ↦ rw failed new
                              | inl (entry, built) ↦ rw built new
                            ])
                ])
          ])
    ]

pub match-Backed :
    (id fi actor : String) (env : Env) (db : Db)
    → Backed db
    → Backed (match_deposit id fi actor env db).1
unfolding match_deposit
match-Backed id fi actor env db h = elim (Option-cases (find_unique id db.deposits)) [
  | inr missing ↦ rw missing h
  | inl (d, found) ↦ rw found (elim (Bool-cases (is_matchable d.status)) [
    | inr other ↦ rw other h
    | inl matchable ↦ rw matchable (elim (Option-cases (find_unique fi db.funding_instructions)) [
      | inr unknown ↦ rw unknown h
      | inl (f, known) ↦ rw known (elim (Bool-cases (same_text f.currency d.currency)) [
        | inr differs ↦ rw differs h
        | inl same ↦ rw same (elim (Bool-cases (eqb_ℤ f.amount_minor d.amount_minor)) [
          | inr unequal ↦ rw unequal h
          | inl equal ↦ rw equal (
              update-Every (IsBacked db.funding_instructions) id (matched_to fi) d db.deposits found
                (λ needs. record {
                  id = fi;
                  named = refl;
                  instruction = f;
                  stored = known;
                  same_currency = same;
                  same_amount = equal;
                })
                h)
        ])
      ])
    ])
  ])
]

pub clear-Backed :
    (id actor : String) (env : Env) (db : Db) → Backed db → Backed (clear id actor env db).1
unfolding clear post_entry
clear-Backed id actor env db h = elim (Option-cases (find_unique id db.deposits)) [
  | inr missing ↦ rw missing h
  | inl (d, found) ↦ rw found (elim (Bool-cases (is_matched d.status)) [
    | inr other ↦ rw other h
    | inl matched ↦
        rw matched (elim (Option-cases (find_unique d.trustee_account_id db.trustee_accounts)) [
          | inr unknown ↦ rw unknown h
          | inl (account, known) ↦
              rw known
                (elim (Result-cases
                  (build_journal_entry (cleared_input id d account.supported_asset_id actor))) [
                    | inr (e, failed) ↦ rw failed h
                    | inl (entry, built) ↦
                        let i = h id d found (needs_of_matched d.status matched) in
                        rw built (
                          update-Every (IsBacked db.funding_instructions) id (cleared env.now) d
                            db.deposits found
                            (λ needs. record {
                              id = i.id;
                              named = i.named;
                              instruction = i.instruction;
                              stored = i.stored;
                              same_currency = i.same_currency;
                              same_amount = i.same_amount;
                            })
                            h)
                  ])
        ])
  ])
]

-- A new instruction hides no stored one.
new_instruction :
    (id : String) (row : FundingInstruction) (t : Table FundingInstruction) (d : Deposit)
    → find_unique id t ≡ none
    → IsBacked t d
    → IsBacked ((id, row) ∷ t) d
unfolding find_unique
new_instruction id row t d free h needs =
    let i = h needs in
    record {
      id = i.id;
      named = i.named;
      instruction = i.instruction;
      stored = elim (Bool-cases (str_eq id i.id)) [
        | inl here ↦ cc (sym free ∙ ap (λ k. find_unique k t) ((eq_iff id i.id).0 here), i.stored)
        | inr there ↦ rw there i.stored
      ];
      same_currency = i.same_currency;
      same_amount = i.same_amount;
    }

cancelled_instruction :
    (id : String) (t : Table FundingInstruction) (d : Deposit)
    → IsBacked t d
    → IsBacked (update id cancelled t) d
cancelled_instruction id t d h needs =
    let i = h needs in
    elim (Bool-cases (str_eq id i.id)) [
      | inl here ↦
          let same : id ≡ i.id = (eq_iff id i.id).0 here in
          record {
            id = i.id;
            named = i.named;
            instruction = cancelled i.instruction;
            stored = rw same (find_unique-update_self i.id cancelled t i.instruction i.stored);
            same_currency = i.same_currency;
            same_amount = i.same_amount;
          }
      | inr there ↦ record {
        id = i.id;
        named = i.named;
        instruction = i.instruction;
        stored = find_unique-update_ne id i.id cancelled t there ∙ i.stored;
        same_currency = i.same_currency;
        same_amount = i.same_amount;
      }
    ]

pub cancel-Backed :
    (id actor : String) (env : Env) (db : Db) → Backed db → Backed (cancel id actor env db).1
unfolding cancel
cancel-Backed id actor env db h = elim (Option-cases (find_unique id db.funding_instructions)) [
  | inr missing ↦ rw missing h
  | inl (f, found) ↦ rw found (elim (Bool-cases (is_funded f.status)) [
    | inl funded ↦ rw funded h
    | inr unfunded ↦ rw unfunded (
        weaken-Every (IsBacked db.funding_instructions)
          (IsBacked (update id cancelled db.funding_instructions)) db.deposits
          (λ d own. cancelled_instruction id db.funding_instructions d own) h)
  ])
]

absent_none : (m : Option FundingInstruction) → not (is_absent m) ≡ false → m ≡ none
absent_none none h = refl
absent_none (some f) h = cc

fresh :
    (id paychain_request_id reference : String) (t : Table FundingInstruction)
    → Funding.is_taken id paychain_request_id reference t ≡ false
    → find_unique id t ≡ none
fresh id paychain_request_id reference t h = absent_none (find_unique id t) (ground arith)

pub create-Backed :
    (id suffix : String) (input : CreateFundingInstruction) (env : Env) (db : Db)
    → Backed db
    → Backed (create id suffix input env db).1
unfolding create
create-Backed id suffix input env db h =
    elim (Option-cases (find_unique input.beneficiary_account_id db.trustee_accounts)) [
      | inr missing ↦ rw missing h
      | inl (account, found) ↦
          let reference = reference_of input.asset_id suffix in
          rw found
            (elim (Bool-cases
              (Funding.is_taken id input.paychain_request_id reference db.funding_instructions)) [
                | inl taken ↦ rw taken h
                | inr free ↦
                    rw free
                      (elim (Bool-cases (is_absent (find_unique input.program_id db.programs))) [
                        | inl absent ↦ rw absent h
                        | inr present ↦ rw present (
                            weaken-Every (IsBacked db.funding_instructions) _ db.deposits
                              (λ d own.
                                new_instruction id
                                  (issued_row reference
                                    (env.now + or_default input.ttl_seconds 3600 * 1000) input)
                                  db.funding_instructions d
                                  (fresh id input.paychain_request_id reference
                                    db.funding_instructions free)
                                  own)
                              h)
                      ])
              ])
    ]
