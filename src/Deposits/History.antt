-- ===== src/Deposits/History.antt =====
-- Histories of calls of deposits.service.ts and funding.service.ts.
use trustee_bank.Prelude.{◌≡◌, refl, String, false, some, List, [], ◌∷◌}
use trustee_bank.Prelude.Int.{pos, ◌<ℤ◌, ◌≤ℤ◌}
use trustee_bank.Prelude.Text.{to_upper_case}
use trustee_bank.Money.{CurrencyCode}
use trustee_bank.Store.Db.{Db}
use trustee_bank.Store.Action.{Env}
use trustee_bank.Funding.{CreateFundingInstruction, create, cancel}
use trustee_bank.Store.Table.{Table, find_unique}
use trustee_bank.Store.Rows.{Deposit, TrusteeAccount, Program}
use trustee_bank.Result.{err, invalid_posting}
use text.Mathlib.TextPositions.{eq_refl}
use trustee_bank.Deposits.Backed.{
  Backed, register-Backed, match-Backed, clear-Backed, create-Backed, cancel-Backed,
}
use trustee_bank.Deposits.{is_taken, detected_row, RegisterDeposit, register, match_deposit, clear}
use trustee_bank.Deposits.Tracked.{
  Unmatched, detected_refused, create-Unmatched, cancel-Unmatched, register-Unmatched,
  match-Unmatched, clear-Unmatched,
}

pub data Call : Type 0 where
  registering : String → RegisterDeposit → Call
  matching : String → String → String → Call
  clearing : String → String → Call
  instructing : String → String → CreateFundingInstruction → Call
  cancelling : String → String → Call

new_found : (id : String) (d : Deposit) (t : Table Deposit) → find_unique id ((id, d) ∷ t) ≡ some d
unfolding find_unique
new_found id d t = rw (eq_refl id) refl

-- The database after a call, whether it returns or throws.
unfoldable pub after : Call → Env → Db → Db
after (Call.registering id input) env db = (register id input env db).1
after (Call.matching id fi actor) env db = (match_deposit id fi actor env db).1
after (Call.clearing id actor) env db = (clear id actor env db).1
after (Call.instructing id suffix input) env db = (create id suffix input env db).1
after (Call.cancelling id actor) env db = (cancel id actor env db).1

unfoldable pub after_all : List (Call × Env) → Db → Db
after_all [] db = db
after_all ((call, env) ∷ calls) db = after_all calls (after call env db)

-- A registration whose amount is positive and whose currency is in upper case; any other call.
abbrev pub IsBookable : Call → Type 0
IsBookable (Call.registering id input) =
    (pos 0 <ℤ input.amount_minor) × (to_upper_case input.currency ≡ input.currency)
IsBookable _ = Unit

abbrev pub Bookable : List (Call × Env) → Type 0
Bookable [] = Unit
Bookable ((call, env) ∷ calls) = IsBookable call × Bookable calls

after-Unmatched :
    (call : Call) (env : Env) (db : Db) (program_id : String) (currency : CurrencyCode)
    → IsBookable call
    → Unmatched program_id currency db
    → Unmatched program_id currency (after call env db)
unfolding after
after-Unmatched (Call.registering id input) env db program_id currency (positive, upper) h =
    register-Unmatched program_id currency id input env db positive upper h
after-Unmatched (Call.matching id fi actor) env db program_id currency checked h =
    match-Unmatched program_id currency id fi actor env db h
after-Unmatched (Call.clearing id actor) env db program_id currency checked h =
    clear-Unmatched program_id currency id actor env db h
after-Unmatched (Call.instructing id suffix input) env db program_id currency checked h =
    create-Unmatched program_id currency id suffix input env db h
after-Unmatched (Call.cancelling id actor) env db program_id currency checked h =
    cancel-Unmatched program_id currency id actor env db h

-- From a database whose UNMATCHED_DEPOSIT balance, of a program and a currency, is the sum of the
-- deposits that are not cleared, any history of calls of the two services leaves it equal to that sum,
-- whichever calls throw, where each registration has a positive amount and an upper-case currency.
pub Unmatched-tracks :
    (calls : List (Call × Env)) (db : Db) (program_id : String) (currency : CurrencyCode)
    → Bookable calls
    → Unmatched program_id currency db
    → Unmatched program_id currency (after_all calls db)
unfolding after_all
Unmatched-tracks [] db program_id currency bookable h = h
Unmatched-tracks ((call, env) ∷ calls) db program_id currency (first, rest) h =
    Unmatched-tracks calls (after call env db) program_id currency rest
      (after-Unmatched call env db program_id currency first h)

after-Backed : (call : Call) (env : Env) (db : Db) → Backed db → Backed (after call env db)
unfolding after
after-Backed (Call.registering id input) env db h = register-Backed id input env db h
after-Backed (Call.matching id fi actor) env db h = match-Backed id fi actor env db h
after-Backed (Call.clearing id actor) env db h = clear-Backed id actor env db h
after-Backed (Call.instructing id suffix input) env db h = create-Backed id suffix input env db h
after-Backed (Call.cancelling id actor) env db h = cancel-Backed id actor env db h

-- From a database in which each deposit that is matched or cleared names a stored funding instruction
-- of its amount and currency, the same holds after any history of calls of the two services.
pub cleared_deposits-Backed :
    (calls : List (Call × Env)) (db : Db) → Backed db → Backed (after_all calls db)
unfolding after_all
cleared_deposits-Backed [] db h = h
cleared_deposits-Backed ((call, env) ∷ calls) db h =
    cleared_deposits-Backed calls (after call env db) (after-Backed call env db h)

-- A registration of an amount that is not positive, on a known account, of a known program, with a new
-- deposit and a currency code in upper case, throws after its deposit is stored: the deposit is found
-- as detected, and no entry is posted.
pub register_stores_unbooked :
    (id : String) (input : RegisterDeposit) (env : Env) (db : Db) {account : TrusteeAccount}
    {program : Program}
    → find_unique input.trustee_account_id db.trustee_accounts ≡ some account
    → is_taken id input.bank_transaction_id db.deposits ≡ false
    → find_unique input.program_id db.programs ≡ some program
    → to_upper_case input.currency ≡ input.currency
    → input.amount_minor ≤ℤ pos 0
    → ((register id input env db).0 ≡ err invalid_posting)
      × (find_unique id (register id input env db).1.deposits ≡ some (detected_row input))
      × ((register id input env db).1.ledger_entries ≡ db.ledger_entries)
unfolding register
register_stores_unbooked id input env db {account} found free present upper amount =
    let refused = detected_refused id input account.supported_asset_id upper amount in
    rw (found, free, present, refused) (refl, new_found id (detected_row input) db.deposits, refl)
