-- ===== src/ReserveLedger/Balance.antt =====
-- Balances under `post`: the running sums of the service as plain sums, and the subledger's zero net.
use text.Mathlib.Text.{◌==◌ as str_eq}
use text.Mathlib.TextEquality.{eq_iff}
use text.Mathlib.TextPositions.{eq_refl}
use trustee_bank.Prelude.{
  String, ◌≡◌, ◌≢◌, ◌⊎◌, refl, sym, ap, ap₂, ◌∙◌, Bool, true, ◌&&◌, List, [], ◌∷◌, ◌++◌, map, All,
  arith, inl, inr, Bool-cases, if◌then◌else◌,
}
use trustee_bank.Prelude.Int.{ℤ, pos, ◌+ℤ◌, ◌-ℤ◌, int_laws, +ℤ_assoc, +ℤ_zero_left, +ℤ_zero_right}
use trustee_bank.Prelude.Text.{same_text, same_text_iff, to_upper_case}
use trustee_bank.Money.{Money, CurrencyCode, money}
use trustee_bank.Money.Laws.{of}
use trustee_bank.Result.{ok}
use trustee_bank.Ledger.Accounts.{LedgerAccountType, ledger_account_type_of, debit_positive}
use trustee_bank.Ledger.Journal.{
  Posting, JournalEntry, JournalEntryInput, build_journal_entry, account_effect,
}
use trustee_bank.Ledger.Journal.Build.{debits, credits, build-eq-ok_iff}
use trustee_bank.Ledger.Journal.Effect.{effect, change, account_effect-posted}
use trustee_bank.Ledger.Journal.Reverse.{known_of_effect}
use trustee_bank.Store.Rows.{LedgerPosting, LedgerEntry}
use trustee_bank.Store.Db.{Db}
use trustee_bank.ReserveLedger.{
  posting_row, entry_row, post_entry, postings_on, find_postings, net_from, account_balance,
  program_postings, subledger_balances,
}

abbrev row_change : Bool → LedgerPosting → ℤ
row_change d r = if d then r.debit_minor -ℤ r.credit_minor else r.credit_minor -ℤ r.debit_minor

-- The net of some rows, on a debit or a credit account.
unfoldable pub net : Bool → List LedgerPosting → ℤ
net d [] = pos 0
net d (r ∷ rs) = row_change d r +ℤ net d rs

pub net_from-net : (d : Bool) (n : ℤ) (rs : List LedgerPosting) → net_from d n rs ≡ n +ℤ net d rs
unfolding net_from net
net_from-net d n [] = sym (+ℤ_zero_right n)
net_from-net d n (r ∷ rs) = net_from-net d (n +ℤ row_change d r) rs ∙ +ℤ_assoc n _ (net d rs)

pub net-append : (d : Bool) (rs ss : List LedgerPosting) → net d (rs ++ ss) ≡ net d rs +ℤ net d ss
unfolding net
net-append d [] ss = sym (+ℤ_zero_left _)
net-append d (r ∷ rs) ss =
    ap (λ n. row_change d r +ℤ n) (net-append d rs ss) ∙ sym (+ℤ_assoc _ (net d rs) (net d ss))

-- The rows of an entry change an account as its postings do.
net-postings_on :
    (d : Bool) (account : String) (ps : List Posting)
    → net d (postings_on account (map posting_row ps)) ≡ effect d account ps
unfolding net postings_on effect
net-postings_on d account [] = refl
net-postings_on d account (p ∷ ps) = elim (Bool-cases (str_eq p.account account)) [
  | inl here ↦ rw here (ap (λ n. change d p +ℤ n) (net-postings_on d account ps))
  | inr there ↦ rw there (net-postings_on d account ps ∙ sym (+ℤ_zero_left _))
]

-- The balance of an account as a plain sum over the entries.
abbrev pub balance : Bool → String → String → CurrencyCode → List LedgerEntry → ℤ
balance d program_id account currency entries =
    net d (find_postings program_id account currency entries)

pub account_balance-balance :
    (entries : List LedgerEntry) (program_id account : String) (currency : CurrencyCode)
    {t : LedgerAccountType}
    → ledger_account_type_of account ≡ ok t
    → account_balance entries program_id account currency
      ≡ ok (money (balance (debit_positive t) program_id account currency entries) currency)
unfolding account_balance
account_balance-balance entries program_id account currency {t} known =
    rw (known, net_from-net, +ℤ_zero_left)

-- What an entry adds to the balance of an account of a program in a currency.
abbrev pub contribution : Bool → String → String → CurrencyCode → JournalEntry → ℤ
contribution d program_id account currency entry =
    if str_eq entry.references.program_id program_id && same_text entry.currency currency
    then effect d account entry.postings
    else pos 0

pub balance-entry :
    (d : Bool) (program_id account : String) (currency : CurrencyCode) (entry : JournalEntry)
    (es : List LedgerEntry)
    → balance d program_id account currency (entry_row entry ∷ es)
      ≡ contribution d program_id account currency entry +ℤ balance d program_id account currency es
unfolding find_postings
balance-entry d program_id account currency entry es =
    elim (Bool-cases
      (str_eq entry.references.program_id program_id && same_text entry.currency currency)) [
        | inl here ↦ rw here (
            net-append d _ _
            ∙ ap (λ n. n +ℤ net d (find_postings program_id account currency es))
                (net-postings_on d account entry.postings))
        | inr there ↦ rw there (sym (+ℤ_zero_left _))
      ]

pub balance-post :
    (d : Bool) (program_id account : String) (currency : CurrencyCode) (entry : JournalEntry)
    (db : Db)
    → balance d program_id account currency (post_entry entry db).ledger_entries
      ≡ contribution d program_id account currency entry
        +ℤ balance d program_id account currency db.ledger_entries
unfolding post_entry
balance-post d program_id account currency entry db =
    balance-entry d program_id account currency entry db.ledger_entries

contribution_own :
    (d : Bool) (account : String) (entry : JournalEntry)
    → contribution d entry.references.program_id account entry.currency entry
      ≡ effect d account entry.postings
contribution_own d account entry =
    rw (eq_refl entry.references.program_id, (same_text_iff entry.currency entry.currency).1 refl)

ok_injective : {m n : Money} → ok m ≡ ok n → m ≡ n
ok_injective h = cc

built_effect :
    (input : JournalEntryInput) (entry : JournalEntry) (account : String) {t : LedgerAccountType}
    → build_journal_entry input ≡ ok entry
    → ledger_account_type_of account ≡ ok t
    → account_effect entry account
      ≡ ok (of (effect (debit_positive t) account entry.postings) entry.currency)
built_effect input entry account built known =
    let (postable, same) = (build-eq-ok_iff input entry).0 built in
    rw same (account_effect-posted input account postable known)

built_upper_case :
    (input : JournalEntryInput) (entry : JournalEntry)
    → build_journal_entry input ≡ ok entry
    → to_upper_case entry.currency ≡ entry.currency
built_upper_case input entry built =
    let (postable, same) = (build-eq-ok_iff input entry).0 built in rw same postable.upper_case

-- After the post the balance is the sum of the balance before and the entry's effect.
pub balance_after_post :
    (input : JournalEntryInput) (entry : JournalEntry) (db : Db) (account : String)
    {t : LedgerAccountType}
    → build_journal_entry input ≡ ok entry
    → ledger_account_type_of account ≡ ok t
    → account_balance
        (post_entry entry db).ledger_entries
        entry.references.program_id
        account
        entry.currency
      ≡ ok (
          of
            (effect (debit_positive t) account entry.postings
              +ℤ balance
                  (debit_positive t)
                  entry.references.program_id
                  account
                  entry.currency
                  db.ledger_entries)
            entry.currency)
unfolding money
balance_after_post input entry db account {t} built known =
    let d = debit_positive t in
    let c = entry.currency in
    let p = entry.references.program_id in
    rw (
      account_balance-balance (post_entry entry db).ledger_entries p account c known,
      balance-post d p account c entry db,
      contribution_own d account entry,
      built_upper_case input entry built,
    )

-- Posting a built entry moves the balance of an account, of the entry's program and currency, by the
-- entry's effect on the account.
pub post_moves_balance :
    (input : JournalEntryInput) (entry : JournalEntry) (db : Db) (account : String)
    {old delta : Money}
    → build_journal_entry input ≡ ok entry
    → account_effect entry account ≡ ok delta
    → account_balance db.ledger_entries entry.references.program_id account entry.currency ≡ ok old
    → account_balance
        (post_entry entry db).ledger_entries
        entry.references.program_id
        account
        entry.currency
      ≡ ok (of (delta.minor +ℤ old.minor) entry.currency)
unfolding money
post_moves_balance input entry db account {old} {delta} built effected before =
    let (t, known) = known_of_effect entry account effected in
    let was =
      ap (λ (m : Money). m.minor)
        (ok_injective (
          sym (
            account_balance-balance db.ledger_entries entry.references.program_id account
              entry.currency known)
          ∙ before)) in
    let by =
      ap (λ (m : Money). m.minor)
        (ok_injective (sym (built_effect input entry account built known) ∙ effected)) in
    balance_after_post input entry db account built known
    ∙ ap₂ (λ x y. ok (of (x +ℤ y) entry.currency)) by was

-- An entry of another program or currency moves no balance.
post_keeps_others :
    (entry : JournalEntry) (db : Db) (program_id account : String) (currency : CurrencyCode)
    → (entry.references.program_id ≢ program_id) ⊎ (entry.currency ≢ currency)
    → account_balance (post_entry entry db).ledger_entries program_id account currency
      ≡ account_balance db.ledger_entries program_id account currency
unfolding account_balance post_entry find_postings
post_keeps_others entry db program_id account currency other =
    ground
      (arith, eq_iff entry.references.program_id program_id, same_text_iff entry.currency currency)

-- The two sides of an entry's rows are equal.
abbrev pub IsBalanced : LedgerEntry → Type 0
IsBalanced e = net true e.postings ≡ pos 0

net-debits-credits : (ps : List Posting) → net true (map posting_row ps) ≡ debits ps -ℤ credits ps
unfolding net debits credits
net-debits-credits [] = omega int_laws
net-debits-credits (p ∷ ps) = rw (net-debits-credits ps) (omega int_laws)

pub build-IsBalanced :
    (input : JournalEntryInput) {entry : JournalEntry}
    → build_journal_entry input ≡ ok entry
    → IsBalanced (entry_row entry)
build-IsBalanced input {entry} h =
    let (postable, same) = (build-eq-ok_iff input entry).0 h in
    rw (same, net-debits-credits, postable.balanced) (omega int_laws)

program_postings-zero :
    (program_id : String) (entries : List LedgerEntry)
    → All IsBalanced entries
    → net true (program_postings program_id entries) ≡ pos 0
unfolding program_postings net
program_postings-zero program_id [] h = refl
program_postings-zero program_id (e ∷ es) (b, bs) =
    elim (Bool-cases (str_eq e.program_id program_id)) [
      | inl here ↦ rw (here, net-append, b, program_postings-zero program_id es bs) (omega int_laws)
      | inr there ↦ rw there (program_postings-zero program_id es bs)
    ]

pub subledger_balances-zero :
    (entries : List LedgerEntry) (program_id : String)
    → All IsBalanced entries
    → subledger_balances entries program_id ≡ record { balanced = true; net = pos 0 }
unfolding subledger_balances
subledger_balances-zero entries program_id h =
    rw (net_from-net, +ℤ_zero_left, program_postings-zero program_id entries h)

-- Posts in turn.
unfoldable pub post_all : List JournalEntry → Db → Db
post_all [] db = db
post_all (e ∷ es) db = post_all es (post_entry e db)

abbrev pub IsBuilt : JournalEntry → Type 0
IsBuilt entry = (input : JournalEntryInput) × (build_journal_entry input ≡ ok entry)

-- Whatever entries `buildJournalEntry` built are posted, to a ledger whose entries balance, the
-- subledger of every program is reported balanced, with net zero.
pub built_journals_balance :
    (entries : List JournalEntry) (db : Db) (program_id : String)
    → All IsBuilt entries
    → All IsBalanced db.ledger_entries
    → subledger_balances (post_all entries db).ledger_entries program_id
      ≡ record { balanced = true; net = pos 0 }
unfolding post_all post_entry
built_journals_balance [] db program_id built balanced =
    subledger_balances-zero db.ledger_entries program_id balanced
built_journals_balance (e ∷ es) db program_id ((input, h), built) balanced =
    built_journals_balance es (post_entry e db) program_id built
      (build-IsBalanced input h, balanced)
