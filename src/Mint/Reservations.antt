-- ===== src/Mint/Reservations.antt =====
-- The reservations that mint.service.ts books, against the authorizations that are issued.
use text.Mathlib.Text.{◌==◌ as str_eq}
use trustee_bank.Prelude.{◌≡◌, ◌∙◌, refl, inl, inr, String, false, some, List, [], ◌∷◌}
use text.Mathlib.TextPositions.{eq_refl}
use trustee_bank.Prelude.Int.{◌+ℤ◌}
use trustee_bank.Prelude.Text.{to_upper_case, same_text_iff}
use trustee_bank.Money.{CurrencyCode}
use trustee_bank.Result.{ok}
use trustee_bank.Store.Table.{find_unique, update-update}
use trustee_bank.Store.Rows.{
  MintAuthorization, MintAuthorizationStatus, Approval, ApprovalDecision, User,
}
use trustee_bank.Store.Db.{Db}
use trustee_bank.Store.Action.{Env}
use Prim.Native.String.{◌++◌ as concat}
use trustee_bank.Prelude.{inr, true, none, ◌∷◌, arith}
use trustee_bank.Prelude.Int.{pos, ◌<ℤ◌, eqb_ℤ}
use trustee_bank.Result.{Option-cases, err, unreadable_argument}
use trustee_bank.Ledger.Journal.{JournalEntry}
use trustee_bank.Ledger.Entries.{mint_release_entry}
use trustee_bank.ReserveLedger.{entry_row, post_entry}
use trustee_bank.Mint.Bookings.{release_accepts}
use trustee_bank.Mint.Calls.{is_readable}
use trustee_bank.Mint.Desk.{amount_of}
use trustee_bank.Mint.{
  MintConfirmationInput, reject, acted, confirm, realize, is_status, has_expired, mint_references,
  read_height,
}
use trustee_bank.Mint.Desk.{desk, Strands, Slips, ConfirmedEnded}
use trustee_bank.Mint.Earmark.{
  Earmarked, pending_mint, issued_total, step-Earmarked, Strands-exceeds, Slips-falls,
}
use trustee_bank.Mint.Calls.{Call, after, after_all, RejectsIssued, ConfirmsUnreadable}
use trustee_bank.Mint.Refines.{run-Step}
use trustee_bank.Mint.Refines.Cases.{decided, found_row}
use trustee_bank.Mint.History.{after-ConfirmedEnded}

-- No call of the history rejects an authorization that is issued at that moment, or confirms with a
-- height or a time that cannot be read.
abbrev pub Careful : List (Call × Env) → Db → Type 0
Careful [] db = Unit
Careful ((call, env) ∷ calls) db =
    (RejectsIssued call db → ⊥)
    × (ConfirmsUnreadable call env → ⊥)
    × Careful calls (after call env db)

-- From a database whose confirmed authorizations have ended and whose PENDING_MINT balance, of a
-- program and a currency, is the sum of the issued amounts, any history of calls that rejects no
-- issued authorization, and confirms none with a height or a time that the platform cannot read,
-- leaves that balance equal to that sum, whichever of its calls throw.
pub earmarks_issued :
    (calls : List (Call × Env)) (db : Db) (program_id : String) (currency : CurrencyCode)
    → ConfirmedEnded (desk db)
    → Careful calls db
    → Earmarked program_id currency (desk db)
    → Earmarked program_id currency (desk (after_all calls db))
unfolding after_all
earmarks_issued [] db program_id currency ended careful h = h
earmarks_issued ((call, env) ∷ calls) db program_id currency ended (safe, readable, careful) h =
    earmarks_issued calls (after call env db) program_id currency
      (after-ConfirmedEnded call env db ended) careful
      (elim (run-Step call env db ended) [
        | inl step ↦ step-Earmarked program_id currency step h
        | inr (inl (strands, rejects)) ↦ absurd (safe rejects)
        | inr (inr (slips, confirms)) ↦ absurd (readable confirms)
      ])

-- A user other than the maker can reject an issued authorization. The call succeeds and books no
-- release: from then on PENDING_MINT, which was the sum of the issued amounts, exceeds it by the
-- amount of that authorization.
pub reject_strands :
    (id checker_id reason : String) (env : Env) (db : Db) {auth : MintAuthorization}
    {approval : Approval} {checker : User}
    → find_unique checker_id db.users ≡ some checker
    → find_unique id db.mint_authorizations ≡ some auth
    → auth.status ≡ MintAuthorizationStatus.issued
    → auth.approval ≡ some approval
    → str_eq approval.maker_id checker_id ≡ false
    → Earmarked auth.program_id (to_upper_case auth.currency) (desk db)
    → ((reject id checker_id reason env db).0 ≡ ok (id, MintAuthorizationStatus.rejected))
      × (pending_mint auth.program_id
            (to_upper_case auth.currency)
            (desk (reject id checker_id reason env db).1)
          ≡ issued_total auth.program_id
              (to_upper_case auth.currency)
              (desk (reject id checker_id reason env db).1)
            +ℤ auth.amount_minor)
unfolding reject
reject_strands id checker_id reason env db {auth} {approval} known found issued present other h =
    let a = acted approval checker_id env.now ApprovalDecision.rejected (some reason) in
    let f = decided MintAuthorizationStatus.rejected a in
    let c =
      found_row (desk db) id f auth found
        (record { same_program = refl; same_amount = refl; same_currency = refl }) in
    let strands : Strands (desk db) (desk (reject id checker_id reason env db).1) = record {
      id = id;
      f = f;
      change = c;
      was_issued = rw issued refl;
      now_ended = refl;
      result = simp (found, present, other, known, update-update);
    } in
    (
      simp (found, present, other, known),
      Strands-exceeds auth.program_id (to_upper_case auth.currency) strands h
          ∙ rw (eq_refl auth.program_id, (same_text_iff (to_upper_case auth.currency) _).1 refl)
              refl,
    )

unreadable :
    (env : Env) (input : MintConfirmationInput) (auth : MintAuthorization) (id : String) (db : Db)
    {entry : JournalEntry}
    → eqb_ℤ input.amount_minor auth.amount_minor ≡ true
    → mint_release_entry
        (amount_of auth)
        (mint_references (concat "mint-confirm:" id) auth input.actor none)
      ≡ ok entry
    → is_readable env input ≡ false
    → realize id input auth env db ≡ (
      err unreadable_argument,
      record db { ledger_entries = entry_row entry ∷ db.ledger_entries },
    )
unfolding realize post_entry
unreadable env input auth id db equal built h =
    elim (Option-cases (read_height env.big_int input.ledger_height)) [
      | inr unread ↦ rw (equal, built, unread) refl
      | inl (height, read) ↦ elim (Option-cases (env.date input.confirmed_at)) [
        | inr undated ↦ rw (equal, built, read, undated) refl
        | inl (time, dated) ↦ cc (rw (read, dated) at h)
      ]
    ]

-- A confirmation of an issued authorization in time and for its positive amount, whose height or time
-- cannot be read, throws after the release is booked. The authorization is left as it was, issued, and
-- PENDING_MINT, which was the sum of the issued amounts, falls short of it by that amount.
pub unreadable_slips :
    (id : String) (input : MintConfirmationInput) (env : Env) (db : Db) {auth : MintAuthorization}
    → find_unique id db.mint_authorizations ≡ some auth
    → auth.status ≡ MintAuthorizationStatus.issued
    → has_expired auth.expires_at env.now ≡ false
    → input.amount_minor ≡ auth.amount_minor
    → pos 0 <ℤ auth.amount_minor
    → is_readable env input ≡ false
    → Earmarked auth.program_id (to_upper_case auth.currency) (desk db)
    → ((confirm id input env db).0 ≡ err unreadable_argument)
      × (find_unique id (confirm id input env db).1.mint_authorizations ≡ some auth)
      × (pending_mint auth.program_id
              (to_upper_case auth.currency)
              (desk (confirm id input env db).1)
            +ℤ auth.amount_minor
          ≡ issued_total auth.program_id
              (to_upper_case auth.currency)
              (desk (confirm id input env db).1))
unfolding confirm
unreadable_slips id input env db {auth} found issued timely same positive unread h =
    let references = mint_references (concat "mint-confirm:" id) auth input.actor none in
    let (entry, built) = (release_accepts auth references).1 positive in
    let waiting : is_status MintAuthorizationStatus.issued auth.status ≡ true = rw issued refl in
    let equal : eqb_ℤ input.amount_minor auth.amount_minor ≡ true = rw same (ground arith) in
    let run = unreadable env input auth id db equal built unread in
    let booked = record db { ledger_entries = entry_row entry ∷ db.ledger_entries } in
    let slips : Slips (desk db) (desk booked) = record {
      id = id;
      row = auth;
      found = found;
      still_issued = rw issued refl;
      references = references;
      entry = entry;
      own = refl;
      built = built;
      result = refl;
    } in
    rw (found, waiting, timely, run)
      (
        refl,
        found,
        rw
            (
              eq_refl auth.program_id,
              (same_text_iff (to_upper_case auth.currency) (to_upper_case auth.currency)).1 refl,
            )
            at (Slips-falls auth.program_id (to_upper_case auth.currency) slips h),
      )
