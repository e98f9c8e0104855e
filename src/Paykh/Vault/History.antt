-- ===== src/Paykh/Vault/History.antt =====
-- Histories of calls of program-funds.service.ts and loyalty.service.ts.
use trustee_bank.Prelude.{refl, ◌⊎◌, inl, inr, ◌≡◌, String, some, List, [], ◌∷◌}
use trustee_bank.Prelude.Int.{ℤ, pos, ◌≤ℤ◌, ◌-ℤ◌}
use trustee_bank.Money.{CurrencyCode}
use trustee_bank.Store.Table.{find_unique}
use trustee_bank.Store.PaykhRows.{PaykhProgramFund, PaykhLoyaltyLiability}
use trustee_bank.Store.Db.{Db}
use trustee_bank.Store.Action.{Env}
use trustee_bank.Paykh.ProgramFunds.{CreateProgramFund, create, fund, reserve, release}
use trustee_bank.Paykh.Loyalty.{IssueLoyaltyInput, RedeemLoyaltyInput, issue, redeem}
use trustee_bank.Result.{Error, ok, err, Option-cases}
use trustee_bank.Paykh.Loyalty.Chain.{
  Gateway, Operation, ChainRequest, Execution, requested, authorize_on_chain, truthy, artifact_of,
  ChainResult,
}
use trustee_bank.Paykh.Loyalty.Bind.{BindLoyaltyInput, bind}
use trustee_bank.Paykh.Loyalty.Reconcile.{reconcile}
use trustee_bank.Paykh.Vault.{Vault, vault, Step, Unanswered}
use trustee_bank.Paykh.Vault.Covered.{FullyBacked, step-FullyBacked}
use trustee_bank.Paykh.Vault.Booked.{Booked, step-Booked}
use trustee_bank.Paykh.Vault.Calls.{create-Step, fund-Step, reserve-Step, bind-Step}
use trustee_bank.Paykh.Vault.Tokens.{issue-Step, redeem-Step, reconcile-Step}

pub data Call : Type 0 where
  opening : String → CreateProgramFund → Call
  funding : String → ℤ → String → Call
  reserving : String → ℤ → String → Call
  releasing : String → ℤ → String → Call
  binding : String → BindLoyaltyInput → Call
  issuing : String → String → IssueLoyaltyInput → Call
  redeeming : String → String → RedeemLoyaltyInput → Call
  reconciling : String → Call

-- A call that frees no reservation: no release, and no reservation of a negative amount.
abbrev pub KeepsReserved : Call → Type 0
KeepsReserved (Call.releasing id amount actor) = ⊥
KeepsReserved (Call.reserving id amount actor) = pos 0 ≤ℤ amount
KeepsReserved _ = Unit

abbrev pub AllKeepReserved : List (Call × Env) → Type 0
AllKeepReserved [] = Unit
AllKeepReserved ((call, env) ∷ calls) = KeepsReserved call × AllKeepReserved calls

module _ (gateway : Gateway) where
  -- The database after a call, whether it returns or throws.
  unfoldable pub after : Call → Env → Db → Db
  after (Call.opening id input) env db = (create id input env db).1
  after (Call.funding id amount actor) env db = (fund id amount actor env db).1
  after (Call.reserving id amount actor) env db = (reserve id amount actor env db).1
  after (Call.releasing id amount actor) env db = (release id amount actor env db).1
  after (Call.binding id input) env db = (bind id input env db).1
  after (Call.issuing id uuid input) env db = (issue gateway id uuid input env db).1
  after (Call.redeeming id uuid input) env db = (redeem gateway id uuid input env db).1
  after (Call.reconciling id) env db = (reconcile gateway id env db).1

  unfoldable pub after_all : List (Call × Env) → Db → Db
  after_all [] db = db
  after_all ((call, env) ∷ calls) db = after_all calls (after call env db)

  -- Every call that frees no reservation takes one of the steps on the tables, or leaves them as they
  -- are, whether it returns or throws; but a call that the gateway does not answer books its entry
  -- alone.
  pub after-Step :
      (call : Call) (env : Env) (db : Db)
      → KeepsReserved call
      → Step (vault db) (vault (after call env db))
        ⊎ Unanswered gateway (vault db) (vault (after call env db))
  unfolding after
  after-Step (Call.opening id input) env db keeps = inl (create-Step id input env db)
  after-Step (Call.funding id amount actor) env db keeps = inl (fund-Step id amount actor env db)
  after-Step (Call.reserving id amount actor) env db keeps =
      inl (reserve-Step id amount actor env db keeps)
  after-Step (Call.releasing id amount actor) env db keeps = absurd keeps
  after-Step (Call.binding id input) env db keeps = inl (bind-Step id input env db)
  after-Step (Call.issuing id uuid input) env db keeps = issue-Step gateway id uuid input env db
  after-Step (Call.redeeming id uuid input) env db keeps = redeem-Step gateway id uuid input env db
  after-Step (Call.reconciling id) env db keeps = inl (reconcile-Step gateway id env db)

  Unanswered-FullyBacked : {v w : Vault} → Unanswered gateway v w → FullyBacked v → FullyBacked w
  Unanswered-FullyBacked u h =
      rw u.result
        (record { funds_within = h.funds_within; liabilities_covered = h.liabilities_covered })

  -- The gateway answers each request, and throws on none.
  abbrev pub Answers : Type 0
  Answers =
      (operation : Operation) (req : ChainRequest)
      → (res : Execution) × (requested gateway operation req ≡ ok res)

  answers_known :
      (operation : Operation) (uuid id : String) (l : PaykhLoyaltyLiability) (minor : ℤ)
      → Answers
      → (chain : ChainResult) × (authorize_on_chain gateway operation uuid id l minor ≡ ok chain)
  unfolding authorize_on_chain
  answers_known operation uuid id l minor answers =
      elim (Option-cases (truthy l.stellar_asset_code)) [
        | inr unbound ↦ rw (authorize_on_chain, unbound) (_, refl)
        | inl (asset_code, bound) ↦
            rw (authorize_on_chain, bound)
              (elim (Option-cases (truthy l.stellar_distributor)) [
                | inr nowhere ↦ rw nowhere (_, refl)
                | inl (destination, known) ↦
                    let artifact = artifact_of operation uuid id asset_code destination l minor in
                    let (res, answer) = answers operation (record {
                      artifact = artifact;
                      decimals = l.decimals;
                      signature = gateway.sign artifact;
                    }) in
                    rw (known, answer) (_, refl)
              ])
      ]

  never_silent :
      (operation : Operation) (uuid id : String) (l : PaykhLoyaltyLiability) (minor : ℤ) {e : Error}
      → Answers
      → authorize_on_chain gateway operation uuid id l minor ≡ err e
      → ⊥
  never_silent operation uuid id l minor answers silent =
      let (chain, known) = answers_known operation uuid id l minor answers in cc

  after_all-FullyBacked :
      (calls : List (Call × Env)) (db : Db)
      → AllKeepReserved calls
      → FullyBacked (vault db)
      → FullyBacked (vault (after_all calls db))
  unfolding after_all
  after_all-FullyBacked [] db keep h = h
  after_all-FullyBacked ((call, env) ∷ calls) db (keeps, rest) h =
      after_all-FullyBacked calls (after call env db) rest (elim (after-Step call env db keeps) [
        | inl step ↦ step-FullyBacked step h
        | inr u ↦ Unanswered-FullyBacked u h
      ])

  -- From tables in which every fund reserves at most what was paid in, and every stablecoin has
  -- outstanding what was issued less what was redeemed, not negative and within the reservations of
  -- its fund: after any history of calls that frees no reservation, each stablecoin that is found has
  -- outstanding at least zero and at most what its fund, which is found too, reserves, and that at
  -- most what was paid into the fund.
  pub stablecoins_backed :
      (calls : List (Call × Env)) (db : Db) (id : String) (l : PaykhLoyaltyLiability)
      → AllKeepReserved calls
      → FullyBacked (vault db)
      → find_unique id (after_all calls db).loyalty_liabilities ≡ some l
      → (f : PaykhProgramFund) × (find_unique l.program_fund_id (after_all calls db).program_funds
          ≡ some f)
        × (pos 0 ≤ℤ l.outstanding_minor)
        × (l.outstanding_minor ≤ℤ f.reserved_minor)
        × (f.reserved_minor ≤ℤ f.funded_minor)
        × (l.outstanding_minor ≡ l.issued_total_minor -ℤ l.redeemed_total_minor)
  stablecoins_backed calls db id l keep h found =
      let backed = after_all-FullyBacked calls db keep h in
      let c = backed.liabilities_covered id l found in
      (
        c.fund,
        c.stored,
        c.not_negative,
        c.covered,
        (backed.funds_within l.program_fund_id c.fund c.stored).within,
        c.settled,
      )

  -- From a database whose PAYKH_LOYALTY_STABLECOIN balance, of a tenant and a currency, is the sum of
  -- what is outstanding of the tenant's stablecoins pegged to the currency, any history of calls that
  -- frees no reservation leaves it equal to that sum, whichever calls throw, where the gateway answers
  -- each request for an issue or a burn.
  pub stablecoins-Booked :
      (calls : List (Call × Env)) (db : Db) (tenant_id : String) (currency : CurrencyCode)
      → Answers
      → AllKeepReserved calls
      → Booked tenant_id currency (vault db)
      → Booked tenant_id currency (vault (after_all calls db))
  unfolding after_all
  stablecoins-Booked [] db tenant_id currency answers keep h = h
  stablecoins-Booked ((call, env) ∷ calls) db tenant_id currency answers (keeps, rest) h =
      stablecoins-Booked calls (after call env db) tenant_id currency answers rest
        (elim (after-Step call env db keeps) [
          | inl step ↦ step-Booked tenant_id currency step h
          | inr u ↦ absurd (never_silent u.operation u.uuid u.id u.row u.minor answers u.silent)
        ])
