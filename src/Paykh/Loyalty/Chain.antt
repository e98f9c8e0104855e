-- ===== src/Paykh/Loyalty/Chain.antt =====
-- `authorizeOnChain` of loyalty.service.ts: what the trustee signs and asks of PayChain.
use Prim.Native.String.{◌++◌ as concat}
use text.Mathlib.Text.{◌==◌ as str_eq}
use trustee_bank.Prelude.{ℕ, String, Bool, Option, none, some, if◌then◌else◌}
use trustee_bank.Prelude.Int.{ℤ}
use trustee_bank.Money.{CurrencyCode}
use trustee_bank.Result.{Result, ok, err}
use trustee_bank.Store.Rows.{Signature}
use trustee_bank.Store.Db.{ExecutedBy}
use trustee_bank.Store.PaykhRows.{PaykhLoyaltyLiability}

pub data Operation : Type 0 where
  issue burn : Operation

pub record Artifact : Type 0 where
  pub operation : Operation
  pub asset_code : String
  pub destination : String
  pub amount_minor : ℤ
  pub currency : CurrencyCode
  pub reference : String

pub record ChainRequest : Type 0 where
  pub artifact : Artifact
  pub open artifact use *
  pub decimals : ℕ
  pub signature : Signature

-- The answer of the gateway.
pub record Execution : Type 0 where
  pub simulated : Bool
  pub accepted : Bool
  pub paychain_reference : Option String
  pub on_chain_tx_hash : Option String

-- The calls outside: the signing service, PayChain, and the supply read from the chain's ledger. The
-- last two may throw.
pub record Gateway : Type 0 where
  pub sign : Artifact → Signature
  pub request_issue : ChainRequest → Result Execution
  pub request_burn : ChainRequest → Result Execution
  pub read_on_chain_supply : String → String → ℕ → Result (Option ℤ)

pub record ChainResult : Type 0 where
  pub status : String
  pub executed_by : ExecutedBy
  pub paychain_reference : Option String
  pub on_chain_tx_hash : Option String

-- A text that JavaScript takes for true: one that is there and is not empty.
abbrev pub truthy : Option String → Option String
truthy none = none
truthy (some s) = if str_eq s "" then none else some s

abbrev pub slug : Operation → String
slug issue = "issue"
slug burn = "burn"

abbrev pub requested : Gateway → Operation → ChainRequest → Result Execution
requested gateway issue req = gateway.request_issue req
requested gateway burn req = gateway.request_burn req

abbrev pub chain_result : Execution → ChainResult
chain_result res = record {
  status =
      if res.simulated
      then "ONCHAIN_SIMULATED"
      else if res.accepted
      then "ONCHAIN_CONFIRMED"
      else "ONCHAIN_FAILED";
  executed_by = if res.simulated then ExecutedBy.simulated else ExecutedBy.paychain;
  paychain_reference = res.paychain_reference;
  on_chain_tx_hash = res.on_chain_tx_hash;
}

abbrev pub off_chain : ChainResult
off_chain = record {
  status = "OFFCHAIN";
  executed_by = ExecutedBy.offchain;
  paychain_reference = none;
  on_chain_tx_hash = none;
}

abbrev pub artifact_of :
    Operation → String → String → String → String → PaykhLoyaltyLiability → ℤ → Artifact
artifact_of operation uuid id asset_code destination l amount_minor = record {
  operation = operation;
  asset_code = asset_code;
  destination = destination;
  amount_minor = amount_minor;
  currency = l.peg_currency;
  reference =
      concat "paykh-loyalty-" (concat (slug operation) (concat ":" (concat id (concat ":" uuid))));
}

abbrev pub answered : Result Execution → Result ChainResult
answered (ok res) = ok (chain_result res)
answered (err e) = err e

-- An asset without a code or a distributor stays off the chain.
unfoldable pub authorize_on_chain :
    Gateway → Operation → String → String → PaykhLoyaltyLiability → ℤ → Result ChainResult
authorize_on_chain gateway operation uuid id l amount_minor = elim (truthy l.stellar_asset_code) [
  | none ↦ ok off_chain
  | some asset_code ↦ elim (truthy l.stellar_distributor) [
    | none ↦ ok off_chain
    | some destination ↦
        let artifact = artifact_of operation uuid id asset_code destination l amount_minor in
        answered (
          requested gateway operation (record {
            artifact = artifact;
            decimals = l.decimals;
            signature = gateway.sign artifact;
          }))
  ]
]

-- The supply on the chain, if the liability is bound to an asset; reading it can throw.
unfoldable pub read_supply : Gateway → PaykhLoyaltyLiability → Result (Option ℤ)
read_supply gateway l = elim (truthy l.stellar_asset_code) [
  | none ↦ ok none
  | some asset_code ↦ elim (truthy l.stellar_issuer) [
    | none ↦ ok none
    | some issuer ↦ gateway.read_on_chain_supply asset_code issuer l.decimals
  ]
]
