-- ===== src/Money.antt =====
-- packages/domain/src/money.ts: amounts in minor units with their currency. Every caller in the
-- platform passes `money` a `bigint`, so `minor` is an integer here and the branch that refuses a
-- fractional `number` has no input.
pub mod Laws
use trustee_bank.Prelude.{Bool, not, ◌&&◌, List, [], ◌∷◌, if◌then◌else◌}
use trustee_bank.Prelude.Int.{ℤ, pos, negsuc, ◌+ℤ◌, ◌-ℤ◌, neg, ltb_ℤ, eqb_ℤ}
use trustee_bank.Prelude.Text.{Text, same_text, to_upper_case}
use trustee_bank.Result.{Result, Error, ok, err, currency_mismatch, empty_sum, ◌>>=◌, ◌>>◌}

abbrev pub CurrencyCode : Type 0
CurrencyCode = Text

pub record Money : Type 0 where
  pub minor : ℤ
  pub currency : CurrencyCode

pub data Comparison : Type 0 where
  less same greater : Comparison

unfoldable pub money : ℤ → CurrencyCode → Money
money minor currency = record { minor = minor; currency = to_upper_case currency }

unfoldable pub zero : CurrencyCode → Money
zero currency = record { minor = pos 0; currency = to_upper_case currency }

abbrev pub assert_same_currency : Money → Money → Result (Unit {0})
assert_same_currency a b =
    if same_text a.currency b.currency then ok tt else err Error.currency_mismatch

unfoldable pub add : Money → Money → Result Money
add a b = do
  assert_same_currency a b
  ok (record { minor = a.minor +ℤ b.minor; currency = a.currency })

unfoldable pub subtract : Money → Money → Result Money
subtract a b = do
  assert_same_currency a b
  ok (record { minor = a.minor -ℤ b.minor; currency = a.currency })

-- `values.slice(1).reduce((acc, m) => add(acc, m), first)`
unfoldable pub sum_from : Money → List Money → Result Money
sum_from acc [] = ok acc
sum_from acc (m ∷ ms) = add acc m >>= λ next. sum_from next ms

unfoldable pub sum : List Money → Result Money
unfolding sum_from
sum [] = err empty_sum
sum (first ∷ rest) = sum_from first rest

unfoldable pub negate : Money → Money
negate a = record { minor = neg a.minor; currency = a.currency }

unfoldable pub is_zero : Money → Bool
is_zero a = eqb_ℤ a.minor (pos 0)

unfoldable pub is_negative : Money → Bool
is_negative a = ltb_ℤ a.minor (pos 0)

unfoldable pub is_positive : Money → Bool
is_positive a = ltb_ℤ (pos 0) a.minor

unfoldable pub compare : Money → Money → Result Comparison
compare a b = do
  assert_same_currency a b
  ok (if ltb_ℤ a.minor b.minor then less else if ltb_ℤ b.minor a.minor then greater else same)

abbrev at_least : Comparison → Bool
at_least less = Bool.false
at_least _ = Bool.true

abbrev above : Comparison → Bool
above greater = Bool.true
above _ = Bool.false

unfoldable pub gte : Money → Money → Result Bool
unfolding compare
gte a b = compare a b >>= λ c. ok (at_least c)

unfoldable pub gt : Money → Money → Result Bool
unfolding compare
gt a b = compare a b >>= λ c. ok (above c)

unfoldable pub max : Money → Money → Result Money
unfolding gte
max a b = gte a b >>= λ c. ok (if c then a else b)

unfoldable pub min : Money → Money → Result Money
unfolding gte
min a b = gte a b >>= λ c. ok (if c then b else a)

unfoldable pub equals : Money → Money → Bool
equals a b = same_text a.currency b.currency && eqb_ℤ a.minor b.minor
