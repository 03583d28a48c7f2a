-- ===== src/Prelude/Results.antt =====
-- Exceptions as values: `Error` has a constructor for each kind of exception that the modelled code
-- throws, without the text of its message.
use mathlib.Core.Path.{◌≡◌, refl}
use mathlib.Core.Logic.{◌⊎◌, inl, inr}
use mathlib.Core.Bool.{Bool, true, false}
use mathlib.Core.Option.{Option, none, some}

pub data Error : Type 0 where
  -- packages/shared
  negative_amount : Error
  invalid_member_count : Error
  invalid_days_per_cycle : Error
  margin_bps_out_of_range : Error
  no_positions : Error
  position_out_of_range : Error
  max_bps_out_of_range : Error
  no_payment_units : Error
  type_error : Error
  -- ledger-accounts
  journal_too_short : Error
  unbalanced_journal : Error
  zero_delta : Error
  insufficient_balance : Error
  account_not_found : Error
  amount_not_positive : Error
  same_account : Error
  contribution_not_found : Error
  payment_already_recorded : Error
  unique_violation : Error
  -- withdrawals
  invalid_amount : Error
  invalid_phone : Error
  withdrawal_restricted : Error
  admin_wallet_deprecated : Error
  below_minimum : Error
  above_maximum : Error
  daily_count_reached : Error
  daily_amount_reached : Error
  withdrawal_not_found : Error
  provider_ref_required : Error
  wrong_withdrawal_status : Error
  already_completed : Error
  notification_failed : Error
  disbursement_failed : Error
  -- payouts
  group_not_found : Error
  forbidden : Error
  group_not_active : Error
  wrong_cycle : Error
  no_members : Error
  member_count_mismatch : Error
  contributions_missing : Error
  contributions_unpaid : Error
  payout_exists : Error
  no_recipient : Error
  -- cycle-risk, groups
  join_restricted : Error
  already_member : Error
  not_accepting_members : Error
  slots_not_filled : Error
  group_not_draft : Error
  member_not_found : Error
  not_defaulted : Error
  turn_order_taken : Error
  user_not_found : Error

pub data Result {ℓ} (A : Type ℓ) : Type ℓ where
  ok : A → Result A
  err : Error → Result A

-- `if (!test) throw e`
abbrev pub guard : Bool → Error → Result (Unit {0})
guard holds e = elim holds [ true ↦ ok tt | false ↦ err e ]

abbrev pub throw_if : Bool → Error → Result (Unit {0})
throw_if fails e = elim fails [ true ↦ err e | false ↦ ok tt ]

module _ {ℓ} {A : Type ℓ} where
  abbrev pub or_throw : Option A → Error → Result A
  or_throw none e = err e
  or_throw (some found) e = ok found

  pub Result-cases : (m : Result A) → ((a : A) × (m ≡ ok a)) ⊎ ((e : Error) × (m ≡ err e))
  Result-cases (err e) = inr (e, refl)
  Result-cases (ok a) = inl (a, refl)

-- What comes after a throw is not run.
infixl 5 ◌>>=◌ ◌>>◌
abbrev pub ◌>>=◌ {ℓ κ} : {Y : Type ℓ} {Z : Type κ} → Result Y → (Y → Result Z) → Result Z
err thrown >>= next = err thrown
ok value >>= next = next value

abbrev pub ◌>>◌ {κ} : {Z : Type κ} → Result (Unit {0}) → Result Z → Result Z
test >> next = test >>= λ _. next

-- A sequence that returns has run both of its parts.
pub >>=-eq-ok {ℓ κ} :
    {Y : Type ℓ} {Z : Type κ} (first : Result Y) (next : Y → Result Z) {z : Z}
    → (first >>= next) ≡ ok z
    → (y : Y) × (first ≡ ok y) × (next y ≡ ok z)
>>=-eq-ok (err thrown) next h = cc
>>=-eq-ok (ok value) next h = (value, refl, h)
