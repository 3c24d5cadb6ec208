-- ===== src/Product/Accounts.antt =====
-- Accounts and their first credits: `_create_user` and `grant_credits` of
-- unrender/product/service.py. An account is created here without an activation challenge.
pub mod Sound
use Prim.Native.String.{count as char_count}
use unrender.Base.{
  ℕ, ◌+◌, Bool, true, false, ◌&&◌, ◌||◌, not, Option, none, some, String, [], ◌∷◌, ltb, leb, ◌==◌,
  if◌then◌else◌,
}
use unrender.Base.Int.{pos}
use unrender.Base.Table.{Table, lookup, put, nat_eq}
use text.Mathlib.Text.{◌==◌ as str_eq}
use unrender.Product.Settings.{Settings}
use unrender.Product.Schema.{Db, User, AccountKind, LedgerKey}
use unrender.Product.Tx.{
  Tx, ◌>>=◌, ◌>>◌, pure, gets, raise_if, or_raise, when, service_capacity_reached, user_not_found,
  invalid_account, email_in_use, invalid_grant,
}
use unrender.Product.Admission.{database_row_count, insert_unique}
use unrender.Product.Audit.{audit}
use unrender.Product.Credits.{change_credits}

-- The first row that a SELECT on the email finds; the column is UNIQUE.
unfoldable pub find_user : (User → Bool) → Table ℕ User → Option ℕ
find_user test [] = none
find_user test ((k, x) ∷ t) = let rest = find_user test t in if test x then some k else rest

abbrev pub is_found : {A : Type 0} → Option A → Bool
is_found none = false
is_found (some a) = true

-- `email=? AND account_kind='customer' AND account_active=1`
abbrev pub is_active_customer : String → User → Bool
is_active_customer email x =
    str_eq x.email email
    && elim x.account_kind [ AccountKind.customer ↦ true | AccountKind.demo ↦ false ]
    && x.account_active

abbrev pub new_user : String → AccountKind → Bool → User
new_user email kind active = record {
  email = email;
  account_active = active;
  account_kind = kind;
  credit_balance = 0;
}

abbrev pub add_user : ℕ → User → Db → Db
add_user u x d = record d { users = put u x d.users }

module _ (s : Settings) (ident now : ℕ) where
  -- `email` is none where `normalize_email` or `hash_password` raises a ValueError.
  unfoldable pub create_user : ℕ → Option String → AccountKind → Bool → ℕ → String → Tx ℕ
  unfolding find_user
  create_user u email kind active initial_credits credit_reason = do
    normalized ← or_raise email invalid_account
    rows ← gets database_row_count
    raise_if (leb s.max_database_rows_global rows) service_capacity_reached
    insert_unique s none false 0
        (λ d.
          is_found (lookup u d.users)
          || is_found (find_user (λ x. str_eq x.email normalized) d.users))
        email_in_use (add_user u (new_user normalized kind active))
    when (not (initial_credits == 0)) (do
      change_credits s now u (pos initial_credits) credit_reason (LedgerKey.welcome u) false
      pure tt)
    audit s ident now (some u) none "account_created"
    pure u

  -- `not 1 <= credits <= 1000 or not 1 <= len(reference) <= 128`
  abbrev pub is_invalid_grant : ℕ → String → Bool
  is_invalid_grant credits reference =
      not (leb 1 credits && leb credits 1000)
      || not (leb 1 (char_count reference) && leb (char_count reference) 128)

  unfoldable pub grant_credits : Option String → ℕ → String → Tx Unit
  unfolding find_user
  grant_credits email credits reference = do
    raise_if (is_invalid_grant credits reference) invalid_grant
    normalized ← or_raise email invalid_account
    row ← gets (λ d. find_user (is_active_customer normalized) d.users)
    u ← or_raise row user_not_found
    change_credits s now u (pos credits) "operator_grant" (LedgerKey.grant u reference) false
    pure tt
