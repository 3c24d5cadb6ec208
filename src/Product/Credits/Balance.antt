-- ===== src/Product/Credits/Balance.antt =====
-- Every balance is the sum of its ledger.
use unrender.Base.{ℕ, ◌+◌, ◌≡◌, sym, subst, Bool, none, some, arith, ◌==◌, if◌then◌else◌}
use unrender.Base.Int.{ℤ, pos_part, neg_part}
use unrender.Base.Table.{Table, lookup, put, sum, sum-put_new, lookup-put, nat_eq}
use unrender.Product.Settings.{Settings}
use unrender.Product.Schema.{Db, Entry, User, LedgerKey, ledger_key_eq}
use unrender.Product.Credits.Rules.{Posted}

-- What the ledger has added to a user's account, and what it has taken.
unfoldable pub credited : ℕ → Table LedgerKey Entry → ℕ
credited u = sum (λ k e. if e.user_id == u then pos_part e.delta else 0)

unfoldable pub debited : ℕ → Table LedgerKey Entry → ℕ
debited u = sum (λ k e. if e.user_id == u then neg_part e.delta else 0)

-- The balance of each account is what its ledger adds up to.
pub record IsBalanced (d : Db) : Type 0 where
  pub at :
      (u : ℕ) (x : User)
      → lookup u d.users ≡ some x
      → x.credit_balance + debited u d.ledger ≡ credited u d.ledger

module _ (v : ℕ) (key : LedgerKey) (entry : Entry) (l : Table LedgerKey Entry)
    (fresh : lookup key l ≡ none) where
  credited-put :
      credited v (put key entry l)
      ≡ credited v l + (if entry.user_id == v then pos_part entry.delta else 0)
  unfolding credited
  credited-put = sum-put_new _ key entry l fresh

  debited-put :
      debited v (put key entry l)
      ≡ debited v l + (if entry.user_id == v then neg_part entry.delta else 0)
  unfolding debited
  debited-put = sum-put_new _ key entry l fresh

pub Posted-IsBalanced :
    (s : Settings) (u : ℕ) (delta : ℤ) (key : LedgerKey) (mandatory : Bool) (d e : Db)
    → Posted s u delta key mandatory d e
    → IsBalanced d
    → IsBalanced e
Posted-IsBalanced s u delta key mandatory d e p h = subst IsBalanced (sym p.after) (record {
  at = λ v x q. ground (
    arith,
    lookup-put u v (record p.account { credit_balance = p.entry.balance_after }) d.users,
    credited-put v key p.entry d.ledger p.is_new,
    debited-put v key p.entry d.ledger p.is_new,
    p.balance,
    p.owner,
    p.amount,
    p.found,
    h.at v x,
    h.at u p.account p.found,
  );
})
