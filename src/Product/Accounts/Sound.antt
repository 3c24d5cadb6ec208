-- ===== src/Product/Accounts/Sound.antt =====
-- A new account and a grant of credits keep the invariant.
use unrender.Base.{ℕ, ◌≡◌, refl, Bool, false, Option, none, some, String, [], ◌∷◌, arith}
use unrender.Base.Int.{pos}
use unrender.Base.Table.{Table, lookup-put, sum, nat_eq}
use unrender.Product.Settings.{Settings}
use unrender.Product.Schema.{Db, User, Entry, AccountKind, LedgerKey, ledger_key_eq}
use unrender.Product.Tx.{pure, ◌>>◌}
use unrender.Product.Tx.Ensures.{
  Ensures, Ensures-pure, Ensures-bind, Ensures-gets_bind, Ensures-raise_if_bind,
  Ensures-or_raise_bind, Ensures-when,
}
use unrender.Product.Admission.Rules.{Ensures-insert_unique}
use unrender.Product.Credits.{ledger_count, change_credits}
use unrender.Product.Credits.Balance.{IsBalanced, credited, debited}
use unrender.Product.Soundness.Ledger.{KeyFits, credit-Sound}
use unrender.Product.Soundness.Settled.{IsSound, audit-IsSound}
use unrender.Product.Accounts.{add_user, new_user, create_user, grant_credits}

no_entries :
    (u : ℕ) (l : Table LedgerKey Entry)
    → ledger_count u l ≡ 0
    → (credited u l ≡ 0) × (debited u l ≡ 0)
unfolding ledger_count credited debited sum
no_entries u [] h = (refl, refl)
no_entries u ((k, e) ∷ l) h = ground (arith, no_entries u l)

module _ (s : Settings) (u : ℕ) (x : User) (d : Db) (poor : x.credit_balance ≡ 0)
    (fresh : ledger_count u d.ledger ≡ 0) (h : IsSound s d) where
  add_user-IsBalanced : IsBalanced (add_user u x d)
  add_user-IsBalanced = record {
    at = λ v y p.
        ground (
          arith,
          lookup-put u v x d.users,
          h.coherent.balanced.at v y,
          no_entries u d.ledger,
          poor,
        );
  }

  add_user-IsSound : IsSound s (add_user u x d)
  add_user-IsSound = record {
    coherent = record {
      consistent = h.coherent.consistent;
      keyed = h.coherent.keyed;
      balanced = add_user-IsBalanced;
      refund_of = h.coherent.refund_of;
      reserve_of = h.coherent.reserve_of;
      call_of = h.coherent.call_of;
      exclusive = h.coherent.exclusive;
      single = h.coherent.single;
    };
    headroom = record { at = h.headroom.at };
  }

module _ (s : Settings) (now u n : ℕ) (reason : String) (key : LedgerKey) (d : Db)
    (fits : KeyFits d key) (h : IsSound s d) where
  credit-IsSound :
      Ensures (do change_credits s now u (pos n) reason key false; pure tt) d (λ _ e. IsSound s e)
  credit-IsSound =
      Ensures-bind _ d _ _ _ (credit-Sound s now u (pos n) reason key d h.coherent fits h.headroom)
        λ b e p. Ensures-pure _ e tt (record { coherent = p.0; headroom = p.1 })

module _ (s : Settings) (ident now : ℕ) (d : Db) (h : IsSound s d) where
  -- A new account, whose id the ledger has not heard of.
  pub create_user-IsSound :
      (u : ℕ) (email : Option String) (kind : AccountKind) (active : Bool) (n : ℕ) (reason : String)
      → ledger_count u d.ledger ≡ 0
      → Ensures (create_user s ident now u email kind active n reason) d (λ _ e. IsSound s e)
  unfolding create_user
  create_user-IsSound u email kind active n reason fresh =
      Ensures-or_raise_bind _ d _ _ _ λ normalized _. Ensures-gets_bind _ d _ _ (
        Ensures-raise_if_bind _ d _ _ _ λ _.
          Ensures-bind _ d (λ _ e. IsSound s e) _ _
            (Ensures-insert_unique s _ d _ _ _ _ _ _
              λ _. add_user-IsSound s u (new_user normalized kind active) d refl fresh h)
            λ _ a p.
              Ensures-bind _ a (λ _ e. IsSound s e) _ _
                (Ensures-when _ a _ _
                  (λ _. credit-IsSound s now u n reason (LedgerKey.welcome u) a tt p) λ _. p)
                λ _ b q.
                  Ensures-bind _ b (λ _ e. IsSound s e) _ _
                    (audit-IsSound s ident now (some u) none "account_created" b q)
                    λ _ e r. Ensures-pure _ e u r)

  pub grant_credits-IsSound :
      (email : Option String) (credits : ℕ) (reference : String)
      → Ensures (grant_credits s ident now email credits reference) d (λ _ e. IsSound s e)
  unfolding grant_credits
  grant_credits-IsSound email credits reference = Ensures-raise_if_bind _ d _ _ _ λ _.
      Ensures-or_raise_bind _ d _ _ _ λ normalized _. Ensures-gets_bind _ d _ _ (
        Ensures-or_raise_bind _ d _ _ _ λ u _.
          credit-IsSound s now u credits "operator_grant" (LedgerKey.grant u reference) d tt h)
