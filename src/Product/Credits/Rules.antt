-- ===== src/Product/Credits/Rules.antt =====
-- What a call of `_change_credits` has done when it returns.
use unrender.Base.{
  ℕ, ◌+◌, ◌≤◌, ◌<◌, ◌≡◌, refl, ap, ◌⊎◌, leb, ltb, not, ◌||◌, ◌&&◌, inl, inr, Bool, true, false,
  none, some, String, arith,
}
use unrender.Base.Int.{ℤ, pos_part, neg_part}
use unrender.Base.Table.{lookup, put, nat_eq}
use unrender.Product.Settings.{Settings}
use unrender.Product.Schema.{Db, Entry, User, LedgerKey, ledger_key_eq}
use unrender.Product.Tx.Ensures.{
  Ensures, Ensures-pure, Ensures-gets_bind, Ensures-raise_if_bind, Ensures-or_raise_bind,
  Ensures-modify_bind, Ensures-bind, Ensures-unless_found, Ensures-weaken,
}
use unrender.Product.Admission.Rules.{Ensures-insert_row}
use unrender.Product.Credits.{
  change_credits, post_entry, set_balance, add_entry, add_delta, ledger_count, refundable,
}

-- A new ledger entry, with the account's balance moved by its delta.
pub record Posted (s : Settings) (u : ℕ) (delta : ℤ) (key : LedgerKey) (mandatory : Bool) (d e : Db)
    : Type 0 where
  pub account : User
  pub entry : Entry
  pub found : lookup u d.users ≡ some account
  pub is_new : lookup key d.ledger ≡ none
  pub owner : entry.user_id ≡ u
  pub amount : entry.delta ≡ delta
  pub balance : entry.balance_after + neg_part delta ≡ account.credit_balance + pos_part delta
  pub room : ledger_count u d.ledger < s.max_credit_ledger_records_per_user
  pub room_for_refunds :
      mandatory ≡ false
      → ledger_count u d.ledger + 1 + refundable u d.jobs ≤ s.max_credit_ledger_records_per_user
  pub after : e ≡ record d {
    users = put u (record account { credit_balance = entry.balance_after }) d.users;
    ledger = put key entry d.ledger;
  }

-- A key that is in the ledger already: nothing is written, and its old balance comes back.
pub record Replayed (key : LedgerKey) (d e : Db) : Type 0 where
  pub entry : Entry
  pub known : lookup key d.ledger ≡ some entry
  pub unchanged : e ≡ d

add_delta_parts :
    (a b : ℕ) (delta : ℤ) → add_delta a delta ≡ some b → b + neg_part delta ≡ a + pos_part delta
unfolding add_delta
add_delta_parts a b delta h = ground arith

set_balance_found :
    (u b : ℕ) (x : User) (d : Db)
    → lookup u d.users ≡ some x
    → set_balance u b d ≡ record d { users = put u (record x { credit_balance = b }) d.users }
set_balance_found u b x d h = rw h

room_of_test :
    (mandatory : Bool) (cap count pending : ℕ)
    → (leb cap count || (not mandatory && ltb cap (count + 1 + pending))) ≡ false
    → (count < cap) × (mandatory ≡ false → count + 1 + pending ≤ cap)
room_of_test true cap count pending h = (ground arith, λ e. cc)
room_of_test false cap count pending h = (ground arith, λ e. ground arith)

module _ (s : Settings) (now u : ℕ) (delta : ℤ) (reason : String) (key : LedgerKey)
    (mandatory : Bool) (d : Db) where
  post_entry-Posted :
      lookup key d.ledger ≡ none
      → Ensures
          (post_entry s now u delta reason key mandatory)
          d
          (λ b e. Posted s u delta key mandatory d e)
  unfolding post_entry
  post_entry-Posted fresh = Ensures-gets_bind _ d _ _ (
      Ensures-gets_bind _ d _ _ (
        Ensures-raise_if_bind _ d _ _ _ λ open_test. Ensures-gets_bind _ d _ _ (
          Ensures-or_raise_bind _ d _ _ _ λ x found. Ensures-or_raise_bind _ d _ _ _ λ b moved.
            Ensures-modify_bind _ d _ _ (
              Ensures-bind _ _ (λ _ e. Posted s u delta key mandatory d e) _ _
                (Ensures-insert_row s _ _ _ _ _ _ (record {
                  account = x;
                  entry = record {
                    user_id = u;
                    delta = delta;
                    balance_after = b;
                    reason = reason;
                    created_at = now;
                  };
                  found = found;
                  is_new = fresh;
                  owner = refl;
                  amount = refl;
                  balance = add_delta_parts x.credit_balance b delta moved;
                  room = (room_of_test mandatory _ _ _ open_test).0;
                  room_for_refunds = (room_of_test mandatory _ _ _ open_test).1;
                  after = ap (add_entry key _) (set_balance_found u b x d found);
                }))
                λ _ e p. Ensures-pure _ e b p))))

  -- A call that returns has posted one entry, or has found its key in the ledger.
  pub change_credits-Posted :
      Ensures
        (change_credits s now u delta reason key mandatory)
        d
        (λ b e. Replayed key d e ⊎ Posted s u delta key mandatory d e)
  unfolding change_credits
  change_credits-Posted = Ensures-gets_bind _ d _ _ (
      Ensures-unless_found _ d _ _ _
        (λ x known. inl (record { entry = x; known = known; unchanged = refl }))
        λ fresh. Ensures-weaken _ _ _ d (post_entry-Posted fresh) (λ b e p. inr p))
