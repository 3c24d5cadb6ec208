-- ===== src/Product/Soundness/Operations/BillingSteps.antt =====
-- The billing webhook keeps the invariant.
use unrender.Base.{ℕ, true, false, not, Option, none, some, String, ◌==◌}
use text.Mathlib.Text.{◌==◌ as str_eq}
use unrender.Base.Table.{nat_eq}
use unrender.Product.Settings.{Settings}
use unrender.Product.Schema.{Db, BillingEvent, ledger_key_eq, string_key_eq}
use unrender.Product.Tx.Ensures.{
  Ensures, Ensures-pure, Ensures-raise, Ensures-bind, Ensures-gets_bind, Ensures-if,
  Ensures-raise_if_bind, Ensures-or_raise_bind,
}
use unrender.Product.Admission.Rules.{Ensures-insert_row}
use unrender.Product.Jobs.Requests.{
  apply_billing_event, apply_new_event, known_or_new, is_incomplete, checkout_completed,
}
use unrender.Product.Soundness.Ledger.{credit-Sound}
use unrender.Product.Soundness.Settled.{IsSound, IsSound-frame, audit-IsSound}

module _ (s : Settings) (ident now : ℕ) where
  apply_new_event-IsSound :
      (event_id : String) (u credits : ℕ) (payload : String) (d : Db)
      → IsSound s d
      → Ensures (apply_new_event s ident now event_id u credits payload) d (λ _ e. IsSound s e)
  unfolding apply_new_event
  apply_new_event-IsSound event_id u credits payload d h = Ensures-gets_bind _ d _ _ (
      Ensures-raise_if_bind _ d _ _ _ λ _. Ensures-gets_bind _ d _ _ (
        Ensures-or_raise_bind _ d _ _ _ λ user found. Ensures-raise_if_bind _ d _ _ _ λ _.
          Ensures-bind _ d (λ _ e. IsSound s e) _ _
            (Ensures-insert_row s _ d _ _ _ _
              (IsSound-frame s d d.audit_log d.budget d.versions _ h))
            λ _ e p.
              Ensures-bind _ e _ _ _
                (credit-Sound s now u _ "stripe_credit_pack" _ e p.coherent tt p.headroom)
                λ _ f q.
                  Ensures-bind _ f _ _ _
                    (audit-IsSound s ident now (some u) none "credits_purchased" f
                      (record { coherent = q.0; headroom = q.1 }))
                    λ _ g r. Ensures-pure _ g true r))

  known_or_new-IsSound :
      (event_id event_type : String) (u credits : ℕ) (payload : String) (o : Option BillingEvent)
      (d : Db)
      → IsSound s d
      → Ensures
          (known_or_new s ident now event_id event_type u credits payload o)
          d
          (λ _ e. IsSound s e)
  unfolding known_or_new
  known_or_new-IsSound event_id event_type u credits payload none d h =
      apply_new_event-IsSound event_id u credits payload d h
  known_or_new-IsSound event_id event_type u credits payload (some b) d h =
      Ensures-raise_if_bind _ d _ _ _ λ _. Ensures-pure _ d false h

  pub apply_billing_event-IsSound :
      (event_id event_type : String) (u credits : ℕ) (payload : String) (d : Db)
      → IsSound s d
      → Ensures
          (apply_billing_event s ident now event_id event_type u credits payload)
          d
          (λ _ e. IsSound s e)
  unfolding apply_billing_event
  apply_billing_event-IsSound event_id event_type u credits payload d h =
      Ensures-if _ d (is_incomplete s ident now event_id payload) _ _ (λ _. Ensures-raise _ d _)
        λ _.
          Ensures-if _ d (not (str_eq event_type (checkout_completed s ident now))) _ _
            (λ _. Ensures-pure _ d false h)
            λ _.
              Ensures-if _ d (not (credits == s.credit_pack_size)) _ _ (λ _. Ensures-raise _ d _)
                λ _.
                  Ensures-gets_bind _ d _ _
                    (known_or_new-IsSound event_id event_type u credits payload _ d h)
