-- ===== src/Product/Jobs/Billing.antt =====
-- The billing webhook is idempotent: a delivered event that is delivered again adds nothing.
use unrender.Base.{
  ℕ, ◌≡◌, refl, sym, subst, ap, ◌∙◌, inl, inr, Bool, true, false, ◌||◌, not, Option, none, some,
  String, arith, ◌==◌, if◌then◌else◌,
}
use unrender.Base.Int.{pos}
use unrender.Base.Table.{lookup, lookup-put_self}
use text.Mathlib.Text.{◌==◌ as str_eq}
use unrender.Product.Settings.{Settings}
use unrender.Product.Schema.{Db, BillingEvent, LedgerKey, string_key_eq}
use unrender.Product.Tx.{Tx, Error, ok, ◌>>=◌, pure, raise, raise_if}
use unrender.Product.Tx.Ensures.{
  Ensures, Ensures-pure, Ensures-bind, Ensures-gets_bind, Ensures-raise_if_bind,
  Ensures-or_raise_bind, Ensures-weaken, Ensures-of_run,
}
use unrender.Product.Admission.Rules.{Ensures-insert_row}
use unrender.Product.Audit.Frame.{Ensures-audit}
use unrender.Product.Credits.Rules.{change_credits-Posted}
use unrender.Product.Jobs.Requests.{
  apply_billing_event, apply_new_event, known_or_new, replay_event, is_incomplete,
  checkout_completed,
}

-- The event is in the table, as a completed checkout with this payload.
Recorded : Settings → ℕ → String → String → Db → Type 0
Recorded s now event_id payload e =
    (b : BillingEvent) × (lookup event_id e.billing_events ≡ some b)
    × (b.event_type ≡ checkout_completed s 0 now)
    × (b.payload_sha256 ≡ payload)

module _ (s : Settings) (ident now : ℕ) (event_id : String) (u credits : ℕ) (payload : String) where
  new_event-Recorded :
      (d : Db)
      → Ensures
          (apply_new_event s ident now event_id u credits payload)
          d
          (λ _ e. Recorded s now event_id payload e)
  unfolding apply_new_event Recorded
  new_event-Recorded d = Ensures-gets_bind _ d _ _ (
      Ensures-raise_if_bind _ d _ _ _ λ _. Ensures-gets_bind _ d _ _ (
        Ensures-or_raise_bind _ d _ _ _ λ user found. Ensures-raise_if_bind _ d _ _ _ λ _.
          Ensures-bind _ d (λ _ e. Recorded s now event_id payload e) _ _
            (Ensures-insert_row s _ d _ _ _ _
              (_, lookup-put_self event_id _ d.billing_events, refl, refl))
            λ _ e p.
              Ensures-bind _ e (λ _ f. Recorded s now event_id payload f) _ _
                (Ensures-weaken _ (λ _ f. Recorded s now event_id payload f) _ e
                  (change_credits-Posted s now u (pos credits) "stripe_credit_pack"
                    (LedgerKey.stripe event_id) false e)
                  λ b f done. elim done [
                    | inl same ↦ subst (Recorded s now event_id payload) (sym same.unchanged) p
                    | inr posted ↦ subst (Recorded s now event_id payload) (sym posted.after) p
                  ])
                λ _ f q.
                  Ensures-bind _ f _ _ _
                    (Ensures-audit s (Recorded s now event_id payload) ident now _ _ _ f λ l. q)
                    λ _ g r. Ensures-pure _ g true r))

  known_or_new-Recorded :
      (event_type : String) (o : Option BillingEvent) (d : Db)
      → Ensures
          (known_or_new s ident now event_id event_type u credits payload o)
          d
          (λ b e. b ≡ true → Recorded s now event_id payload e)
  unfolding known_or_new
  known_or_new-Recorded event_type none d =
      Ensures-weaken _ _ _ d (new_event-Recorded d) λ _ e p _. p
  known_or_new-Recorded event_type (some b) d =
      Ensures-raise_if_bind _ d _ _ _ λ _. Ensures-pure _ d false λ h. absurd (cc (h))

-- The three tests before the table is read.
module _ (x y : Error) (m : Tx Bool) (d : Db) where
  gates_passed :
      (a b c : Bool) (e : Db)
      → (if a then raise x else if b then pure false else if c then raise y else m) d ≡ ok (true, e)
      → (a ≡ false) × (b ≡ false) × (c ≡ false) × (m d ≡ ok (true, e))
  unfolding pure raise
  gates_passed true b c e h = absurd (cc (h))
  gates_passed false true c e h = absurd (cc (h))
  gates_passed false false true e h = absurd (cc (h))
  gates_passed false false false e h = (refl, refl, refl, h)

  gates_open :
      (a b c : Bool)
      → a ≡ false
      → b ≡ false
      → c ≡ false
      → (if a then raise x else if b then pure false else if c then raise y else m) d ≡ m d
  gates_open true b c p q r = absurd (cc (p))
  gates_open false true c p q r = absurd (cc (q))
  gates_open false false true p q r = absurd (cc (r))
  gates_open false false false p q r = refl

answered :
    (a c : Bool) (x : Error) (d : Db)
    → a ≡ true
    → c ≡ true
    → (raise_if (not a || not c) x >>= λ _. pure false) d ≡ ok (false, d)
unfolding ◌>>=◌
answered true true x d p q = refl
answered true false x d p q = absurd (cc (q))
answered false c x d p q = absurd (cc (p))

some_event : (a b : BillingEvent) → Option.some a ≡ Option.some b → a ≡ b
some_event a b p = cc

-- A known event with the same type and payload is answered with False.
known-again :
    (s : Settings) (ident now : ℕ) (event_id event_type : String) (u credits : ℕ) (payload : String)
    (o : Option BillingEvent) (b : BillingEvent) (d : Db)
    → o ≡ some b
    → str_eq b.event_type event_type ≡ true
    → str_eq b.payload_sha256 payload ≡ true
    → known_or_new s ident now event_id event_type u credits payload o d ≡ ok (false, d)
unfolding known_or_new replay_event ◌>>=◌
known-again s ident now event_id event_type u credits payload none b d h p q = absurd (cc (h))
known-again s ident now event_id event_type u credits payload (some x) b d h p q =
    let same = some_event x b h in
    answered _ _ _ d (ap (λ (y : BillingEvent). str_eq y.event_type event_type) same ∙ p)
      (ap (λ (y : BillingEvent). str_eq y.payload_sha256 payload) same ∙ q)

-- What an event that was applied has passed.
passed :
    (s : Settings) (ident now : ℕ) (event_id event_type : String) (u credits : ℕ) (payload : String)
    (d e : Db)
    → apply_billing_event s ident now event_id event_type u credits payload d ≡ ok (true, e)
    → (is_incomplete s ident now event_id payload ≡ false)
      × (not (str_eq event_type (checkout_completed s ident now)) ≡ false)
      × (not (credits == s.credit_pack_size) ≡ false)
      × (known_or_new s ident now event_id event_type u credits payload
            (lookup event_id d.billing_events)
            d
          ≡ ok (true, e))
unfolding apply_billing_event ◌>>=◌
passed s ident now event_id event_type u credits payload d e h = gates_passed _ _ _ d _ _ _ e h

same_text : (a b : String) → not (str_eq a b) ≡ false → str_eq b a ≡ true
same_text a b h = (string_key_eq.beq_iff b a).1 (sym ((string_key_eq.beq_iff a b).0 (ground arith)))

-- A billing event that was applied once changes nothing when it is delivered again with the same type, amount and
-- payload, at any time and for any user: the call returns False and leaves the database as it was.
pub apply_billing_event-again :
    (s : Settings) (ident now again later : ℕ) (event_id event_type : String) (u v credits : ℕ)
    (payload : String) (d e : Db)
    → apply_billing_event s ident now event_id event_type u credits payload d ≡ ok (true, e)
    → apply_billing_event s again later event_id event_type v credits payload e ≡ ok (false, e)
unfolding apply_billing_event Recorded is_incomplete ◌>>=◌
apply_billing_event-again s ident now again later event_id event_type u v credits payload d e h =
    let gate = passed s ident now event_id event_type u credits payload d e h in
    let known =
      Ensures-of_run _ d _ true e
        (known_or_new-Recorded s ident now event_id u credits payload event_type _ d) gate.3 refl in
    gates_open _ _ _ e _ _ _ gate.0 gate.1 gate.2
    ∙ known-again s again later event_id event_type v credits payload _ known.0 e known.1
        (ap (λ x. str_eq x event_type) known.2 ∙ same_text _ _ gate.1)
        ((string_key_eq.beq_iff _ _).1 known.3)
