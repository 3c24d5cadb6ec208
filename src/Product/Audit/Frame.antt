-- ===== src/Product/Audit/Frame.antt =====
-- The audit log writes only to its own two tables.
use unrender.Base.{ℕ, ◌≡◌, refl, subst, sym, Bool, Option, none, some, String, List, [], ◌∷◌}
use unrender.Product.Settings.{Settings}
use unrender.Product.Schema.{Db, Event, AuditLog}
use unrender.Product.Tx.{Tx, when}
use unrender.Product.Tx.Ensures.{
  Ensures, Ensures-pure, Ensures-gets_bind, Ensures-modify_bind, Ensures-bind, Ensures-when,
  Ensures-weaken,
}
use unrender.Product.Admission.Rules.{Ensures-insert_row}
use unrender.Product.Audit.{
  aggregate_audit_rows, rollup_audit_events, rollup_oldest_audit_events, make_room, audit,
}

-- All tables but those of the audit log are the same.
abbrev pub LogOnly : Db → Db → Type 0
LogOnly d e = (l : AuditLog) × (e ≡ record d { audit_log = l })

pub LogOnly-refl : (d : Db) → LogOnly d d
LogOnly-refl d = (d.audit_log, refl)

pub LogOnly-trans : (c d e : Db) → LogOnly c d → LogOnly d e → LogOnly c e
LogOnly-trans c d e (l, p) (m, q) = (m, subst (λ x. e ≡ record x { audit_log = m }) p q)

-- What follows a call that writes only to the log.
Ensures-after :
    (c d : Db) (m : Tx Unit)
    → LogOnly c d
    → Ensures m d (λ _ e. LogOnly d e)
    → Ensures m d (λ _ e. LogOnly c e)
Ensures-after c d m p h = Ensures-weaken _ _ m d h (λ _ e q. LogOnly-trans c d e p q)

module _ (s : Settings) where
  aggregate-LogOnly :
      (u : ℕ) (rows : List Event) (d : Db)
      → Ensures (aggregate_audit_rows s u rows) d (λ _ e. LogOnly d e)
  unfolding aggregate_audit_rows
  aggregate-LogOnly u [] d = Ensures-pure _ d tt (LogOnly-refl d)
  aggregate-LogOnly u (ev ∷ rows) d = Ensures-modify_bind _ d _ _ (
      Ensures-bind _ _ (λ _ e. LogOnly d e) _ _ (Ensures-insert_row s _ _ _ _ _ _ (_, refl))
        λ _ e p. Ensures-after d e _ p (aggregate-LogOnly u rows e))

  rollup_audit_events-LogOnly :
      (u before : ℕ) (d : Db) → Ensures (rollup_audit_events s u before) d (λ _ e. LogOnly d e)
  unfolding rollup_audit_events
  rollup_audit_events-LogOnly u before d = Ensures-gets_bind _ d _ _ (aggregate-LogOnly u _ d)

  rollup_oldest-LogOnly :
      (u : ℕ) (job : Option ℕ) (n : ℕ) (d : Db)
      → Ensures (rollup_oldest_audit_events s u job n) d (λ _ e. LogOnly d e)
  unfolding rollup_oldest_audit_events
  rollup_oldest-LogOnly u job n d = Ensures-gets_bind _ d _ _ (aggregate-LogOnly u _ d)

  when-LogOnly :
      (b : Bool) (m : Tx Unit) (d : Db)
      → Ensures m d (λ _ e. LogOnly d e)
      → Ensures (when b m) d (λ _ e. LogOnly d e)
  when-LogOnly b m d h = Ensures-when _ d b m (λ _. h) (λ _. LogOnly-refl d)

  make_room-LogOnly :
      (u : ℕ) (job : Option ℕ) (now : ℕ) (d : Db)
      → Ensures (make_room s u job now) d (λ _ e. LogOnly d e)
  unfolding make_room
  make_room-LogOnly u none now d =
      Ensures-bind _ d _ _ _ (rollup_audit_events-LogOnly u _ d) λ _ c p.
        Ensures-gets_bind _ c _ _ (
          Ensures-gets_bind _ c _ _ (
            Ensures-bind _ c _ _ _
              (Ensures-after d c _ p (when-LogOnly _ _ c (rollup_oldest-LogOnly u none _ c)))
              λ _ e q. Ensures-pure _ e tt q))
  make_room-LogOnly u (some k) now d =
      Ensures-bind _ d _ _ _ (rollup_audit_events-LogOnly u _ d) λ _ c p.
        Ensures-gets_bind _ c _ _ (
          Ensures-gets_bind _ c _ _ (
            Ensures-bind _ c _ _ _
              (Ensures-after d c _ p (when-LogOnly _ _ c (rollup_oldest-LogOnly u none _ c)))
              λ _ e q.
                Ensures-after d e _ q (when-LogOnly _ _ e (rollup_oldest-LogOnly u (some k) _ e))))

  pub audit-LogOnly :
      (ident now : ℕ) (user job : Option ℕ) (event_type : String) (d : Db)
      → Ensures (audit s ident now user job event_type) d (λ _ e. LogOnly d e)
  unfolding audit
  audit-LogOnly ident now none job event_type d =
      Ensures-bind _ d (λ _ e. LogOnly d e) _ _ (Ensures-pure _ d tt (LogOnly-refl d))
        λ _ e p. Ensures-after d e _ p (Ensures-insert_row s _ _ _ _ _ _ (_, refl))
  audit-LogOnly ident now (some u) job event_type d =
      Ensures-bind _ d (λ _ e. LogOnly d e) _ _ (make_room-LogOnly u job now d)
        λ _ e p. Ensures-after d e _ p (Ensures-insert_row s _ _ _ _ _ _ (_, refl))

  -- The rule for a call of `_audit` at the end of a transaction.
  pub Ensures-audit :
      (Q : Db → Type 0) (ident now : ℕ) (user job : Option ℕ) (event_type : String) (d : Db)
      → ((l : AuditLog) → Q (record d { audit_log = l }))
      → Ensures (audit s ident now user job event_type) d (λ _ e. Q e)
  Ensures-audit Q ident now user job event_type d h =
      Ensures-weaken _ _ _ d (audit-LogOnly ident now user job event_type d)
        λ _ e p. subst Q (sym p.1) (h p.0)
