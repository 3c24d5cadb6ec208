-- ===== src/Product/Audit/Capacity.antt =====
-- An audit event can be refused for want of rows only.
use unrender.Base.{ℕ, Option, none, some, String, List, [], ◌∷◌}
use unrender.Product.Settings.{Settings}
use unrender.Product.Schema.{Event}
use unrender.Product.Tx.Raises.{
  Raises, Raises-pure, Raises-gets, Raises-modify, Raises-when, Raises-bind,
}
use unrender.Product.Admission.Capacity.{IsFull, insert_row-Raises}
use unrender.Product.Audit.{
  aggregate_audit_rows, rollup_audit_events, rollup_oldest_audit_events, make_room, audit,
}

module _ (s : Settings) where
  aggregate-Raises : (u : ℕ) (rows : List Event) → Raises IsFull (aggregate_audit_rows s u rows)
  unfolding aggregate_audit_rows
  aggregate-Raises u [] = Raises-pure _ tt
  aggregate-Raises u (ev ∷ rows) =
      Raises-bind _ _ _ (Raises-modify _ _)
        λ _. Raises-bind _ _ _ (insert_row-Raises s _ _ _ _) λ _. aggregate-Raises u rows

  oldest-Raises :
      (u : ℕ) (job : Option ℕ) (n : ℕ) → Raises IsFull (rollup_oldest_audit_events s u job n)
  unfolding rollup_oldest_audit_events
  oldest-Raises u job n = Raises-bind _ _ _ (Raises-gets _ _) λ rows. aggregate-Raises u rows

  make_room-Raises : (u : ℕ) (job : Option ℕ) (now : ℕ) → Raises IsFull (make_room s u job now)
  unfolding make_room rollup_audit_events
  make_room-Raises u none now =
      Raises-bind _ _ _ (Raises-bind _ _ _ (Raises-gets _ _) λ rows. aggregate-Raises u rows) λ _.
        Raises-bind _ _ _ (Raises-gets _ _) λ m.
          Raises-bind _ _ _ (Raises-gets _ _) λ n.
            Raises-bind _ _ _ (Raises-when _ _ _ (oldest-Raises u none _)) λ _. Raises-pure _ tt
  make_room-Raises u (some k) now =
      Raises-bind _ _ _ (Raises-bind _ _ _ (Raises-gets _ _) λ rows. aggregate-Raises u rows) λ _.
        Raises-bind _ _ _ (Raises-gets _ _) λ m. Raises-bind _ _ _ (Raises-gets _ _) λ n.
          Raises-bind _ _ _ (Raises-when _ _ _ (oldest-Raises u none _))
            λ _. Raises-when _ _ _ (oldest-Raises u (some k) _)

  pub audit-Raises :
      (ident now : ℕ) (user job : Option ℕ) (event_type : String)
      → Raises IsFull (audit s ident now user job event_type)
  unfolding audit
  audit-Raises ident now none job event_type =
      Raises-bind _ _ _ (Raises-pure _ tt) λ _. insert_row-Raises s _ _ _ _
  audit-Raises ident now (some u) job event_type =
      Raises-bind _ _ _ (make_room-Raises u job now) λ _. insert_row-Raises s _ _ _ _
