-- ===== src/Product/Audit.antt =====
-- The audit log: `_audit`, `_rollup_audit_events`, `_rollup_oldest_audit_events` and
-- `_aggregate_audit_rows` of unrender/product/service.py.
pub mod Frame
pub mod Capacity
use unrender.Base.{
  ℕ, ◌+◌, ◌-◌, Bool, true, false, ◌&&◌, ◌||◌, Option, none, some, String, List, [], ◌∷◌, ◌++◌, ltb,
  leb, ◌==◌, if◌then◌else◌, min, max,
}
use unrender.Base.Lists.{count_if, select, take}
use unrender.Base.Table.{Table, lookup, put}
use unrender.Product.Settings.{Settings}
use unrender.Product.Schema.{Db, Event, Rollup, RollupKey, rollup_key_eq, AuditLog, is_value}
use unrender.Product.Tx.{Tx, ◌>>=◌, ◌>>◌, pure, gets, modify, when}
use unrender.Product.Admission.{insert_row}

-- `ORDER BY created_at,id`
event_before : Event → Event → Bool
event_before a b = ltb a.created_at b.created_at || (a.created_at == b.created_at && leb a.id b.id)

insert_event : Event → List Event → List Event
unfolding event_before
insert_event a [] = a ∷ []
insert_event a (b ∷ l) = if event_before a b then a ∷ b ∷ l else b ∷ insert_event a l

order_events : List Event → List Event
unfolding insert_event
order_events [] = []
order_events (a ∷ l) = insert_event a (order_events l)

-- `DELETE FROM audit_events WHERE id=?`
remove_event : ℕ → List Event → List Event
remove_event i [] = []
remove_event i (a ∷ l) = let rest = remove_event i l in if a.id == i then rest else a ∷ rest

-- the row that `ON CONFLICT ... DO UPDATE` leaves
merge_rollup : Event → Option Rollup → Rollup
merge_rollup ev none = record { event_count = 1; first_at = ev.created_at; last_at = ev.created_at }
merge_rollup ev (some r) = record {
  event_count = r.event_count + 1;
  first_at = min r.first_at ev.created_at;
  last_at = max r.last_at ev.created_at;
}

unfoldable pub delete_event : ℕ → AuditLog → AuditLog
unfolding remove_event
delete_event i log = record log { events = remove_event i log.events }

unfoldable pub add_rollup : ℕ → Event → AuditLog → AuditLog
unfolding merge_rollup
add_rollup u ev log =
    let k : RollupKey = record { user_id = u; job_scope = ev.job_id; event_type = ev.event_type } in
    record log { rollups = put k (merge_rollup ev (lookup k log.rollups)) log.rollups }

abbrev pub on_log : (AuditLog → AuditLog) → Db → Db
on_log f d = record d { audit_log = f d.audit_log }

module _ (s : Settings) where
  unfoldable pub aggregate_audit_rows : ℕ → List Event → Tx Unit
  aggregate_audit_rows u [] = pure tt
  aggregate_audit_rows u (ev ∷ rows) = do
    modify (on_log (delete_event ev.id))
    insert_row s (some u) true 0 (on_log (add_rollup u ev))
    aggregate_audit_rows u rows

  unfoldable pub rollup_audit_events : ℕ → ℕ → Tx Unit
  unfolding order_events
  rollup_audit_events u before = do
    rows ← gets (λ d.
        order_events
          (select (λ ev. is_value ev.user_id u && ltb ev.created_at before) d.audit_log.events))
    aggregate_audit_rows u rows

  -- `(? IS NULL OR job_id=?)`
  abbrev of_job : Option ℕ → Event → Bool
  of_job none ev = true
  of_job (some k) ev = is_value ev.job_id k

  unfoldable pub rollup_oldest_audit_events : ℕ → Option ℕ → ℕ → Tx Unit
  unfolding order_events
  rollup_oldest_audit_events u job count = do
    rows ← gets (λ d.
        take count
          (order_events (select (λ ev. is_value ev.user_id u && of_job job ev) d.audit_log.events)))
    aggregate_audit_rows u rows

  -- the retention of one user's events, for an event of that user
  make_room : ℕ → Option ℕ → ℕ → Tx Unit
  make_room u job now = do
    rollup_audit_events u (now - s.audit_retention_seconds)
    user_count ← gets (λ d. count_if (λ ev. is_value ev.user_id u) d.audit_log.events)
    job_count ← gets (λ d. elim job [
      | none ↦ 0
      | some k ↦ count_if (λ ev. is_value ev.job_id k) d.audit_log.events
    ])
    when (leb s.max_audit_events_per_user user_count)
        (rollup_oldest_audit_events u none (user_count - s.max_audit_events_per_user + 1))
    elim job [
      | none ↦ pure tt
      | some k ↦
          when (leb s.max_audit_events_per_job job_count)
            (rollup_oldest_audit_events u (some k) (job_count - s.max_audit_events_per_job + 1))
    ]

  -- `ident` is the event's fresh id; `now` stands for the clock readings of the call.
  unfoldable pub audit : ℕ → ℕ → Option ℕ → Option ℕ → String → Tx Unit
  unfolding make_room
  audit ident now user job event_type = do
    elim user [ none ↦ pure tt | some u ↦ make_room u job now ]
    insert_row s user true 0 (
        on_log λ log. record log {
          events =
              log.events
              ++ record {
                id = ident;
                user_id = user;
                job_id = job;
                event_type = event_type;
                created_at = now;
              }
                ∷ [];
        })
