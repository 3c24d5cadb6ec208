-- ===== src/Product/Storage/Deletions.antt =====
-- The deletion queue: `_queue_deletion`, `_path_is_referenced`, `drain_deletion_queue` and the first
-- transaction of `cleanup_storage_reservations` of service.py. `storage.delete` of storage.py works
-- on the file system; what it does to each path is an argument.
use unrender.Base.{
  ℕ, ◌+◌, Bool, true, false, ◌||◌, not, Option, none, some, String, List, [], ◌∷◌, leb, max, ◌==◌,
  if◌then◌else◌,
}
use unrender.Base.Lists.{length, select, count_if}
use unrender.Base.Table.{Table, lookup, put, erase, nat_eq}
use unrender.Product.Settings.{Settings}
use unrender.Product.Schema.{Db, StorageReservation, PendingDeletion, is_value}
use unrender.Product.Tx.{Tx, ◌>>=◌, ◌>>◌, pure, gets, modify}
use unrender.Product.Admission.{insert_row}
use unrender.Product.Storage.Reservations.{with_reservations, is_some}

-- `SELECT ... WHERE storage_path=? LIMIT 1` over the three tables that own files
unfoldable pub path_is_referenced : ℕ → Db → Bool
path_is_referenced path d =
    not (count_if (λ r. r.1.storage_path == path) d.uploads == 0)
    || not (count_if (λ r. r.1.source_path == path) d.jobs == 0)
    || not (count_if (λ r. is_value r.1.storage_path path) d.storage_reservations == 0)

-- `COALESCE(?,user_id)`
abbrev coalesce : Option ℕ → Option ℕ → Option ℕ
coalesce none b = b
coalesce (some a) b = some a

abbrev pub with_deletions : Table ℕ PendingDeletion → Db → Db
with_deletions t d = record d { pending_deletions = t }

module _ (s : Settings) (now : ℕ) where
  queue_on : ℕ → String → Option ℕ → ℕ → Option PendingDeletion → Tx Unit
  queue_on path reason user byte_size (some p) = modify (λ d.
      with_deletions
        (put path
          (record p {
            user_id = coalesce user p.user_id;
            byte_size = max byte_size p.byte_size;
            reason = reason;
          })
          d.pending_deletions)
        d)
  queue_on path reason user byte_size none = insert_row s user true 0 (λ d.
      with_deletions
        (put path
          (record {
            user_id = user;
            byte_size = byte_size;
            reason = reason;
            attempts = 0;
            created_at = now;
          })
          d.pending_deletions)
        d)

  -- `byte_size` is the given size or what `stat` reports; the reasons are constants of the callers,
  -- all shorter than the 80 characters to which they are cut.
  unfoldable pub queue_deletion : ℕ → String → Option ℕ → ℕ → Tx Unit
  unfolding queue_on
  queue_deletion path reason user byte_size = do
    existing ← gets (λ d. lookup path d.pending_deletions)
    queue_on path reason user byte_size existing

  -- the body of the loop of `cleanup_storage_reservations`
  unfoldable pub expire_reservation : ℕ × StorageReservation → Tx Unit
  expire_reservation (k, r) = do
    elim r.storage_path [
      | none ↦ pure tt
      | some path ↦ queue_deletion path "expired_storage_reservation" r.user_id r.byte_count
    ]
    modify (λ d. with_reservations (erase k d.storage_reservations) d)

  unfoldable pub expire_reservations : List (ℕ × StorageReservation) → Tx Unit
  expire_reservations [] = pure tt
  expire_reservations (row ∷ rows) = do expire_reservation row; expire_reservations rows

  -- the transaction of `cleanup_storage_reservations`; the drain of the returned paths follows it
  unfoldable pub cleanup_storage_reservations : Tx ℕ
  cleanup_storage_reservations = do
    expired ← gets (λ d. select (λ r. leb r.1.expires_at now) d.storage_reservations)
    expire_reservations expired
    pure (length expired)

abbrev pub failed_again : PendingDeletion → PendingDeletion
failed_again p = record p { attempts = p.attempts + 1 }

unfoldable pub record_failure : ℕ → Option PendingDeletion → Db → Db
record_failure path none d = d
record_failure path (some p) d = with_deletions (put path (failed_again p) d.pending_deletions) d

-- What `storage.delete` does to a file: it deletes it, it deletes it and raises while it syncs the
-- directory, or it raises before.
pub data Deletion : Type 0 where
  deleted unsynced refused : Deletion

-- The files that exist.
abbrev pub Files : Type 0
Files = ℕ → Bool

abbrev pub unlink : ℕ → Files → Files
unlink path files p = if p == path then false else files p

-- One transaction of `drain_deletion_queue`: whether the row was counted, the files and the
-- database.
pub record Drained : Type 0 where
  pub counted : Bool
  pub files : Files
  pub database : Db

-- the `try`, for a path that no row refers to
abbrev pub attempted : Deletion → ℕ → Files → Db → Drained
attempted Deletion.deleted path files d = record {
  counted = is_some (lookup path d.pending_deletions);
  files = unlink path files;
  database = with_deletions (erase path d.pending_deletions) d;
}
attempted Deletion.unsynced path files d = record {
  counted = false;
  files = unlink path files;
  database = record_failure path (lookup path d.pending_deletions) d;
}
attempted Deletion.refused path files d = record {
  counted = false;
  files = files;
  database = record_failure path (lookup path d.pending_deletions) d;
}

unfoldable pub drain_path : (ℕ → Deletion) → ℕ → Files → Db → Drained
unfolding record_failure
drain_path delete path files d =
    if path_is_referenced path d
    then record {
      counted = false;
      files = files;
      database = with_deletions (erase path d.pending_deletions) d;
    }
    else attempted (delete path) path files d

-- `drain_deletion_queue` on the selected paths
unfoldable pub drain_deletion_queue : (ℕ → Deletion) → List ℕ → Files → Db → ℕ × Files × Db
unfolding drain_path
drain_deletion_queue delete [] files d = (0, files, d)
drain_deletion_queue delete (path ∷ paths) files d =
    let one = drain_path delete path files d in
    let (n, f, e) = drain_deletion_queue delete paths one.files one.database in
    ((if one.counted then 1 else 0) + n, f, e)
