-- ===== src/Product/Storage/Draining.antt =====
-- The drain of the deletion queue deletes no file that a row refers to.
use unrender.Base.{◌≡◌, List}
use unrender.Base.Table.{Table, nat_eq}
use unrender.Product.Schema.{Db}

-- The rows that refer to files.
pub record SameOwners (d e : Db) : Type 0 where
  pub uploads : e.uploads ≡ d.uploads
  pub jobs : e.jobs ≡ d.jobs
  pub reservations : e.storage_reservations ≡ d.storage_reservations
