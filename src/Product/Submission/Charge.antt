-- ===== src/Product/Submission/Charge.antt =====
-- What a new submission costs, and the job that it makes.
use unrender.Base.{ℕ, ◌+◌, ◌≡◌, Bool, some}
use unrender.Base.Table.{lookup, nat_eq}
use unrender.Product.Settings.{Settings}
use unrender.Product.Schema.{Db, User, ledger_key_eq, request_key_eq}
use unrender.Product.Admission.{one_if}
use unrender.Product.Submission.{Submission}

-- The account of the owner after a submission, which has paid for it.
abbrev pub HasPaid : ℕ → Bool → User → Db → Type 0
HasPaid u costs x e =
    (y : User) × (lookup u e.users ≡ some y) × (y.credit_balance + one_if costs ≡ x.credit_balance)
