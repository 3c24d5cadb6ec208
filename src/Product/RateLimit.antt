-- ===== src/Product/RateLimit.antt =====
-- The rate limiter: `rate_limit` of unrender/product/service.py. A clock reading is a number of
-- seconds.
pub mod Window
use unrender.Base.{
  ℕ, ◌+◌, ◌*◌, ◌/◌, Bool, true, false, Option, none, some, String, leb, ◌==◌, if◌then◌else◌,
}
use unrender.Base.Table.{Table, lookup, put}
use unrender.Product.Settings.{Settings}
use unrender.Product.Schema.{Db, RateKey, rate_key_eq}
use unrender.Product.Tx.{Tx, Result, ok, err, value_error}
use unrender.Product.Admission.{insert_row}

-- `limit or self.settings.rate_limit_per_minute`: None and 0 are both replaced
unfoldable pub effective_limit : Settings → Option ℕ → ℕ
effective_limit s none = s.rate_limit_per_minute
effective_limit s (some n) = if n == 0 then s.rate_limit_per_minute else n

-- `int(utcnow().timestamp()) // 60 * 60`
unfoldable pub window_of : ℕ → ℕ
window_of now = now / 60 * 60

abbrev pub rate_key : String → ℕ → RateKey
rate_key bucket now = record { bucket_key = bucket; window_start = window_of now }

abbrev pub with_count : RateKey → ℕ → Db → Db
with_count k n d = record d { rate_limits = put k n d.rate_limits }

unfoldable pub refused_or_counted : Bool → Result (Unit {0} × Db) → Db → Result (Bool × Db)
refused_or_counted fits (ok (_, e)) d = ok (fits, e)
refused_or_counted fits (err x) d = ok (false, d)

unfoldable pub count_in : Settings → ℕ → ℕ → RateKey → Option ℕ → Tx Bool
unfolding refused_or_counted
count_in s limit amount k (some n) d = ok (leb (n + amount) limit, with_count k (n + amount) d)
count_in s limit amount k none d =
    refused_or_counted (leb amount limit) (insert_row s none false 0 (with_count k amount) d) d

-- A row that may not be inserted refuses the request.
unfoldable pub rate_limit : Settings → ℕ → String → Option ℕ → ℕ → Tx Bool
unfolding count_in
rate_limit s now bucket limit amount d =
    if amount == 0
    then err value_error
    else count_in s (effective_limit s limit) amount (rate_key bucket now)
        (lookup (rate_key bucket now) d.rate_limits) d
