-- ===== src/Product/Review/Latest.antt =====
-- The latest version of a job, before and after a new one.
use unrender.Base.{ℕ, ◌<◌, ◌≤◌, ◌≡◌, ◌≢◌, none, some, [], ◌∷◌, arith, ◌==◌}
use unrender.Base.Lists.{count_if}
use unrender.Base.Table.{Table, lookup, put}
use unrender.Product.Schema.{Version, VersionKey, version_key_eq}
use unrender.Product.Storage.{latest_version}
use unrender.Product.Review.Snapshot.{latest_row}
use unrender.Product.Review.Corrections.{version_key}

-- No version has this id.
abbrev pub IsUnused : ℕ → Table VersionKey Version → Type 0
IsUnused i t = count_if (λ r. r.1.id == i) t ≡ 0

latest_version-le :
    (u k : ℕ) (key : VersionKey) (v : Version) (t : Table VersionKey Version)
    → latest_version u k t ≤ latest_version u k ((key, v) ∷ t)
unfolding latest_version
latest_version-le u k key v t = ground arith

-- A version with a higher number is the latest one.
pub latest_row-put :
    (u k n : ℕ) (v : Version) (t : Table VersionKey Version)
    → lookup (version_key k n) t ≡ none
    → v.user_id ≡ u
    → latest_version u k t < n
    → latest_row u k (put (version_key k n) v t) ≡ some (n, v)
unfolding latest_row latest_version lookup put
latest_row-put u k n v [] h o l = ground arith
latest_row-put u k n v ((key, w) ∷ t) h o l =
    ground (arith, latest_row-put u k n v t, version_key_eq.beq_iff key (version_key k n))

-- The latest version is one of the rows.
pub latest_row-ne-unused :
    (u k i n : ℕ) (v : Version) (t : Table VersionKey Version)
    → IsUnused i t
    → latest_row u k t ≡ some (n, v)
    → v.id ≢ i
unfolding latest_row
latest_row-ne-unused u k i n v [] h p = ground arith
latest_row-ne-unused u k i n v ((key, w) ∷ t) h p = ground (arith, latest_row-ne-unused u k i n v t)
