-- ===== src/Product/RateLimit/Window.antt =====
-- What a bucket may spend in one window.
use unrender.Base.{
  ℕ, ◌+◌, ◌≤◌, ◌≡◌, ◌⊎◌, inl, inr, refl, subst, ap, Bool, true, false, ◌&&◌, Option, none, some,
  String, List, [], ◌∷◌, arith, ◌==◌, if◌then◌else◌, leb, ==_iff,
}
use unrender.Base.Table.{lookup, lookup-put}
use unrender.Product.Settings.{Settings}
use unrender.Product.Schema.{Db, RateKey, rate_key_eq}
use unrender.Product.Tx.{Result, ok, err, transaction, value_error}
use unrender.Product.Tx.Ensures.{Ensures, Holds}
use unrender.Product.Admission.{insert_row}
use unrender.Product.Admission.Rules.{Ensures-insert_row}
use unrender.Product.RateLimit.{
  rate_limit, count_in, refused_or_counted, effective_limit, window_of, rate_key, with_count,
}

abbrev count_of : Option ℕ → ℕ
count_of none = 0
count_of (some n) = n

-- The requests counted in a window of a bucket.
pub used : RateKey → Db → ℕ
used k d = count_of (lookup k d.rate_limits)

-- What a request of `amount` in the window `k` leaves of the window `l`: a grant is counted and within the limit.
abbrev Counted : ℕ → ℕ → RateKey → RateKey → Bool → Db → Db → Type 0
Counted limit amount k l granted d e =
    (used l d ≤ used l e)
    × (granted ≡ true
        → rate_key_eq.beq k l ≡ true
        → (used l e ≡ used l d + amount) × (used l e ≤ limit))

used-with_count :
    (k l : RateKey) (n : ℕ) (d : Db)
    → used l (with_count k n d) ≡ (if rate_key_eq.beq k l then n else used l d)
unfolding used
used-with_count k l n d = ground (arith, lookup-put k l n d.rate_limits)

same_used : (k l : RateKey) (d : Db) → rate_key_eq.beq k l ≡ true → used k d ≡ used l d
same_used k l d h = ap (λ x. used x d) ((rate_key_eq.beq_iff k l).0 h)

with_count-Counted :
    (limit amount : ℕ) (k l : RateKey) (d : Db)
    → Counted limit amount k l
        (leb (used k d + amount) limit)
        d
        (with_count k (used k d + amount) d)
with_count-Counted limit amount k l d =
    ground (arith, used-with_count k l (used k d + amount) d, same_used k l d)

used_is : (k : RateKey) (n : ℕ) (d : Db) → lookup k d.rate_limits ≡ some n → used k d ≡ n
unfolding used
used_is k n d h = ap count_of h

used_is_none : (k : RateKey) (d : Db) → lookup k d.rate_limits ≡ none → used k d ≡ 0
unfolding used
used_is_none k d h = ap count_of h

-- A refused insertion grants nothing and changes nothing.
refused_lem :
    (limit amount : ℕ) (k l : RateKey) (fits : Bool) (d : Db) (r : Result (Unit {0} × Db))
    → Holds (λ _ e. Counted limit amount k l fits d e) r
    → Holds (λ granted e. Counted limit amount k l granted d e) (refused_or_counted fits r d)
unfolding refused_or_counted
refused_lem limit amount k l fits d (ok (_, e)) h = h
refused_lem limit amount k l fits d (err x) h = (omega arith, λ p. absurd (cc (p)))

count_in-Counted :
    (s : Settings) (limit amount : ℕ) (k l : RateKey) (o : Option ℕ) (d : Db)
    → lookup k d.rate_limits ≡ o
    → Ensures (count_in s limit amount k o) d (λ granted e. Counted limit amount k l granted d e)
unfolding count_in
count_in-Counted s limit amount k l (some n) d h = record {
  at =
      subst (λ n. Counted limit amount k l (leb (n + amount) limit) d (with_count k (n + amount) d))
        (used_is k n d h) (with_count-Counted limit amount k l d);
}
count_in-Counted s limit amount k l none d h = record {
  at =
      refused_lem limit amount k l (leb amount limit) d
        (insert_row s none false 0 (with_count k amount) d)
        (Ensures-insert_row s _ d none false 0 _ (
          subst (λ m. Counted limit amount k l (leb m limit) d (with_count k m d))
            (omega (arith, used_is_none k d h)) (with_count-Counted limit amount k l d))).at;
}

-- Whether the answer is True.
pub is_granted : Result Bool → Bool
is_granted (ok b) = b
is_granted (err x) = false

-- The requests of a run, each with its clock reading and amount: the granted amounts that fall in the window `w`.
pub granted_in : Settings → ℕ → String → Option ℕ → List (ℕ × ℕ) → Db → ℕ
granted_in s w bucket limit [] d = 0
granted_in s w bucket limit ((now, amount) ∷ rest) d =
    let done = transaction (rate_limit s now bucket limit amount) d in
    (if is_granted done.0 && window_of now == w then amount else 0)
    + granted_in s w bucket limit rest done.1

rate_limit-Counted :
    (s : Settings) (now amount : ℕ) (bucket : String) (limit : Option ℕ) (l : RateKey) (d : Db)
    → Ensures
        (rate_limit s now bucket limit amount)
        d
        (λ granted e. Counted (effective_limit s limit) amount (rate_key bucket now) l granted d e)
unfolding rate_limit
rate_limit-Counted s now amount bucket limit l d = go (amount == 0)
  where
    go :
        (b : Bool)
        → Ensures
            (λ d.
              if b
              then err value_error
              else count_in s
                  (effective_limit s limit)
                  amount
                  (rate_key bucket now)
                  (lookup (rate_key bucket now) d.rate_limits)
                  d)
            d
            (λ granted e.
              Counted (effective_limit s limit) amount (rate_key bucket now) l granted d e)
    go true = record { at = tt }
    go false = record { at = (count_in-Counted s _ amount _ l _ d refl).at }

step-Counted :
    (s : Settings) (now amount : ℕ) (bucket : String) (limit : Option ℕ) (l : RateKey) (d : Db)
    → let done = transaction (rate_limit s now bucket limit amount) d in
      Counted (effective_limit s limit) amount (rate_key bucket now) l (is_granted done.0) d done.1
unfolding transaction is_granted
step-Counted s now amount bucket limit l d =
    go (rate_limit s now bucket limit amount d)
      (rate_limit-Counted s now amount bucket limit l d).at
  where
    go :
        (r : Result (Bool × Db))
        → Holds
            (λ granted e.
              Counted (effective_limit s limit) amount (rate_key bucket now) l granted d e)
            r
        → let done = elim r as (λ _. Result Bool × Db) [
          | ok (a, e) ↦ (ok a, e)
          | err x ↦ (err x, d)
        ] in
          Counted
            (effective_limit s limit)
            amount
            (rate_key bucket now)
            l
            (is_granted done.0)
            d
            done.1
    go (ok (a, e)) h = h
    go (err x) h = (omega arith, λ p. absurd (cc (p)))

window_step :
    (granted same : Bool) (amount rest before next limit : ℕ)
    → before ≤ next
    → (granted ≡ true → same ≡ true → (next ≡ before + amount) × (next ≤ limit))
    → (rest ≡ 0) ⊎ (next + rest ≤ limit)
    → ((if granted && same then amount else 0) + rest ≡ 0)
      ⊎ (before + ((if granted && same then amount else 0) + rest) ≤ limit)
window_step true true amount rest before next limit h g (inl e) =
    inr (ground (arith, g refl refl, e))
window_step true true amount rest before next limit h g (inr e) =
    inr (ground (arith, g refl refl, e))
window_step true false amount rest before next limit h g (inl e) = inl (omega (arith, e))
window_step true false amount rest before next limit h g (inr e) = inr (omega (arith, e, h))
window_step false same amount rest before next limit h g (inl e) = inl (omega (arith, e))
window_step false same amount rest before next limit h g (inr e) = inr (omega (arith, e, h))

same_window :
    (bucket : String) (now w : ℕ)
    → (window_of now == w) ≡ true
    → rate_key_eq.beq (rate_key bucket now) (record { bucket_key = bucket; window_start = w })
      ≡ true
same_window bucket now w h =
    (rate_key_eq.beq_iff _ _).1
      (ap (λ n. record { bucket_key = bucket; window_start = n }) ((==_iff _ w).0 h))

-- Whatever the clock reports, and in whatever order the requests of a bucket come: if any of them are
-- granted in a window, what the window had counted before and the amounts granted in it do not pass the limit.
pub granted_in-limit :
    (s : Settings) (w : ℕ) (bucket : String) (limit : Option ℕ) (requests : List (ℕ × ℕ)) (d : Db)
    → (granted_in s w bucket limit requests d ≡ 0)
      ⊎ (used (record { bucket_key = bucket; window_start = w }) d
            + granted_in s w bucket limit requests d
          ≤ effective_limit s limit)
unfolding granted_in
granted_in-limit s w bucket limit [] d = inl refl
granted_in-limit s w bucket limit ((now, amount) ∷ rest) d =
    let k : RateKey = record { bucket_key = bucket; window_start = w } in
    let step = step-Counted s now amount bucket limit k d in
    let after =
      granted_in-limit s w bucket limit rest
        (transaction (rate_limit s now bucket limit amount) d).1 in
    window_step (is_granted (transaction (rate_limit s now bucket limit amount) d).0)
      (window_of now == w) amount _ (used k d) _ (effective_limit s limit) step.0
      (λ g same. step.1 g (same_window bucket now w same)) after
