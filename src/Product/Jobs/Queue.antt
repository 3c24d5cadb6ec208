-- ===== src/Product/Jobs/Queue.antt =====
-- The worker's queue: which job `claim_next_job` takes, and who holds it afterwards.
use unrender.Base.{
  ℕ, ◌<◌, ◌≤◌, ◌≡◌, ◌≢◌, ◌⊎◌, inl, inr, refl, sym, ap, subst, Bool, true, false, not, Option, none,
  some, [], ◌∷◌, arith, if◌then◌else◌, ==_iff,
}
use unrender.Base.Table.{Table, lookup, lookup-put_self, nat_eq}
use unrender.Base.Table.Keyed.{IsKeyed, lookup-head, lookup-tail}
use unrender.Product.Settings.{Settings}
use unrender.Product.Schema.{Db, Job, queued, is_status}
use unrender.Product.Tx.{ok}
use unrender.Product.Tx.Ensures.{
  Ensures, Ensures-pure, Ensures-bind, Ensures-gets_bind, Ensures-given, Ensures-if, Ensures-of_run,
}
use unrender.Product.Audit.Frame.{Ensures-audit}
use unrender.Product.Jobs.Updates.{WorkerClaim, holds_claim, claimed}
use unrender.Product.Jobs.Statements.{Ensures-update_sure}
use unrender.Product.Jobs.Worker.{claim_next_job, next_queued, comes_first, earlier, claim_of}

-- `a` is not after `b` in the order of `ORDER BY created_at,id`.
abbrev pub NotAfter : ℕ × Job → ℕ × Job → Type 0
NotAfter a b = (a.1.created_at < b.1.created_at) ⊎ ((a.1.created_at ≡ b.1.created_at) × (a.0 ≤ b.0))

NotAfter-trans : (a b c : ℕ × Job) → NotAfter a b → NotAfter b c → NotAfter a c
NotAfter-trans a b c h k = ground (arith, h, k)

comes_first-NotAfter :
    (a b : ℕ × Job)
    → (comes_first a b ≡ true → NotAfter a b) × (comes_first a b ≡ false → NotAfter b a)
unfolding comes_first
comes_first-NotAfter (k, j) (l, q) = (λ h. ground arith, λ h. ground arith)

some_row : (a b : ℕ × Job) → Option.some a ≡ Option.some b → a ≡ b
some_row a b p = cc

earlier_first :
    (a b row : ℕ × Job)
    → earlier a (some b) ≡ some row
    → NotAfter row a × NotAfter row b × ((row ≡ a) ⊎ (row ≡ b))
earlier_first a b row h = go (comes_first a b) (comes_first-NotAfter a b) h
  where
    go :
        (c : Bool)
        → ((c ≡ true → NotAfter a b) × (c ≡ false → NotAfter b a))
        → (if c then some a else some b) ≡ some row
        → NotAfter row a × NotAfter row b × ((row ≡ a) ⊎ (row ≡ b))
    go true f p =
        let same = some_row a row p in
        subst (λ x. NotAfter x a × NotAfter x b × ((x ≡ a) ⊎ (x ≡ b))) same
          (inr (refl, omega arith), f.0 refl, inl refl)
    go false f p =
        let same = some_row b row p in
        subst (λ x. NotAfter x a × NotAfter x b × ((x ≡ a) ⊎ (x ≡ b))) same
          (f.1 refl, inr (refl, omega arith), inr refl)

row_cases :
    (i : ℕ) (x : Job) (t : Table ℕ Job) (k : ℕ) (j : Job)
    → lookup k ((i, x) ∷ t) ≡ some j
    → ((i ≡ k) × (x ≡ j)) ⊎ (lookup k t ≡ some j)
unfolding lookup
row_cases i x t k j q = ground (arith, ==_iff i k)

earlier-some : (a b : ℕ × Job) → earlier a (some b) ≢ none
earlier-some a b p = go (comes_first a b) p
  where
    go : (c : Bool) → (if c then some a else some b) ≡ none → ⊥
    go true e = cc
    go false e = cc

next_queued-queued :
    (t : Table ℕ Job) (row : ℕ × Job)
    → next_queued t ≡ some row
    → is_status row.1.status queued ≡ true
unfolding next_queued
next_queued-queued [] row p = absurd (cc)
next_queued-queued ((i, x) ∷ t) row p =
    go (next_queued t) (is_status x.status queued) refl p (next_queued-queued t)
  where
    go :
        (o : Option (ℕ × Job)) (b : Bool)
        → is_status x.status queued ≡ b
        → (if b then earlier (i, x) o else o) ≡ some row
        → ((first : ℕ × Job) → o ≡ some first → is_status first.1.status queued ≡ true)
        → is_status row.1.status queued ≡ true
    go o false s p f = f row p
    go none true s p f =
        subst (λ (y : ℕ × Job). is_status y.1.status queued ≡ true) (some_row _ _ p) s
    go (some b) true s p f = elim (earlier_first (i, x) b row p).2 [
      | inl e ↦ subst (λ (y : ℕ × Job). is_status y.1.status queued ≡ true) (sym e) s
      | inr e ↦ subst (λ (y : ℕ × Job). is_status y.1.status queued ≡ true) (sym e) (f b refl)
    ]

none_queued :
    (t : Table ℕ Job) (k : ℕ) (j : Job)
    → next_queued t ≡ none
    → lookup k t ≡ some j
    → is_status j.status queued ≡ false
unfolding next_queued lookup
none_queued [] k j p q = absurd (cc)
none_queued ((i, x) ∷ t) k j p q =
    go (next_queued t) (is_status x.status queued) refl p (none_queued t k j)
      (row_cases i x t k j q)
  where
    go :
        (o : Option (ℕ × Job)) (b : Bool)
        → is_status x.status queued ≡ b
        → (if b then earlier (i, x) o else o) ≡ none
        → (o ≡ none → lookup k t ≡ some j → is_status j.status queued ≡ false)
        → ((i ≡ k) × (x ≡ j)) ⊎ (lookup k t ≡ some j)
        → is_status j.status queued ≡ false
    go o false s p f (inl (_, same)) = subst (λ (y : Job). is_status y.status queued ≡ false) same s
    go o false s p f (inr found) = f p found
    go none true s p f h = absurd (cc)
    go (some b) true s p f h = absurd (earlier-some (i, x) b p)

-- No queued row of the table comes before the one that is picked.
pub next_queued-first :
    (t : Table ℕ Job) (row : ℕ × Job) (k : ℕ) (j : Job)
    → next_queued t ≡ some row
    → lookup k t ≡ some j
    → is_status j.status queued ≡ true
    → NotAfter row (k, j)
unfolding next_queued lookup
next_queued-first [] row k j p q r = absurd (cc)
next_queued-first ((i, x) ∷ t) row k j p q r =
    go (next_queued t) (is_status x.status queued) refl p (none_queued t k j)
      (λ first e found. next_queued-first t first k j e found r) (row_cases i x t k j q)
  where
    go :
        (o : Option (ℕ × Job)) (b : Bool)
        → is_status x.status queued ≡ b
        → (if b then earlier (i, x) o else o) ≡ some row
        → (o ≡ none → lookup k t ≡ some j → is_status j.status queued ≡ false)
        → ((first : ℕ × Job) → o ≡ some first → lookup k t ≡ some j → NotAfter first (k, j))
        → ((i ≡ k) × (x ≡ j)) ⊎ (lookup k t ≡ some j)
        → NotAfter row (k, j)
    go o false s p f g (inl (_, same)) = absurd (cc (s, same, r))
    go o false s p f g (inr found) = g row p found
    go none true s p f g (inl (same_id, same)) =
        subst (λ y. NotAfter y (k, j)) (some_row _ _ p)
          (inr (ap (λ (y : Job). y.created_at) same, omega (arith, same_id)))
    go none true s p f g (inr found) = absurd (cc (f refl found, r))
    go (some b) true s p f g (inl (same_id, same)) =
        subst (NotAfter row) (λ τ. (same_id τ, same τ)) (earlier_first (i, x) b row p).0
    go (some b) true s p f g (inr found) =
        NotAfter-trans row b (k, j) (earlier_first (i, x) b row p).1 (g b refl found)

-- The row that is picked is the one that the table holds under its id.
lookup-next_queued :
    (t : Table ℕ Job) (row : ℕ × Job)
    → IsKeyed t
    → next_queued t ≡ some row
    → lookup row.0 t ≡ some row.1
unfolding next_queued lookup
lookup-next_queued [] row keyed p = absurd (cc)
lookup-next_queued ((i, x) ∷ t) row keyed p =
    go (next_queued t) (is_status x.status queued) p (lookup-next_queued t)
  where
    head : (y : ℕ × Job) → (i, x) ≡ y → lookup y.0 ((i, x) ∷ t) ≡ some y.1
    head y same =
        subst (λ (y : ℕ × Job). lookup y.0 ((i, x) ∷ t) ≡ some y.1) same (lookup-head i x t)

    tail : (y : ℕ × Job) → lookup y.0 t ≡ some y.1 → lookup y.0 ((i, x) ∷ t) ≡ some y.1
    tail y found = (lookup-tail i x y.0 y.1 t keyed.0 found).1

    go :
        (o : Option (ℕ × Job)) (b : Bool)
        → (if b then earlier (i, x) o else o) ≡ some row
        → ((first : ℕ × Job) → IsKeyed t → o ≡ some first → lookup first.0 t ≡ some first.1)
        → lookup row.0 ((i, x) ∷ t) ≡ some row.1
    go o false p f = tail row (f row keyed.1 p)
    go none true p f = head row (some_row _ _ p)
    go (some b) true p f = elim (earlier_first (i, x) b row p).2 [
      | inl e ↦ head row (sym e)
      | inr e ↦ tail row (f row keyed.1 (ap some (sym e)))
    ]

module _ (s : Settings) (ident now owner token : ℕ) (d : Db) where
  claimed-held :
      (k : ℕ) (j : Job)
      → 0 < s.worker_lease_seconds
      → holds_claim (claim_of s ident now owner token k j) now (claimed s owner token now j) ≡ true
  unfolding holds_claim claimed
  claimed-held k j h = ground arith

  -- What the caller of `claim_next_job` may rely on: with no claim there is no queued job, and with one its job was the
  -- first of the queue and is now held under the claim.
  abbrev pub Granted : Option WorkerClaim → Db → Type 0
  Granted none e = (k : ℕ) (j : Job) → lookup k d.jobs ≡ some j → is_status j.status queued ≡ false
  Granted (some c) e =
      (j : Job) × (lookup c.job_id d.jobs ≡ some j)
      × (is_status j.status queued ≡ true)
      × ((k : ℕ) (q : Job)
          → lookup k d.jobs ≡ some q
          → is_status q.status queued ≡ true
          → NotAfter (c.job_id, j) (k, q))
      × (lookup c.job_id e.jobs ≡ some (claimed s owner token now j))
      × (holds_claim c now (claimed s owner token now j) ≡ true)

  granted :
      IsKeyed d.jobs
      → 0 < s.worker_lease_seconds
      → Ensures (claim_next_job s ident now owner token) d Granted
  unfolding claim_next_job
  granted keyed lease = Ensures-gets_bind _ d _ _ (
      Ensures-given _ d (next_queued d.jobs) none _ (λ empty k j. none_queued d.jobs k j empty)
        λ row p.
          let found = lookup-next_queued d.jobs row keyed p in
          let waiting = next_queued-queued d.jobs row p in
          Ensures-bind _ d
            (λ b e. (b ≡ true) × (lookup row.0 e.jobs ≡ some (claimed s owner token now row.1))) _ _
            (Ensures-update_sure _ d row.0 _ _ row.1 found (ground (arith, waiting))
              (refl, lookup-put_self row.0 (claimed s owner token now row.1) d.jobs))
            λ b e q.
              Ensures-if _ e (not b) _ _ (λ idle. absurd (cc (q.0, idle)))
                λ _.
                  Ensures-bind _ e
                    (λ _ f. lookup row.0 f.jobs ≡ some (claimed s owner token now row.1)) _ _
                    (Ensures-audit s
                      (λ f. lookup row.0 f.jobs ≡ some (claimed s owner token now row.1)) _ _ _ _ _
                      e (λ l. q.1))
                    λ _ f r. Ensures-pure _ f _ (
                      row.1,
                      found,
                      waiting,
                      (λ k j. next_queued-first d.jobs row k j p),
                      r,
                      claimed-held row.0 row.1 lease,
                    ))

-- `claim_next_job` on a database whose jobs have distinct ids, with a lease of positive length: when it returns no claim,
-- no job is queued; when it returns one, its job was queued and no queued job came before it in the order of creation
-- time and id; the stored row is that job under the new lease, and the claim passes the test of the lease at that moment.
pub claim_next_job-first :
    (s : Settings) (ident now owner token : ℕ) (d e : Db) (o : Option WorkerClaim)
    → IsKeyed d.jobs
    → 0 < s.worker_lease_seconds
    → claim_next_job s ident now owner token d ≡ ok (o, e)
    → Granted s ident now owner token d o e
claim_next_job-first s ident now owner token d e o keyed lease p =
    Ensures-of_run _ d _ o e (granted s ident now owner token d keyed lease) p
