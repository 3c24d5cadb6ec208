-- ===== src/Base/Table/Keyed.antt =====
-- Tables whose rows have distinct keys, as a PRIMARY KEY keeps them.
use unrender.Base.Tests.{if◌then◌else◌}
use unrender.Base.Lists.{select}
use unrender.Base.Table.{Eq, Table, lookup, put, lookup-put}
use mathlib.Core.Path.{◌≡◌, refl, subst}
use mathlib.Core.Logic.{◌≢◌}
use mathlib.Core.Bool.{Bool, true, false}
use mathlib.Core.Option.{none, some}
use mathlib.Core.List.{[], ◌∷◌}
use native.Mathlib.Omega.{arith}

module _ {ℓ} {K : Type ℓ} ⦃e : Eq K⦄ where
  differ : (j k : K) → e.beq j k ≡ false → e.beq k j ≡ false
  differ j k h = ground (arith, e.beq_iff j k, e.beq_iff k j)

module _ {ℓ κ} {K : Type ℓ} {R : Type κ} ⦃e : Eq K⦄ where
  abbrev pub IsKeyed : Table K R → Type (ℓ ⊔ κ)
  IsKeyed [] = Unit
  IsKeyed ((k, r) ∷ t) = (lookup k t ≡ none) × IsKeyed t

  if-IsKeyed :
      (b : Bool) (t u : Table K R)
      → (b ≡ true → IsKeyed t)
      → (b ≡ false → IsKeyed u)
      → IsKeyed (if b then t else u)
  if-IsKeyed true t u h k = h refl
  if-IsKeyed false t u h k = k refl

  put_other :
      (k j : K) (r : R) (t : Table K R)
      → e.beq k j ≡ false
      → lookup j t ≡ none
      → lookup j (put k r t) ≡ none
  put_other k j r t h p = ground (arith, lookup-put k j r t)

  pub put-IsKeyed : (k : K) (r : R) (t : Table K R) → IsKeyed t → IsKeyed (put k r t)
  unfolding put lookup
  put-IsKeyed k r [] h = (refl, tt)
  put-IsKeyed k r ((j, q) ∷ t) h =
      if-IsKeyed (e.beq j k) _ _
        (λ same. (subst (λ i. lookup i t ≡ none) ((e.beq_iff j k).0 same) h.0, h.1))
        λ other. (put_other k j r t (differ j k other) h.0, put-IsKeyed k r t h.1)

  -- The selected rows of such a table have distinct keys too, and each is found under its key.
  select-fresh :
      (p : K × R → Bool) (k : K) (t : Table K R) → lookup k t ≡ none → lookup k (select p t) ≡ none
  unfolding lookup
  select-fresh p k [] h = refl
  select-fresh p k ((j, q) ∷ t) h = ground (arith, select-fresh p k t)

  pub select-IsKeyed : (p : K × R → Bool) (t : Table K R) → IsKeyed t → IsKeyed (select p t)
  select-IsKeyed p [] h = tt
  select-IsKeyed p ((j, q) ∷ t) h =
      if-IsKeyed (p (j, q)) _ _ (λ _. (select-fresh p j t h.0, select-IsKeyed p t h.1))
        λ _. select-IsKeyed p t h.1

  pub lookup-select :
      (p : K × R → Bool) (k : K) (r : R) (t : Table K R)
      → IsKeyed t
      → lookup k (select p t) ≡ some r
      → lookup k t ≡ some r
  unfolding lookup
  lookup-select p k r [] h q = q
  lookup-select p k r ((j, x) ∷ t) h q =
      ground (arith, lookup-select p k r t, select-fresh p k t, e.beq_iff j k, h.0)

  pub lookup-select_hit :
      (p : K × R → Bool) (k : K) (r : R) (t : Table K R)
      → IsKeyed t
      → lookup k t ≡ some r
      → p (k, r) ≡ true
      → lookup k (select p t) ≡ some r
  unfolding lookup
  lookup-select_hit p k r [] h q s = q
  lookup-select_hit p k r ((j, x) ∷ t) h q s =
      ground (arith, lookup-select_hit p k r t h.1, e.beq_iff j k, q, s)

  pub select-holds :
      (p : K × R → Bool) (k : K) (r : R) (t : Table K R)
      → lookup k (select p t) ≡ some r
      → p (k, r) ≡ true
  unfolding lookup
  select-holds p k r [] q = absurd (cc (q))
  select-holds p k r ((j, x) ∷ t) q = ground (arith, select-holds p k r t, e.beq_iff j k, q)

  -- The first row of a keyed table, and the rows that follow it.
  pub lookup-head : (k : K) (r : R) (t : Table K R) → lookup k ((k, r) ∷ t) ≡ some r
  unfolding lookup
  lookup-head k r t = ground (arith, e.beq_iff k k)

  pub lookup-tail :
      (k : K) (r : R) (i : K) (x : R) (t : Table K R)
      → lookup k t ≡ none
      → lookup i t ≡ some x
      → (k ≢ i) × (lookup i ((k, r) ∷ t) ≡ some x)
  unfolding lookup
  lookup-tail k r i x t h q = (λ p. cc (h, q, p), ground (arith, h, q, e.beq_iff k i))
