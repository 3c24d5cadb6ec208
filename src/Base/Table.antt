-- ===== src/Base/Table.antt =====
-- A database table as an association list on its PRIMARY KEY (or on its UNIQUE columns), in
-- insertion order. `put` is the effect of an UPDATE of the row with that key, or of an INSERT.
pub mod Keyed
use Prim.Native.Nat.{ℕ, ◌+◌, ◌≤◌}
use mathlib.Core.Path.{◌≡◌, refl}
use mathlib.Core.Logic.{◌↔◌, ◌≢◌}
use mathlib.Core.Bool.{Bool, true}
use mathlib.Core.Option.{Option, none, some}
use mathlib.Core.List.{List, [], ◌∷◌}
use native.Mathlib.Omega.{arith}
use unrender.Base.Tests.{if◌then◌else◌, ◌==◌ as nat_beq, ==_iff}

-- Equality of keys, as the program's comparisons decide it.
pub record Eq {ℓ} (A : Type ℓ) : Type ℓ where
  pub beq : A → A → Bool
  pub beq_iff : (a b : A) → (beq a b ≡ true) ↔ (a ≡ b)

instance abbrev pub nat_eq : Eq ℕ
nat_eq = record { beq = nat_beq; beq_iff = ==_iff }

abbrev pub Table {ℓ κ} : Type ℓ → Type κ → Type (ℓ ⊔ κ)
Table K R = List (K × R)

module _ {ℓ κ} {K : Type ℓ} {R : Type κ} where
  -- A column summed over the rows.
  unfoldable pub sum : (K → R → ℕ) → Table K R → ℕ
  sum f [] = 0
  sum f ((j, q) ∷ t) = f j q + sum f t

module _ {ℓ κ} {K : Type ℓ} {R : Type κ} ⦃e : Eq K⦄ where
  unfoldable pub lookup : K → Table K R → Option R
  lookup k [] = none
  lookup k ((j, r) ∷ t) = if e.beq j k then some r else lookup k t

  unfoldable pub put : K → R → Table K R → Table K R
  put k r [] = (k, r) ∷ []
  put k r ((j, q) ∷ t) = if e.beq j k then (k, r) ∷ t else (j, q) ∷ put k r t

  -- `DELETE ... WHERE key=?`
  unfoldable pub erase : K → Table K R → Table K R
  erase k [] = []
  erase k ((j, q) ∷ t) = let rest = erase k t in if e.beq j k then rest else (j, q) ∷ rest

  pub lookup-put :
      (k j : K) (r : R) (t : Table K R)
      → lookup j (put k r t) ≡ (if e.beq k j then some r else lookup j t)
  unfolding lookup put
  lookup-put k j r [] = refl
  lookup-put k j r ((i, q) ∷ t) =
      ground (arith, e.beq_iff k j, e.beq_iff i k, e.beq_iff i j, lookup-put k j r t)

  pub lookup-put_self : (k : K) (r : R) (t : Table K R) → lookup k (put k r t) ≡ some r
  lookup-put_self k r t = ground (arith, lookup-put k k r t, e.beq_iff k k)

  pub lookup-put_ne : (k j : K) (r : R) (t : Table K R) → k ≢ j → lookup j (put k r t) ≡ lookup j t
  lookup-put_ne k j r t h = ground (arith, lookup-put k j r t, e.beq_iff k j)

  pub lookup-erase :
      (k j : K) (t : Table K R) → lookup j (erase k t) ≡ (if e.beq k j then none else lookup j t)
  unfolding lookup erase
  lookup-erase k j [] = ground arith
  lookup-erase k j ((i, q) ∷ t) =
      ground (arith, e.beq_iff k j, e.beq_iff i k, e.beq_iff i j, lookup-erase k j t)

  -- An update moves a sum by what it changes in its row.
  pub sum-put :
      (f : K → R → ℕ) (k : K) (r q : R) (t : Table K R)
      → lookup k t ≡ some q
      → sum f (put k r t) + f k q ≡ sum f t + f k r
  unfolding lookup put sum
  sum-put f k r q [] h = ground arith
  sum-put f k r q ((i, p) ∷ t) h = ground (arith, e.beq_iff i k, sum-put f k r q t)

  -- An insertion adds its row's share.
  pub sum-put_new :
      (f : K → R → ℕ) (k : K) (r : R) (t : Table K R)
      → lookup k t ≡ none
      → sum f (put k r t) ≡ sum f t + f k r
  unfolding lookup put sum
  sum-put_new f k r [] h = omega arith
  sum-put_new f k r ((i, p) ∷ t) h = ground (arith, sum-put_new f k r t)

  -- A row's share is part of the sum.
  pub le-sum_of_lookup :
      (f : K → R → ℕ) (k : K) (q : R) (t : Table K R) → lookup k t ≡ some q → f k q ≤ sum f t
  unfolding lookup sum
  le-sum_of_lookup f k q [] h = ground arith
  le-sum_of_lookup f k q ((i, p) ∷ t) h = ground (arith, e.beq_iff i k, le-sum_of_lookup f k q t)
