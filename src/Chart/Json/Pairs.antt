-- ===== src/Chart/Json/Pairs.antt =====
-- The hook for objects keeps the members as they are written, and refuses a repeated key.
use unrender.Base.{
  ◌≡◌, refl, ap, Bool, true, false, none, some, String, arith, Bool-cases, inl, inr, if◌then◌else◌,
}
use package.text.Mathlib.TextEquality.{eq_iff}
use unrender.Chart.Json.{Json, Members, get, is_present, add_member, pairs_from, pairs}

abbrev pub append : Members → Members → Members
append Members.no_member ns = ns
append (Members.member k v ms) ns = Members.member k v (append ms ns)

-- No key of `items` is one of `seen` or stands twice.
unfoldable pub are_distinct : Members → Members → Bool
are_distinct seen Members.no_member = true
are_distinct seen (Members.member k v items) =
    let rest = are_distinct (Members.member k v seen) items in
    if is_present (get k seen) then false else rest

add_member-append :
    (k : String) (v : Json) (ms : Members)
    → add_member k v ms ≡ append ms (Members.member k v Members.no_member)
unfolding add_member
add_member-append k v Members.no_member = refl
add_member-append k v (Members.member j w ms) =
    ap (λ (x : Members). Members.member j w x) (add_member-append k v ms)

append_assoc : (a b c : Members) → append (append a b) c ≡ append a (append b c)
append_assoc Members.no_member b c = refl
append_assoc (Members.member k v a) b c =
    ap (λ (x : Members). Members.member k v x) (append_assoc a b c)

append-none : (a : Members) → append a Members.no_member ≡ a
append-none Members.no_member = refl
append-none (Members.member k v a) = ap (λ (x : Members). Members.member k v x) (append-none a)

-- Whether a key is there depends on neither the order of the members nor the values.
present-add :
    (k j : String) (v : Json) (ms : Members)
    → is_present (get j (add_member k v ms)) ≡ is_present (get j (Members.member k v ms))
unfolding get add_member
present-add k j v Members.no_member = refl
present-add k j v (Members.member i w ms) =
    ground (arith, present-add k j v ms, eq_iff i j, eq_iff k j)

abbrev pub SameKeys : Members → Members → Type 0
SameKeys a b = (j : String) → is_present (get j a) ≡ is_present (get j b)

SameKeys-member :
    (k : String) (v : Json) (a b : Members)
    → SameKeys a b
    → SameKeys (add_member k v a) (Members.member k v b)
unfolding get
SameKeys-member k v a b h j = ground (arith, present-add k j v a, h j)

pairs_from-lem :
    (result seen items : Members)
    → SameKeys result seen
    → pairs_from result items
      ≡ (if are_distinct seen items then some (append result items) else none)
unfolding pairs_from are_distinct
pairs_from-lem result seen Members.no_member h = rw (append-none result)
pairs_from-lem result seen (Members.member k v items) h =
    elim (Bool-cases (is_present (get k seen))) [
      | inl e ↦ rw (h k, e)
      | inr e ↦
          rw
            (
              h k,
              e,
              pairs_from-lem (add_member k v result) (Members.member k v seen) items
                  (SameKeys-member k v result seen h),
              add_member-append k v result,
              append_assoc result (Members.member k v Members.no_member) items,
            )
            refl
    ]

-- The hook returns the members as they were written if no key stands twice, and refuses the object
-- otherwise.
pub pairs-distinct :
    (items : Members)
    → pairs items ≡ (if are_distinct Members.no_member items then some items else none)
unfolding pairs
pairs-distinct items = pairs_from-lem Members.no_member Members.no_member items (λ j. refl)
