-- ===== src/Chart/Repair/Extracted.antt =====
-- One balanced object in plain prose is found whole: nothing of it is lost, whatever its strings hold.
use unrender.Base.{
  ℕ, ◌≡◌, refl, sym, ap, ◌∙◌, Bool, false, ◌||◌, Option, some, List, [], ◌∷◌, ◌++◌, arith, ◌==◌,
}
use unrender.Chart.Repair.{
  Text, Unicode, Mode, prepend, balanced, find_brace, any_of, is_delimiter, is_opening, is_closing,
  ambiguous_prefix, ambiguous_suffix, complete_object, complete_from, object_or,
}

-- What follows the opening quote of a string, up to its closing quote.
pub data Quoted : Text → Type 0 where
  close : Quoted (b'"' ∷ [])
  char : {t : Text} (c : ℕ) → (c == b'"') ≡ false → (c == b'\\') ≡ false → Quoted t → Quoted (c ∷ t)
  escape : {t : Text} (c : ℕ) → Quoted t → Quoted (b'\\' ∷ c ∷ t)

-- Texts whose braces and brackets match, but for those inside strings.
pub data Nested : Text → Type 0 where
  nil : Nested []
  plain : {t : Text} (c : ℕ) → is_delimiter c ≡ false → Nested t → Nested (c ∷ t)
  quoted : {s t : Text} → Quoted s → Nested t → Nested (b'"' ∷ (s ++ t))
  braces : {s t : Text} → Nested s → Nested t → Nested (b'{' ∷ (s ++ (b'}' ∷ t)))
  brackets : {s t : Text} → Nested s → Nested t → Nested (b'[' ∷ (s ++ (b']' ∷ t)))

abbrev pub prepend_all : Text → Option (Text × Text) → Option (Text × Text)
prepend_all [] o = o
prepend_all (c ∷ t) o = prepend c (prepend_all t o)

prepend_all-append :
    (s t : Text) (o : Option (Text × Text))
    → prepend_all (s ++ t) o ≡ prepend_all s (prepend_all t o)
prepend_all-append [] t o = refl
prepend_all-append (c ∷ s) t o = ap (prepend c) (prepend_all-append s t o)

append_assoc : (s t r : Text) → (s ++ t) ++ r ≡ s ++ (t ++ r)
append_assoc [] t r = refl
append_assoc (c ∷ s) t r = ap (λ (x : Text). c ∷ x) (append_assoc s t r)

balanced-Quoted :
    {s : Text} (q : Quoted s) (stack : List ℕ) (r : Text)
    → balanced Mode.in_string stack (s ++ r) ≡ prepend_all s (balanced Mode.outside stack r)
unfolding balanced
balanced-Quoted close stack r = refl
balanced-Quoted (char c p h q) stack r = rw (h, p) (ap (prepend c) (balanced-Quoted q stack r))
balanced-Quoted (escape c q) stack r =
    ap (λ o. prepend b'\\' (prepend c o)) (balanced-Quoted q stack r)

plain-tests :
    (c : ℕ)
    → is_delimiter c ≡ false
    → ((c == b'"') ≡ false) × (is_opening c ≡ false) × (is_closing c ≡ false)
plain-tests c h = ground arith

-- A nested text leaves a stack that is not empty as it was.
balanced-Nested :
    {s : Text} (n : Nested s) (o : ℕ) (stack : List ℕ) (r : Text)
    → balanced Mode.outside (o ∷ stack) (s ++ r)
      ≡ prepend_all s (balanced Mode.outside (o ∷ stack) r)
unfolding balanced
balanced-Nested nil o stack r = refl
balanced-Nested (plain {t} c p n) o stack r =
    ground (arith, plain-tests c p, balanced-Nested n o stack r)
balanced-Nested (quoted {s} {t} q n) o stack r = rw (append_assoc s t r) (
    ap (prepend b'"') (
      balanced-Quoted q (o ∷ stack) (t ++ r)
      ∙ ap (prepend_all s) (balanced-Nested n o stack r)
      ∙ sym (prepend_all-append s t _)))
balanced-Nested (braces {s} {t} m n) o stack r = rw (append_assoc s (b'}' ∷ t) r) (
    ap (prepend b'{') (
      balanced-Nested m b'{' (o ∷ stack) (b'}' ∷ (t ++ r))
      ∙ ap (λ x. prepend_all s (prepend b'}' x)) (balanced-Nested n o stack r)
      ∙ sym (prepend_all-append s (b'}' ∷ t) _)))
balanced-Nested (brackets {s} {t} m n) o stack r = rw (append_assoc s (b']' ∷ t) r) (
    ap (prepend b'[') (
      balanced-Nested m b'[' (o ∷ stack) (b']' ∷ (t ++ r))
      ∙ ap (λ x. prepend_all s (prepend b']' x)) (balanced-Nested n o stack r)
      ∙ sym (prepend_all-append s (b']' ∷ t) _)))

-- An object: braces round a nested text.
abbrev pub object_of : Text → Text
object_of s = b'{' ∷ (s ++ (b'}' ∷ []))

prepend_all-some : (s t r : Text) → prepend_all s (some (t, r)) ≡ some (s ++ t, r)
prepend_all-some [] t r = refl
prepend_all-some (c ∷ s) t r = ap (prepend c) (prepend_all-some s t r)

object-found :
    {s : Text} (n : Nested s) (r : Text)
    → balanced Mode.outside [] (object_of s ++ r) ≡ some (object_of s, r)
unfolding balanced
object-found {s} n r = rw (append_assoc s (b'}' ∷ []) r) (
    ap (prepend b'{') (balanced-Nested n b'{' [] (b'}' ∷ r))
    ∙ ap (prepend b'{') (prepend_all-some s (b'}' ∷ []) r))

brace-found :
    (prefix r : Text)
    → any_of is_delimiter prefix ≡ false
    → find_brace (prefix ++ (b'{' ∷ r)) ≡ some (prefix, b'{' ∷ r)
unfolding find_brace
brace-found [] r h = refl
brace-found (c ∷ prefix) r h = ground (arith, brace-found prefix r)

or-left : (a b : Bool) → (a || b) ≡ false → a ≡ false
or-left a b h = ground arith

-- A balanced object is found whole in any prose round it that holds no JSON delimiter and no value: the
-- strings inside the object may hold every character, braces, brackets and escaped quotes too.
pub complete_object-lem :
    (py : Unicode) (prefix s suffix : Text)
    → Nested s
    → ambiguous_prefix py prefix ≡ false
    → ambiguous_suffix py suffix ≡ false
    → complete_object py (prefix ++ (object_of s ++ suffix)) ≡ object_of s
unfolding complete_object
complete_object-lem py prefix s suffix n p q =
    let text : Text = prefix ++ (object_of s ++ suffix) in
    ap (complete_from py text) (brace-found prefix ((s ++ (b'}' ∷ [])) ++ suffix) (or-left _ _ p))
    ∙ rw p (ap (object_or py text) (object-found n suffix) ∙ rw q)
