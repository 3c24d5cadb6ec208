-- ===== src/Chart/Repair.antt =====
-- The formatting repair of unrender/schema/validate.py: `_complete_object` and `repair_json`. A text
-- is the list of its code points. What Python knows of Unicode (`str.isspace`, and the regular
-- expression for digits and JSON words) is a parameter.
pub mod Extracted
pub mod Commas
use unrender.Base.{
  ℕ, Bool, true, false, ◌&&◌, ◌||◌, not, Option, none, some, List, [], ◌∷◌, ◌++◌, ◌==◌,
  if◌then◌else◌,
}

abbrev pub Text : Type 0
Text = List ℕ

-- `str.isspace` of one character, and `re.search(r"\d|\b(?:true|false|null|NaN|Infinity)\b", s)`
pub record Unicode : Type 0 where
  pub isspace : ℕ → Bool
  pub mentions_value : Text → Bool

abbrev pub any_of : (ℕ → Bool) → Text → Bool
any_of p [] = false
any_of p (c ∷ t) = p c || any_of p t

-- `ch in '{}[]"'`
abbrev pub is_delimiter : ℕ → Bool
is_delimiter c = c == b'{' || c == b'}' || c == b'[' || c == b']' || c == b'"'

abbrev pub is_opening : ℕ → Bool
is_opening c = c == b'{' || c == b'['

abbrev pub is_closing : ℕ → Bool
is_closing c = c == b'}' || c == b']'

-- `"{" if char == "}" else "["`
abbrev pub opening_of : ℕ → ℕ
opening_of c = if c == b'}' then b'{' else b'['

-- `in_string` and `escaped`
pub data Mode : Type 0 where
  outside in_string escaped : Mode

-- Both flags after a character inside a string.
abbrev pub string_mode : Mode → ℕ → Mode
string_mode Mode.escaped c = Mode.in_string
string_mode m c =
    if c == b'\\' then Mode.escaped else if c == b'"' then Mode.outside else Mode.in_string

abbrev pub next_mode : Mode → ℕ → Mode
next_mode Mode.outside c = if c == b'"' then Mode.in_string else Mode.outside
next_mode m c = string_mode m c

pub data Step : Type 0 where
  mismatch : Step
  complete : Step
  onward : Mode → List ℕ → Step

-- `not stack or stack.pop() != ...`, and `if not stack` after the pop
abbrev pub pop : ℕ → List ℕ → Step
pop c [] = Step.mismatch
pop c (o ∷ stack) =
    if not (o == opening_of c)
    then Step.mismatch
    else elim stack [ [] ↦ Step.complete | p ∷ rest ↦ Step.onward Mode.outside (p ∷ rest) ]

-- One round of the loop over the characters.
abbrev pub step : Mode → List ℕ → ℕ → Step
step Mode.outside stack c =
    if c == b'"'
    then Step.onward Mode.in_string stack
    else if is_opening c
    then Step.onward Mode.outside (c ∷ stack)
    else if is_closing c
    then pop c stack
    else Step.onward Mode.outside stack
step m stack c = Step.onward (string_mode m c) stack

abbrev pub prepend : ℕ → Option (Text × Text) → Option (Text × Text)
prepend c none = none
prepend c (some (object, suffix)) = some (c ∷ object, suffix)

-- The characters up to the one that completes the object, and those after it.
unfoldable pub balanced : Mode → List ℕ → Text → Option (Text × Text)
balanced m stack [] = none
balanced m stack (c ∷ t) = elim (step m stack c) [
  | Step.mismatch ↦ none
  | Step.complete ↦ some (c ∷ [], t)
  | Step.onward m' stack' ↦ prepend c (balanced m' stack' t)
]

-- `text.find("{")`: the characters before the first brace, and those from it
unfoldable pub find_brace : Text → Option (Text × Text)
find_brace [] = none
find_brace (c ∷ t) =
    let rest = prepend c (find_brace t) in if c == b'{' then some ([], c ∷ t) else rest

module _ (py : Unicode) where
  -- a prefix that is not plain prose
  abbrev pub ambiguous_prefix : Text → Bool
  ambiguous_prefix prefix = any_of is_delimiter prefix || py.mentions_value prefix

  abbrev pub ambiguous_suffix : Text → Bool
  ambiguous_suffix suffix =
      any_of (λ c. is_delimiter c || c == b':' || c == b',') suffix || py.mentions_value suffix

  -- the object, unless the characters after it make it ambiguous
  abbrev pub object_or : Text → Option (Text × Text) → Text
  object_or text none = text
  object_or text (some (object, suffix)) = if ambiguous_suffix suffix then text else object

  abbrev pub complete_from : Text → Option (Text × Text) → Text
  complete_from text none = text
  complete_from text (some (prefix, rest)) =
      if ambiguous_prefix prefix then text else object_or text (balanced Mode.outside [] rest)

  unfoldable pub complete_object : Text → Text
  unfolding find_brace balanced
  complete_object text = complete_from text (find_brace text)

  -- `following` moved past white space: whether the next character closes a container
  unfoldable pub closes_next : Text → Bool
  closes_next [] = false
  closes_next (c ∷ t) = let rest = closes_next t in if py.isspace c then rest else is_closing c

  -- a comma outside strings that a closing character follows
  abbrev pub is_dropped : Mode → ℕ → Text → Bool
  is_dropped Mode.outside c t = c == b',' && closes_next t
  is_dropped m c t = false

  unfoldable pub remove_commas : Mode → Text → Text
  unfolding closes_next
  remove_commas m [] = []
  remove_commas m (c ∷ t) =
      let rest = remove_commas (next_mode m c) t in if is_dropped m c t then rest else c ∷ rest

  -- `raw.strip()`
  unfoldable pub lstrip : Text → Text
  lstrip [] = []
  lstrip (c ∷ t) = let rest = lstrip t in if py.isspace c then rest else c ∷ t

  unfoldable pub rstrip : Text → Text
  rstrip [] = []
  rstrip (c ∷ t) = elim (rstrip t) [ [] ↦ if py.isspace c then [] else c ∷ [] | e ∷ r ↦ c ∷ e ∷ r ]

  unfoldable pub strip : Text → Text
  unfolding lstrip rstrip
  strip t = rstrip (lstrip t)

  unfoldable pub repair_json : Text → Text
  unfolding strip
  repair_json raw = remove_commas Mode.outside (complete_object (strip raw))
