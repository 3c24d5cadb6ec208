-- ===== src/Chart/Json.antt =====
-- Decoded JSON, and the two checks on it of unrender/schema/validate.py: the hook `pairs` of
-- `strict_json`, and `_canonical_fields`. A number is its literal.
pub mod Pairs
use unrender.Base.{
  ℕ, Bool, true, false, ◌&&◌, ◌||◌, Option, none, some, String, List, [], ◌∷◌, if◌then◌else◌,
}
use package.text.Mathlib.Text.{◌==◌ as str_eq}

mutual
  pub data Json : Type 0 where
    null : Json
    boolean : Bool → Json
    number : String → Json
    text : String → Json
    array : Items → Json
    object : Members → Json

  pub data Items : Type 0 where
    no_item : Items
    item : Json → Items → Items

  pub data Members : Type 0 where
    no_member : Members
    member : String → Json → Members → Members

-- `value.get(key)`, where the keys are distinct
unfoldable pub get : String → Members → Option Json
get key Members.no_member = none
get key (Members.member k v ms) = if str_eq k key then some v else get key ms

abbrev pub is_present : Option Json → Bool
is_present none = false
is_present (some v) = true

-- `result[key] = value`, for a key that `result` does not have
unfoldable pub add_member : String → Json → Members → Members
add_member key value Members.no_member = Members.member key value Members.no_member
add_member key value (Members.member k v ms) = Members.member k v (add_member key value ms)

-- The loop of the hook: none for a duplicate key.
unfoldable pub pairs_from : Members → Members → Option Members
unfolding get add_member
pairs_from result Members.no_member = some result
pairs_from result (Members.member key value items) =
    let rest = pairs_from (add_member key value result) items in
    if is_present (get key result) then none else rest

unfoldable pub pairs : Members → Option Members
unfolding pairs_from
pairs items = pairs_from Members.no_member items

unfoldable pub one_of : List String → String → Bool
one_of [] key = false
one_of (k ∷ ks) key = str_eq k key || one_of ks key

-- `not (value.keys() - allowed)`
unfoldable pub keys_within : List String → Members → Bool
unfolding one_of
keys_within allowed Members.no_member = true
keys_within allowed (Members.member k v ms) = one_of allowed k && keys_within allowed ms

-- `isinstance(value, dict) and not (value.keys() - allowed)`
unfoldable pub keys : Json → List String → Bool
unfolding keys_within
keys (Json.object ms) allowed = keys_within allowed ms
keys v allowed = false

abbrev pub chart_types : List String
chart_types =
    "bar" ∷ "horizontal_bar" ∷ "grouped_bar" ∷ "stacked_bar" ∷ "line" ∷ "multi_line" ∷ "pie" ∷ []

-- `axis in obj and not keys(obj[axis], {"label", "unit"})` is false
abbrev pub axis_fits : Option Json → Bool
axis_fits none = true
axis_fits (some v) = keys v ("label" ∷ "unit" ∷ [])

-- `isinstance(value, list) and value`, and every item passes the test
abbrev pub every : (Json → Bool) → Items → Bool
every p Items.no_item = true
every p (Items.item v vs) = p v && every p vs

abbrev pub nonempty_list : (Json → Bool) → Option Json → Bool
nonempty_list p (some (Json.array (Items.item v vs))) = every p (Items.item v vs)
nonempty_list p _ = false

-- `keys(point, {"x", "y"}) and point.keys() == {"x", "y"}`
unfoldable pub point_fits : Json → Bool
unfolding get keys
point_fits (Json.object ms) =
    keys (Json.object ms) ("x" ∷ "y" ∷ []) && is_present (get "x" ms) && is_present (get "y" ms)
point_fits v = false

unfoldable pub series_fits : Json → Bool
unfolding get keys point_fits
series_fits (Json.object ms) =
    keys (Json.object ms) ("name" ∷ "points" ∷ []) && nonempty_list point_fits (get "points" ms)
series_fits v = false

abbrev pub is_chart_type : Option Json → Bool
is_chart_type (some (Json.text t)) = one_of chart_types t
is_chart_type _ = false

unfoldable pub canonical_fields : Json → Bool
unfolding get keys series_fits one_of
canonical_fields (Json.object ms) =
    keys (Json.object ms) ("chart_type" ∷ "title" ∷ "x_axis" ∷ "y_axis" ∷ "series" ∷ [])
    && axis_fits (get "x_axis" ms)
    && axis_fits (get "y_axis" ms)
    && nonempty_list series_fits (get "series" ms)
    && is_chart_type (get "chart_type" ms)
canonical_fields v = false
