-- ===== src/Extensions/Json.antt =====
-- internal/extensions/extensions.go: the JSON form of a registry, and its column in the database.
-- The text of JSON is the standard library's; a value is what `json.Unmarshal` gives as `any`.
-- A registry here is a slice that is not nil. `UnmarshalJSON` mutates its receiver, so it returns the
-- registry beside the error.
use mathlib.Core.Logic.{◌↔◌}
use microcluster.Prelude.{
  Str, ◌≡◌, ◌⊎◌, inl, inr, refl, ap, Bool, Option, none, some, List, [], ◌∷◌, arith,
}
use microcluster.Extensions.{Extensions}
use microcluster.Extensions.Names.{Error, bad_item, bad_value}

mutual
  pub data Json : Type 0 where
    null : Json
    boolean : Bool → Json
    number : Str → Json
    string : Str → Json
    array : Items → Json
    object : Fields → Json

  pub data Items : Type 0 where
    no_items : Items
    item : Json → Items → Items

  pub data Fields : Type 0 where
    no_fields : Fields
    field : Str → Json → Fields → Fields

-- `json.Marshal` of a slice of strings.
string_items : List Str → Items
string_items [] = no_items
string_items (x ∷ l) = item (string x) (string_items l)

unfoldable pub marshal_json : Extensions → Json
unfolding string_items
marshal_json (x ∷ []) = string x
marshal_json e = array (string_items e)

-- `make(Extensions, n)`: empty strings.
blank : Items → Extensions
blank no_items = []
blank (item v r) = [] ∷ blank r

-- The loop of `UnmarshalJSON`: at an item that is no string it stops, and the rest stays blank.
fill : Items → Extensions × Option Error
unfolding blank
fill no_items = ([], none)
fill (item (string s) r) = let (l, e) = fill r in (s ∷ l, e)
fill (item null r) = ([] ∷ blank r, some bad_item)
fill (item (boolean b) r) = ([] ∷ blank r, some bad_item)
fill (item (number n) r) = ([] ∷ blank r, some bad_item)
fill (item (array xs) r) = ([] ∷ blank r, some bad_item)
fill (item (object fs) r) = ([] ∷ blank r, some bad_item)

unfoldable pub unmarshal_json : Extensions → Json → Extensions × Option Error
unfolding fill
unmarshal_json e (string s) = (s ∷ [], none)
unmarshal_json e (array xs) = fill xs
unmarshal_json e _ = (e, some bad_value)

-- `Value`: an empty registry is stored as `[]`.
unfoldable pub value : Extensions → Json
unfolding marshal_json
value [] = array no_items
value e = marshal_json e

-- `Scan`: NULL empties the receiver.
scan : Extensions → Option Json → Extensions × Option Error
unfolding unmarshal_json
scan e none = ([], none)
scan e (some v) = unmarshal_json e v

fill-string_items : (l : List Str) → fill (string_items l) ≡ (l, none)
unfolding fill string_items
fill-string_items [] = refl
fill-string_items (x ∷ l) = ground (arith, fill-string_items l)

-- Reading what was written gives the registry back, whatever the receiver held.
pub unmarshal-marshal : (e f : Extensions) → unmarshal_json f (marshal_json e) ≡ (e, none)
unfolding unmarshal_json marshal_json
unmarshal-marshal [] f = refl
unmarshal-marshal (x ∷ []) f = refl
unmarshal-marshal (x ∷ y ∷ e) f = fill-string_items (x ∷ y ∷ e)

-- A registry that is stored in its column is read back as it was.
scan-value : (e f : Extensions) → scan f (some (value e)) ≡ (e, none)
unfolding scan value
scan-value [] f = refl
scan-value (x ∷ e) f = unmarshal-marshal (x ∷ e) f

fill_sound : (xs : Items) (l : Extensions) → fill xs ≡ (l, none) → xs ≡ string_items l
unfolding fill string_items
fill_sound no_items [] h = refl
fill_sound no_items (y ∷ l) h = ground arith
fill_sound (item (string s) r) [] h = ground arith
fill_sound (item (string s) r) (y ∷ l) h = ground (arith, fill_sound r l)
fill_sound (item null r) l h = ground arith
fill_sound (item (boolean b) r) l h = ground arith
fill_sound (item (number n) r) l h = ground arith
fill_sound (item (array xs) r) l h = ground arith
fill_sound (item (object fs) r) l h = ground arith

-- What `UnmarshalJSON` accepts: a string, for the registry of that one name, or an array of strings,
-- for the registry of its items in order.
unmarshal_iff :
    (f e : Extensions) (v : Json)
    → (unmarshal_json f v ≡ (e, none))
      ↔ ((v ≡ array (string_items e)) ⊎ ((x : Str) × (v ≡ string x) × (e ≡ x ∷ [])))
unfolding unmarshal_json
unmarshal_iff f e (string s) = (λ h. inr (s, refl, ground arith), λ h. ground arith)
unmarshal_iff f e (array xs) =
    (λ h. inl (ap array (fill_sound xs e h)), λ h. ground (arith, fill-string_items e))
unmarshal_iff f e _ = (λ h. ground arith, λ h. ground arith)
