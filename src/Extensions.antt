-- ===== src/Extensions.antt =====
-- internal/extensions/extensions.go: the registry of API extensions. A Go slice that is not nil is
-- a list; `Register` mutates its receiver, so it returns the registry beside the error.
pub mod Names
pub mod Register
pub mod Versions
pub mod Json
mod Tests
use microcluster.Prelude.{
  ℕ, Str, codes, str_eq, Bool, true, false, Option, none, some, List, [], ◌∷◌, ◌++◌, length, ◌==◌,
  Result, ok, err, ◌>>=◌, ◌>>◌, if◌then◌else◌,
}
use microcluster.Extensions.Names.{Error, already_registered, invalid_extension, different_count}
use microcluster.Extensions.Names.{different_items, validate_external, validate_internal}

abbrev pub Extensions : Type 0
Extensions = List Str

abbrev pub internal_extensions : Extensions
internal_extensions =
    codes "internal:runtime_extension_v1" ∷ codes "internal:rename_core_endpoints" ∷ []

unfoldable pub has_extension : Extensions → Str → Bool
has_extension [] ext = false
has_extension (x ∷ e) ext = if str_eq x ext then true else has_extension e ext

-- `Version`: the number of extensions.
unfoldable pub version : Extensions → ℕ
version e = length e

-- The loop of `NewExtensionRegistry`, which fills a registry.
populate : Extensions → List Str → Result Error Extensions
populate e [] = ok e
populate e (x ∷ xs) = do validate_internal x; populate (e ++ x ∷ []) xs

unfoldable pub new_registry : Bool → Result Error Extensions
unfolding populate
new_registry populate_internal =
    if populate_internal then populate [] internal_extensions else ok []

-- External, or internal, or invalid in both cases.
validate_any : Str → Result Error Unit
validate_any x = elim (validate_external x) [
  | ok _ ↦ ok tt
  | err _ ↦ elim (validate_internal x) [ ok _ ↦ ok tt | err _ ↦ err invalid_extension ]
]

append_all : Extensions → List Str → Result Error Extensions
append_all registry [] = ok registry
append_all registry (x ∷ xs) = do validate_any x; append_all (registry ++ x ∷ []) xs

-- `NewExtensionRegistryFromList`
unfoldable pub new_registry_from_list : List Str → Result Error Extensions
unfolding append_all validate_any new_registry
new_registry_from_list extensions = do registry ← new_registry false; append_all registry extensions

-- `Register`: what was appended before an error stays appended.
unfoldable pub register : Extensions → List Str → Extensions × Option Error
register e [] = (e, none)
register e (x ∷ xs) =
    let rest = register (e ++ x ∷ []) xs in
    if has_extension e x
    then (e, some already_registered)
    else (elim (validate_external x) [ ok _ ↦ rest | err v ↦ (e, some v) ])

-- The loop of `IsSameVersion`. The second clause would index past the end; the lengths exclude it.
compare_items : Extensions → Extensions → Result Error Unit
compare_items [] t = ok tt
compare_items (x ∷ e) [] = err different_items
compare_items (x ∷ e) (y ∷ t) =
    let rest = compare_items e t in if str_eq x y then rest else err different_items

unfoldable pub is_same_version : Extensions → Extensions → Result Error Unit
unfolding compare_items
is_same_version e t = if length e == length t then compare_items e t else err different_count
