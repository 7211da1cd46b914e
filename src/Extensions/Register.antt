-- ===== src/Extensions/Register.antt =====
-- internal/extensions/extensions.go: what `Register` leaves in the registry, with and without an
-- error, and the registry that a daemon starts from.
use mathlib.Core.List.{append-nil, append_assoc}
use microcluster.Prelude.{
  Str, str_eq_iff, ◌≡◌, ◌↔◌, refl, sym, ap, ◌∙◌, Bool, Bool-cases, check-cases, inl, inr, true,
  false, not, ◌&&◌, ◌||◌, none, List, [], ◌∷◌, ◌++◌, All, ok, arith,
}
use microcluster.Extensions.{Extensions, has_extension, register}
use microcluster.Extensions.Names.{validate_external}

-- No name stands twice.
abbrev is_distinct : Extensions → Bool
is_distinct [] = true
is_distinct (x ∷ e) = not (has_extension e x) && is_distinct e

has_extension-append :
    (e f : Extensions) (x : Str) → has_extension (e ++ f) x ≡ has_extension e x || has_extension f x
unfolding has_extension
has_extension-append [] f x = refl
has_extension-append (y ∷ e) f x = ground (arith, has_extension-append e f x)

is_distinct-snoc :
    (e : Extensions) (x : Str)
    → is_distinct (e ++ x ∷ []) ≡ is_distinct e && not (has_extension e x)
unfolding has_extension
is_distinct-snoc [] x = refl
is_distinct-snoc (y ∷ e) x =
    ground (
      arith,
      is_distinct-snoc e x,
      has_extension-append e (x ∷ []) y,
      str_eq_iff x y,
      str_eq_iff y x,
    )

is_distinct_middle :
    (e xs : Extensions) (x : Str) → is_distinct (e ++ x ∷ xs) ≡ true → has_extension e x ≡ false
unfolding has_extension
is_distinct_middle [] xs x h = refl
is_distinct_middle (y ∷ e) xs x h = ground (
  arith,
  is_distinct_middle e xs x,
  has_extension-append e (x ∷ xs) y,
  str_eq_iff x y,
  str_eq_iff y x,
)

abbrev pub IsExternal : Str → Type 0
IsExternal x = validate_external x ≡ ok tt

-- Whatever is registered, and also when an error stops it, no name comes to stand twice.
register-is_distinct :
    (e : Extensions) (new : List Str) → is_distinct e ≡ true → is_distinct (register e new).0 ≡ true
unfolding register
register-is_distinct e [] d = d
register-is_distinct e (x ∷ xs) d =
    ground (arith, register-is_distinct (e ++ x ∷ []) xs, is_distinct-snoc e x)

-- What was registered is a prefix of what was asked for, in order, behind the old registry, and all
-- of it is external.
register_prefix :
    (e : Extensions) (new : List Str)
    → (taken : List Str) × (rest : List Str) × (taken ++ rest ≡ new)
      × ((register e new).0 ≡ e ++ taken)
      × All IsExternal taken
unfolding register
register_prefix e [] = ([], [], refl, sym (append-nil e), tt)
register_prefix e (x ∷ xs) = elim (Bool-cases (has_extension e x)) [
  | inl old ↦ ([], x ∷ xs, refl, rw old (sym (append-nil e)), tt)
  | inr fresh ↦ elim (check-cases (validate_external x)) [
    | inr (v, bad) ↦ ([], x ∷ xs, refl, rw (fresh, bad) (sym (append-nil e)), tt)
    | inl valid ↦
        let (taken, rest, parts, same, external) = register_prefix (e ++ x ∷ []) xs in
        (
          x ∷ taken,
          rest,
          ap (λ l. x ∷ l) parts,
          rw (fresh, valid) (same ∙ append_assoc e (x ∷ []) taken),
          (valid, external),
        )
  ]
]

-- From a registry with no name twice, `Register` succeeds exactly when all the new names are
-- external and the extended registry has no name twice; it is then the old registry followed by the
-- new names.
register_succeeds_iff :
    (e : Extensions) (new : List Str)
    → is_distinct e ≡ true
    → (register e new ≡ (e ++ new, none)) ↔ ((is_distinct (e ++ new) ≡ true) × All IsExternal new)
unfolding register
register_succeeds_iff e [] d = rw append-nil (λ _. (d, tt), λ _. refl)
register_succeeds_iff e (x ∷ xs) d = ground (
  arith,
  register_succeeds_iff (e ++ x ∷ []) xs,
  is_distinct-snoc e x,
  is_distinct_middle e xs x,
  append_assoc e (x ∷ []) xs,
)
