-- ===== src/Trust/Tests.antt =====
-- Runs of internal/trust/remotes.go, and the theorems about it at a concrete trust store.
use microcluster.Prelude.{
  codes, ◌≡◌, refl, none, some, [], ◌∷◌, lookup, insert, remove, arith, has_key, str_eq, cut_prefix,
}
use microcluster.Trust.{
  Remote, Remotes, IsOnDisk, yaml_path, cut_yaml, add, add_one, empty_certificate,
}
use microcluster.Trust.Samples.{take, test_yaml, empty_store}
use microcluster.Trust.Replace.{replace}
use microcluster.Trust.Replace.Memory.{last_named, lookup-replace}

abbrev remote_a : Remote
remote_a = record { name = codes "a"; address = codes "10.0.0.1:1"; certificate = some (codes "A") }

abbrev remote_b : Remote
remote_b = record { name = codes "b"; address = codes "10.0.0.2:1"; certificate = some (codes "B") }

abbrev remote_c : Remote
remote_c = record { name = codes "c"; address = codes "10.0.0.3:1"; certificate = none }

abbrev with_a : Remotes
with_a = (add test_yaml empty_store (remote_a ∷ [])).0

abbrev replaced : Remotes
replaced = (replace test_yaml with_a (remote_b ∷ [])).0

empty_store-IsOnDisk : IsOnDisk test_yaml empty_store.dir empty_store.content
unfolding lookup
empty_store-IsOnDisk k r p = absurd (ground arith)

replace_runs : replace test_yaml with_a (remote_b ∷ []) ≡ (replaced, none)
unfolding replace add add_one lookup insert remove has_key str_eq cut_yaml cut_prefix take
replace_runs = refl

lookup-replace_example :
    lookup (codes "b") replaced.content ≡ last_named (codes "b") (remote_b ∷ [])
lookup-replace_example =
    lookup-replace test_yaml with_a replaced (remote_b ∷ []) (codes "b") replace_runs

a_not_named : last_named (codes "a") (remote_b ∷ []) ≡ none
unfolding last_named str_eq
a_not_named = refl

a_plain : cut_yaml (yaml_path (codes "a")) ≡ codes "a"
unfolding cut_yaml cut_prefix
a_plain = refl

replace_fails : (replace test_yaml with_a (remote_b ∷ remote_c ∷ [])).1 ≡ some empty_certificate
unfolding replace add add_one lookup insert remove has_key str_eq cut_yaml cut_prefix
replace_fails = refl

a_there : lookup (codes "a") with_a.content ≡ some remote_a
unfolding add add_one lookup insert has_key str_eq
a_there = refl

b_added : (add test_yaml with_a (remote_b ∷ [])).1 ≡ none
unfolding add add_one lookup insert has_key str_eq
b_added = refl
