-- ===== src/Trust/Samples.antt =====
-- Concrete data for runs of the trust store of internal/trust/remotes.go: a yaml library and an
-- empty store.
use Prim.Native.Nat.{suc}
use microcluster.Prelude.{
  ℕ, zero, Str, true, false, none, some, Option, [], ◌∷◌, ◌++◌, length, drop,
}
use microcluster.Trust.{Remote, Dir, Remotes, Yaml}

-- A stand-in for the yaml library: each text behind its length.
unfoldable pub take : ℕ → Str → Str
take zero s = []
take (suc n) [] = []
take (suc n) (c ∷ s) = c ∷ take n s

abbrev write_certificate : Option Str → Str
write_certificate none = []
write_certificate (some c) = 1 ∷ c

abbrev read_certificate : Str → Option Str
read_certificate [] = none
read_certificate (b ∷ c) = some c

abbrev pub write_remote : Remote → Str
write_remote r =
    length r.name ∷ (r.name ++ (length r.address ∷ (r.address ++ write_certificate r.certificate)))

abbrev read_address : Str → Str → Option Remote
read_address name [] = none
read_address name (n ∷ s) =
    some (record { name = name; address = take n s; certificate = read_certificate (drop n s) })

abbrev read_remote : Str → Option Remote
read_remote [] = none
read_remote (n ∷ s) = read_address (take n s) (drop n s)

abbrev pub test_yaml : Yaml
test_yaml = record { marshal = λ r. some (write_remote r); unmarshal = read_remote }

abbrev pub empty_dir : Dir
empty_dir = record { entries = []; readable = true; fails = λ name. false }

abbrev pub empty_store : Remotes
empty_store = record { dir = empty_dir; content = [] }
