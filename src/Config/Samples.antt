-- ===== src/Config/Samples.antt =====
-- Concrete data for runs of internal/config/daemon.go: a yaml library, where each text is written with its
-- bytes raised by one and a 0 after it.
use microcluster.Prelude.{
  zero, suc, Str, split, ◌≡◌, refl, sym, ap, ◌∙◌, Bool, true, false, Option, none, some, List, [],
  ◌∷◌, Assoc, arith, if◌then◌else◌,
}
use microcluster.Config.{Config, ConfigYaml, can_read}

abbrev raise : Str → Str → Str
raise [] rest = 0 ∷ rest
raise (c ∷ s) rest = suc c ∷ raise s rest

abbrev lower : Str → Str
lower [] = []
lower (zero ∷ s) = zero ∷ lower s
lower (suc c ∷ s) = c ∷ lower s

abbrev pub write_pairs : Assoc Str → Str
write_pairs [] = []
write_pairs ((k, a) ∷ m) = raise k (raise a (write_pairs m))

abbrev read_pairs : List Str → Assoc Str
read_pairs (k ∷ a ∷ rest) = (lower k, lower a) ∷ read_pairs rest
read_pairs _ = []

abbrev raised : Str → Str
raised [] = []
raised (c ∷ s) = suc c ∷ raised s

lower-raised : (s : Str) → lower (raised s) ≡ s
lower-raised [] = refl
lower-raised (c ∷ s) = ap (λ t. c ∷ t) (lower-raised s)

split-raise : (s rest : Str) → split 0 (raise s rest) ≡ raised s ∷ split 0 rest
unfolding split
split-raise [] rest = refl
split-raise (c ∷ s) rest = ground (arith, split-raise s rest)

read-write_pairs : (m : Assoc Str) → read_pairs (split 0 (write_pairs m)) ≡ m
unfolding split
read-write_pairs [] = refl
read-write_pairs ((k, a) ∷ m) =
    let rest = write_pairs m in
    ground (
      arith,
      split-raise k (raise a rest),
      split-raise a rest,
      lower-raised k,
      lower-raised a,
      read-write_pairs m,
    )

-- The name is filled in before the addresses are read.
abbrev filled : (Str → Option Str) → Assoc Str → Config → Config × Bool
filled u [] old = (old, false)
filled u ((name, address) ∷ servers) old =
    if can_read u ((name, address) ∷ servers)
    then (record { name = name; address = address; servers = servers }, true)
    else (record old { name = name }, false)

abbrev test_marshal : Config → Option Str
test_marshal c = some (write_pairs ((c.name, c.address) ∷ c.servers))

abbrev test_unmarshal : (Str → Option Str) → Str → Config → Config × Bool
test_unmarshal u text old = filled u (read_pairs (split 0 text)) old

pub test_stops :
    (u : Str → Option Str) (c old : Config) (text : Str)
    → test_marshal c ≡ some text
    → can_read u ((c.name, c.address) ∷ c.servers) ≡ false
    → (test_unmarshal u text old).1 ≡ false
test_stops u c old text h unread =
    let written : write_pairs ((c.name, c.address) ∷ c.servers) ≡ text = cc h in
    let back : read_pairs (split 0 text) ≡ (c.name, c.address) ∷ c.servers =
      ap (λ t. read_pairs (split 0 t)) (sym written)
      ∙ read-write_pairs ((c.name, c.address) ∷ c.servers) in
    ap (λ m. (filled u m old).1) back ∙ ground arith

-- Each text but the empty one is an address.
abbrev parse_any : Str → Option Str
parse_any [] = none
parse_any (c ∷ s) = some (c ∷ s)

abbrev pub test_config_yaml : ConfigYaml
test_config_yaml = record {
  addresses = record { parse = parse_any; parse_empty = refl };
  marshal = test_marshal;
  unmarshal = test_unmarshal;
  unmarshal_stops = test_stops;
}
