-- ===== src/Config/Stored.antt =====
-- internal/config/daemon.go: what is written to daemon.yaml, and whether it is read back.
use microcluster.Prelude.{
  Str, str_eq_iff, ◌≡◌, true, false, Option, some, [], ◌∷◌, Assoc, lookup, Option-cases, inl, inr,
  arith,
}
use microcluster.Config.{
  Config, Addresses, ConfigYaml, can_read, parse_addr_port, load_config, write_config,
}

can_read-empty :
    (a : Addresses) (k : Str) (servers : Assoc Str)
    → lookup k servers ≡ some []
    → can_read (parse_addr_port a) servers ≡ false
unfolding can_read lookup parse_addr_port
can_read-empty a k [] h = absurd (ground arith)
can_read-empty a k ((j, text) ∷ servers) h =
    ground (arith, can_read-empty a k servers, a.parse_empty, str_eq_iff j k)

-- Where a configuration that has a server without an address is written to daemon.yaml, the file cannot be
-- loaded, over whichever configuration: the zero address is written as the empty text, which is not read as an
-- address.
pub load-write_zero_address :
    (y : ConfigYaml) (c old : Config) (file : Option Str) (k : Str)
    → lookup k c.servers ≡ some []
    → (write_config y true c file).1 ≡ true
    → (load_config y (write_config y true c file).0 old).1 ≡ false
unfolding write_config load_config can_read parse_addr_port
load-write_zero_address y c old file k h w = elim (Option-cases (y.marshal c)) [
  | inl p ↦ absurd (ground arith)
  | inr (text, p) ↦
      let unread : can_read (parse_addr_port y.addresses) ((c.name, c.address) ∷ c.servers)
          ≡ false =
        ground (arith, can_read-empty y.addresses k c.servers h) in
      ground (arith, y.unmarshal_stops (parse_addr_port y.addresses) c old text p unread)
]
