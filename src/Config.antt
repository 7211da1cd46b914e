-- ===== src/Config.antt =====
-- internal/config/daemon.go: the configuration of a daemon and its file daemon.yaml; and the text of an
-- address there (rest/types/addrport.go).
pub mod Stored
pub mod Samples
mod Tests
use microcluster.Prelude.{
  Str, str_eq, Bool, true, false, Option, none, some, List, [], ◌∷◌, Assoc, insert, ◌≡◌,
  if◌then◌else◌,
}

-- `types.DaemonConfig`. An address is its text, empty for the zero `AddrPort`; a server's configuration is
-- its address.
pub record Config : Type 0 where
  pub name : Str
  pub address : Str
  pub servers : Assoc Str

-- `NewDaemonConfig`
abbrev pub new_config : Config
new_config = record { name = []; address = []; servers = [] }

-- `netip.ParseAddrPort`, and what is relied on: the empty text is no address.
pub record Addresses : Type 0 where
  pub parse : Str → Option Str
  pub parse_empty : parse [] ≡ none

-- `ParseAddrPort`, and what `UnmarshalYAML` does once the text of an address is read.
unfoldable pub parse_addr_port : Addresses → Str → Option Str
parse_addr_port a text = a.parse text

-- Whether the addresses of a configuration are read back by `u`.
unfoldable pub can_read : (Str → Option Str) → Assoc Str → Bool
can_read u [] = true
can_read u ((k, text) ∷ servers) =
    let rest = can_read u servers in elim (u text) [ none ↦ false | some address ↦ rest ]

-- The yaml library on configurations: `unmarshal` is given the `UnmarshalYAML` of the addresses and the
-- configuration that it fills in, which is partly filled in where it fails. What is relied on: where that
-- `UnmarshalYAML` fails on a text that was written for an address, so does the whole.
pub record ConfigYaml : Type 0 where
  pub addresses : Addresses
  pub marshal : Config → Option Str
  pub unmarshal : (Str → Option Str) → Str → Config → Config × Bool
  pub unmarshal_stops :
      (u : Str → Option Str) (c old : Config) (text : Str)
      → marshal c ≡ some text
      → can_read u ((c.name, c.address) ∷ c.servers) ≡ false
      → (unmarshal u text old).1 ≡ false

-- `Load`, and whether it succeeds; none where the file is not read.
unfoldable pub load_config : ConfigYaml → Option Str → Config → Config × Bool
load_config y none c = (c, false)
load_config y (some text) c = y.unmarshal (parse_addr_port y.addresses) text c

-- `Write`, and whether it succeeds; `writes` says whether the system writes the file.
unfoldable pub write_config : ConfigYaml → Bool → Config → Option Str → Option Str × Bool
write_config y writes c file = elim (y.marshal c) [
  | none ↦ (file, false)
  | some text ↦ if writes then (some text, true) else (file, false)
]

-- `SetName`, `SetAddress`, `SetServers`
unfoldable pub set_name : Str → Config → Config
set_name name c = record c { name = name }

unfoldable pub set_address : Str → Config → Config
set_address address c = record c { address = address }

unfoldable pub set_servers : Assoc Str → Config → Config
set_servers servers c = record c { servers = servers }
