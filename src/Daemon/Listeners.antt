-- ===== src/Daemon/Listeners.antt =====
-- internal/daemon/daemon.go: the listeners of a daemon, those of its core API (`addCoreServers`), those of its
-- extension servers (`addExtensionServers`), and a new configuration of them (`UpdateServers`).
use microcluster.Prelude.{
  Str, str_eq, Bool, true, false, not, ◌&&◌, ◌||◌, Option, none, some, List, [], ◌∷◌, ◌++◌, Assoc,
  insert, has_key, if◌then◌else◌,
}
use microcluster.Endpoints.{Endpoint, network, add, down_by_name, list}
use microcluster.Servers.{Resource, Server, core}
use microcluster.Daemon.{Daemon, Error, System, cert_exists, not_closed, not_listening, no_key_pair}

-- `NewNetwork`
abbrev pub new_network : Str → Str → List Resource → Endpoint
new_network address cert resources = record {
  kind = network;
  address = address;
  cert = cert;
  resources = resources;
  listening = false;
}

-- The resources of the servers that are part of the core API.
unfoldable pub core_resources : Bool → List Server → List Resource
core_resources before [] = []
core_resources before (s ∷ servers) =
    let rest = core_resources before servers in
    if (not s.pre_init && before) || not s.core_api then rest else s.resources ++ rest

abbrev listened : Daemon → Assoc Endpoint × Bool → Daemon × Option Error
listened d (ls, true) = (record d { listeners = ls }, none)
listened d (ls, false) = (record d { listeners = ls }, some not_listening)

-- `addCoreServers`
unfoldable pub add_core_servers :
    System → Bool → Str → Str → List Resource → Daemon → Daemon × Option Error
add_core_servers e before address cert resources d =
    let all = resources ++ core_resources before d.servers in
    listened d (add e.sockets ((core, new_network address cert all) ∷ []) d.listeners)

-- Whether `addExtensionServers` starts a listener for a server.
unfoldable pub is_wanted : Bool → Str → Assoc Endpoint → Server → Bool
is_wanted before core_address ls s =
    not s.core_api
    && not (not s.pre_init && before)
    && not (str_eq s.address [])
    && not (str_eq s.address core_address)
    && not (has_key s.name (list (network ∷ []) ls))

-- The certificate of a listener, and the files there then.
unfoldable pub certificate_of : System → Str → Daemon → Server → Option (Str × Assoc Str)
certificate_of e fallback d s =
    if not s.dedicated_certificate && not (cert_exists d s.name)
    then some (fallback, d.certificates_dir)
    else e.key_pair d.certificates_dir s.name s.name

-- The loop of `addExtensionServers`: the listeners to add, and the daemon with the files made for them; none
-- where a key pair is missing.
unfoldable pub collect :
    System → Bool → Str → Str → List Server → Daemon → Daemon × Option (Assoc Endpoint)
collect e before fallback core_address [] d = (d, some [])
collect e before fallback core_address (s ∷ servers) d =
    let skipped = collect e before fallback core_address servers d in
    if is_wanted before core_address d.listeners s
    then (elim (certificate_of e fallback d s) [
      | none ↦ (d, none)
      | some (cert, files) ↦
          let (d', more) =
            collect e before fallback core_address servers
              (record d { certificates_dir = files }) in
          elim more [
            | none ↦ (d', none)
            | some networks ↦
                (d', some (insert s.name (new_network s.address cert s.resources) networks))
          ]
    ])
    else skipped

-- `addExtensionServers`
unfoldable pub add_extension_servers : System → Bool → Str → Str → Daemon → Daemon × Option Error
add_extension_servers e before fallback core_address d =
    let (d', found) = collect e before fallback core_address d.servers d in
    elim found [
      | none ↦ (d', some no_key_pair)
      | some [] ↦ (d', none)
      | some (n ∷ networks) ↦ listened d' (add e.sockets (n ∷ networks) d'.listeners)
    ]

-- `ExtensionServers`
unfoldable pub extension_servers : List Server → List Str
extension_servers [] = []
extension_servers (s ∷ servers) =
    let rest = extension_servers servers in if s.core_api then rest else s.name ∷ rest

-- A write of a server's configuration to the map.
unfoldable pub set_server : Str → Str → List Server → List Server
set_server k address [] = []
set_server k address (s ∷ servers) =
    if str_eq s.name k
    then record s { address = address } ∷ servers
    else s ∷ set_server k address servers

-- A read of the map.
unfoldable pub server_named : Str → List Server → Option Server
server_named k [] = none
server_named k (s ∷ servers) = if str_eq s.name k then some s else server_named k servers

-- `DownByName` for a daemon.
unfoldable pub take_down : System → Str → Daemon → Daemon × Option Error
take_down e k d =
    let (ls, fine) = down_by_name e.sockets k d.listeners in
    (record d { listeners = ls }, if fine then none else some not_closed)

-- The first loop of `UpdateServers`: the listeners that are no longer configured are stopped.
unfoldable pub stop_removed : System → Assoc Str → List Str → Daemon → Daemon × Option Error
stop_removed e configured [] d = (d, none)
stop_removed e configured (k ∷ names) d =
    let kept = stop_removed e configured names d in
    let (d', failed) = take_down e k (record d { servers = set_server k [] d.servers }) in
    let rest = stop_removed e configured names d' in
    if has_key k configured then kept else (elim failed [ some x ↦ (d', some x) | none ↦ rest ])

-- The second loop of `UpdateServers`: those that are changed are stopped.
unfoldable pub stop_changed : System → Assoc Str → Daemon → Daemon × Option Error
stop_changed e [] d = (d, none)
stop_changed e ((k, address) ∷ configured) d =
    let unknown = stop_changed e configured d in
    let d₀ = record d { servers = set_server k address d.servers } in
    let unchanged = stop_changed e configured d₀ in
    let (d', failed) = take_down e k d₀ in
    let rest = stop_changed e configured d' in
    elim (server_named k d.servers) [
      | none ↦ unknown
      | some s ↦
          if str_eq s.address address
          then unchanged
          else (elim failed [ some x ↦ (d', some x) | none ↦ rest ])
    ]

-- `UpdateServers`
unfoldable pub update_servers : System → Daemon → Daemon × Option Error
update_servers e d =
    let configured = d.config.servers in
    let (d₁, failed) = stop_removed e configured (extension_servers d.servers) d in
    elim failed [
      | some x ↦ (d₁, some x)
      | none ↦
          let (d₂, failed₂) = stop_changed e configured d₁ in
          elim failed₂ [
            | some x ↦ (d₂, some x)
            | none ↦ add_extension_servers e false d₂.cluster_cert d₂.config.address d₂
          ]
    ]
