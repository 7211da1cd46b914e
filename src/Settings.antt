-- ===== src/Settings.antt =====
-- internal/rest/resources/daemon.go and internal/rest/resources/certificates.go: the handlers by which the
-- addresses of a daemon's servers and its certificates are set.
pub mod Addresses
pub mod Certificates
mod Tests
use microcluster.Prelude.{
  ℕ, Str, codes, str_eq, Bool, true, false, not, ◌&&◌, ◌||◌, Option, none, some, List, [], ◌∷◌,
  ◌++◌, Result, ok, err, ◌>>=◌, ◌>>◌, refuse_if, Assoc, insert, has_key, if◌then◌else◌, cut_prefix,
}
use microcluster.Config.{set_servers, write_config, parse_addr_port}
use microcluster.Servers.{in_use}
use microcluster.Trust.{Remote}
use microcluster.Join.{KeyPair, remote_by_address}
use microcluster.Daemon
use microcluster.Daemon.{Daemon, System, cluster_name, server_name, is_not_ready, reload_cert}
use microcluster.Daemon.Listeners.{extension_servers, update_servers}

pub data Error : Type 0 where
  bad_request no_server address_in_use not_written no_cluster not_told : Error
  no_pem bad_name initialized not_forwarded : Error
  daemon : Daemon.Error → Error

-- What `daemonServersPut` gets from elsewhere: the decoded body, the other members by their addresses (none
-- for an error), and whether each runs its hook.
pub record Env : Type 0 where
  pub system : System
  pub request : Option (Assoc Str)
  pub members : Option (List Str)
  pub answers : Str → Bool

-- The first loop: each name is that of a server that can be changed.
unfoldable pub all_known : List Str → Assoc Str → Bool
all_known names [] = true
all_known names ((k, a) ∷ req) = in_use k names && all_known names req

-- The second loop: no address is given twice, or is that of the core; a server without an address counts.
unfoldable pub all_free : List Str → Assoc Str → Bool
all_free used [] = true
all_free used ((k, a) ∷ req) = not (in_use a used) && all_free (a ∷ used) req

abbrev pub some_or {ℓ} : {E A : Type ℓ} → E → Option A → Result E A
some_or x none = err x
some_or x (some a) = ok a

unfoldable pub checked : Env → Daemon → Result Error (Assoc Str)
checked e d = do
  req ← some_or bad_request e.request
  refuse_if (not (all_known (extension_servers d.servers) req)) no_server
  refuse_if (not (all_free (d.config.address ∷ []) req)) address_in_use
  ok req

-- The hook of the other members.
unfoldable pub all_run : Env → Assoc Remote → List Str → Bool
all_run e remotes [] = true
all_run e remotes (a ∷ hosts) =
    (elim (parse_addr_port e.system.config_yaml.addresses a) [
      | none ↦ false
      | some host ↦ elim (remote_by_address host remotes) [ none ↦ false | some r ↦ e.answers a ]
    ])
    && all_run e remotes hosts

unfoldable pub run_hooks : Env → Daemon → Option Error
run_hooks e d = elim e.members [
  | none ↦ some no_cluster
  | some hosts ↦ if all_run e d.remotes.content hosts then none else some not_told
]

-- The configuration is kept and written before the listeners are changed.
unfoldable pub store : Env → Assoc Str → Daemon → Daemon × Bool
store e req d =
    let c = set_servers req d.config in
    let (file, fine) = write_config e.system.config_yaml e.system.writes_config c d.config_file in
    (record d { config = c; config_file = file }, fine)

unfoldable pub put_servers : Env → Assoc Str → Daemon → Daemon × Option Error
put_servers e req d =
    let (d₁, fine) = store e req d in
    let (d₂, stopped) = update_servers e.system d₁ in
    if not fine
    then (d₁, some not_written)
    else (elim stopped [ some x ↦ (d₂, some (daemon x)) | none ↦ (d₂, run_hooks e d₂) ])

-- `daemonServersPut`
unfoldable pub daemon_servers_put : Env → Daemon → Daemon × Option Error
daemon_servers_put e d = elim (checked e d) [ err x ↦ (d, some x) | ok req ↦ put_servers e req d ]

-- What `clusterCertificatesPut` gets from elsewhere: the decoded body and name, whether the request is a
-- notification, whether the database is open, whether the other members take the certificate (none where
-- they are not known), what PEM is, and which files are written.
pub record CertificateEnv : Type 0 where
  pub system : System
  pub name : Str
  pub request : Option KeyPair
  pub is_notification : Bool
  pub is_open : Bool
  pub forwarded : Option Bool
  pub is_pem : Str → Bool
  pub writes : Str → Bool

-- `strings.Contains`
unfoldable pub contains : Str → Str → Bool
contains [] part = elim (cut_prefix part []) [ none ↦ false | some t ↦ true ]
contains (c ∷ s) part =
    let rest = contains s part in elim (cut_prefix part (c ∷ s)) [ none ↦ rest | some t ↦ true ]

unfoldable pub is_path : Str → Bool
is_path name = contains name (codes "/") || contains name (codes "\\") || contains name (codes "..")

-- The other members get the request first.
unfoldable pub forward : CertificateEnv → Result Error Unit
forward e = if e.is_notification || not e.is_open then ok tt else (elim e.forwarded [
  | none ↦ err no_cluster
  | some fine ↦ refuse_if (not fine) not_forwarded
])

-- Whether the files go to the state directory.
unfoldable pub directory_of : CertificateEnv → Daemon → Result Error Bool
directory_of e d =
    if str_eq e.name cluster_name
    then ok true
    else if str_eq e.name server_name
    then (if is_not_ready d.db.status then ok true else err initialized)
    else if in_use e.name (extension_servers d.servers)
    then ok false
    else err no_server

unfoldable pub checked_pair : CertificateEnv → Daemon → Result Error (KeyPair × Bool)
checked_pair e d = do
  pair ← some_or bad_request e.request
  forward e
  refuse_if (not (e.is_pem pair.cert)) no_pem
  refuse_if (not (e.is_pem pair.key)) no_pem
  refuse_if (is_path e.name) bad_name
  own ← directory_of e d
  refuse_if (not (str_eq pair.ca []) && not (e.is_pem pair.ca)) no_pem
  ok (pair, own)

-- `os.WriteFile` of files in turn, and whether each is written.
unfoldable pub write_files : CertificateEnv → Assoc Str → Assoc Str → Assoc Str × Bool
write_files e [] dir = (dir, true)
write_files e ((name, text) ∷ files) dir =
    let rest = write_files e files (insert name text dir) in
    if e.writes name then rest else (dir, false)

abbrev pub files_of : Str → KeyPair → Assoc Str
files_of name pair =
    let both = (name ++ codes ".crt", pair.cert) ∷ (name ++ codes ".key", pair.key) ∷ [] in
    if str_eq pair.ca [] then both else (name ++ codes ".ca", pair.ca) ∷ both

unfoldable pub store_pair : CertificateEnv → KeyPair → Bool → Daemon → Daemon × Bool
store_pair e pair true d =
    let (dir, fine) = write_files e (files_of e.name pair) d.state_dir in
    (record d { state_dir = dir }, fine)
store_pair e pair false d =
    let (dir, fine) = write_files e (files_of e.name pair) d.certificates_dir in
    (record d { certificates_dir = dir }, fine)

-- `clusterCertificatesPut`
unfoldable pub certificates_put : CertificateEnv → Daemon → Daemon × Option Error
certificates_put e d = elim (checked_pair e d) [
  | err x ↦ (d, some x)
  | ok (pair, own) ↦
      let (d₁, fine) = store_pair e pair own d in
      let (d₂, stopped) = reload_cert e.system e.name d₁ in
      if not fine
      then (d₁, some not_written)
      else (elim stopped [ some x ↦ (d₂, some (daemon x)) | none ↦ (d₂, none) ])
]
