-- ===== src/Control.antt =====
-- internal/rest/resources/control.go: `controlPost`, by which a daemon founds a cluster or joins one.
pub mod Token
pub mod Post
pub mod Keeping
pub mod Joining
pub mod Failing
pub mod Admitted
pub mod Samples
mod Tests
use microcluster.Prelude.{
  ℕ, Str, str_eq, codes, Bool, true, false, not, ◌&&◌, ◌||◌, Option, none, some, List, [], ◌∷◌,
  ◌++◌, map, Result, ok, err, ◌>>=◌, ◌>>◌, refuse_if, Assoc, has_key, remove, if◌then◌else◌,
}
use microcluster.Fqdn.{validate_fqdn}
use microcluster.Extensions.{Extensions}
use microcluster.Trust.{Remote, add}
use microcluster.Issue.{JoinToken}
use microcluster.Join
use microcluster.Join.{Local, Response, KeyPair}
use microcluster.Daemon
use microcluster.Daemon.{Daemon, set_config, server_name, cluster_name, reload_cert, is_not_ready}
use microcluster.Daemon.Setup.{Startup, and_then}
use microcluster.Daemon.Start.{start_api}

-- `internalTypes.Control`; the configuration that the hooks are given is left out.
pub record Request : Type 0 where
  pub bootstrap : Bool
  pub join_token : Str
  pub address : Str
  pub name : Str

pub data Error : Type 0 where
  not_initial bad_request bad_options bad_name : Error
  not_configured hook_failed bad_certificate not_renewed : Error
  bad_token not_joined no_client not_written : Error
  trust daemon : Daemon.Error → Error

-- What `controlPost` gets from elsewhere, beside what `StartAPI` does: the decoded body, the hook, the names
-- in a certificate, the files that are removed and written, the decoder of a token, and the members by
-- address: their certificate, and their answer to the request of a new member (none for an error).
pub record Env : Type 0 where
  pub startup : Startup
  pub request : Option Request
  pub is_hostname : Str → Bool
  pub pre_init : Bool
  pub dns_names : Str → List Str
  pub in_slice : Str → List Str → Bool  -- `shared.ValueInSlice`
  pub removes : Str → Bool
  pub decode : Str → Option JoinToken
  pub remote_certificate : Str → Option Str
  pub fingerprint : Str → Str
  pub add_member : Str → Join.Request → Option Response
  pub write_cert : Assoc Str → Str → KeyPair → Option (Assoc Str)

-- What the reverter does once the request has failed: nothing; the member is reset; or the member is reset,
-- and the member of the address is asked to delete the record of it.
pub data Undo : Type 0 where
  nothing reset : Undo
  reset_and_delete : Str → Undo

-- The reverter's function.
unfoldable pub undo : Bool → Request → Option Response → Undo
undo name_matches req none =
    if not (str_eq req.join_token []) && not name_matches then nothing else reset
undo name_matches req (some info) =
    if str_eq req.join_token [] then reset else reset_and_delete info.trusted_member.address

-- `os.Remove` of a file of the state directory.
unfoldable pub remove_file : Env → Str → Daemon → Daemon × Option Error
remove_file e name d =
    if e.removes name && has_key name d.state_dir
    then (record d { state_dir = remove name d.state_dir }, none)
    else (d, some not_renewed)

-- `KeyPairAndCA`, which makes a pair for the new name.
unfoldable pub make_pair : Env → Request → Daemon → Daemon × Option Error
make_pair e req d = elim (e.startup.system.key_pair d.state_dir server_name req.name) [
  | none ↦ (d, some not_renewed)
  | some (cert, files) ↦ (record d { state_dir = files }, none)
]

unfoldable pub reload : Env → Daemon → Daemon × Option Error
reload e d =
    let (d', stopped) = reload_cert e.startup.system server_name d in
    (d', elim stopped [ none ↦ none | some x ↦ some (daemon x) ])

-- One after another, up to the first that fails.
unfoldable pub in_turn : List (Daemon → Daemon × Option Error) → Daemon → Daemon × Option Error
in_turn [] d = (d, none)
in_turn (f ∷ fs) d =
    let (d', stopped) = f d in
    let rest = in_turn fs d' in elim stopped [ none ↦ rest | some x ↦ (d', some x) ]

-- The key pair of the server is replaced where the name has changed.
unfoldable pub renew : Env → Request → Bool → Daemon → Daemon × Option Error
renew e req true d = (d, none)
renew e req false d =
    in_turn
      (remove_file e (codes "server.crt")
        ∷ remove_file e (codes "server.key")
        ∷ make_pair e req
        ∷ reload e
        ∷ [])
      d
