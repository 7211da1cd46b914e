-- ===== src/Settings/Certificates.antt =====
-- internal/rest/resources/certificates.go: what `clusterCertificatesPut` writes.
use microcluster.Prelude.{
  ◌≡◌, refl, Str, codes, str_eq, Bool, true, false, not, ◌&&◌, ◌||◌, none, some, [], ◌∷◌, ◌++◌,
  Assoc, lookup, insert, lookup-insert, lookup-insert_self, Bool-cases, Option-cases, Result-cases,
  inl, inr, ok, arith, if◌then◌else◌,
}
use microcluster.Servers.{in_use}
use microcluster.Daemon.{Daemon, cluster_name, server_name, is_not_ready, reload_cert}
use microcluster.Daemon.Listeners.{extension_servers}
use microcluster.Join.{KeyPair}
use microcluster.Settings.{
  CertificateEnv, is_path, forward, directory_of, checked_pair, write_files, files_of, store_pair,
  certificates_put,
}

str_eq-prepend : (a s t : Str) → str_eq (a ++ s) (a ++ t) ≡ str_eq s t
unfolding str_eq
str_eq-prepend [] s t = refl
str_eq-prepend (c ∷ a) s t = ground (arith, str_eq-prepend a s t)

-- The directory of a certificate.
abbrev pub dir_of : Bool → Daemon → Assoc Str
dir_of true d = d.state_dir
dir_of false d = d.certificates_dir

written :
    (e : CertificateEnv) (name : Str) (pair : KeyPair) (dir : Assoc Str)
    → (write_files e (files_of name pair) dir).1 ≡ true
    → (lookup (name ++ codes ".crt") (write_files e (files_of name pair) dir).0 ≡ some pair.cert)
      × (lookup (name ++ codes ".key") (write_files e (files_of name pair) dir).0 ≡ some pair.key)
unfolding write_files str_eq
written e name pair dir h =
    let other = str_eq-prepend name (codes ".key") (codes ".crt") in
    let base : Assoc Str =
      if str_eq pair.ca [] then dir else insert (name ++ codes ".ca") pair.ca dir in
    let crt = insert (name ++ codes ".crt") pair.cert base in
    let here = lookup-insert_self (name ++ codes ".key") pair.key crt in
    let there = lookup-insert (name ++ codes ".key") (name ++ codes ".crt") pair.key crt in
    let self = lookup-insert_self (name ++ codes ".crt") pair.cert base in
    elim (Bool-cases (str_eq pair.ca [])) [
      | inl p ↦ (ground arith, ground arith)
      | inr p ↦ (ground arith, ground arith)
    ]

checked-ok :
    (e : CertificateEnv) (d : Daemon) (pair : KeyPair) (own : Bool)
    → checked_pair e d ≡ ok (pair, own)
    → (e.request ≡ some pair)
      × (e.is_pem pair.cert && e.is_pem pair.key && not (is_path e.name) ≡ true)
      × (directory_of e d ≡ ok own)
unfolding checked_pair
checked-ok e d pair own h = elim (Option-cases e.request) [
  | inl p ↦ absurd (ground arith)
  | inr (pair', p) ↦ elim (Result-cases (forward e)) [
    | inr (x, q) ↦ absurd (ground arith)
    | inl (u, q) ↦ elim (Result-cases (directory_of e d)) [
      | inr (x, r) ↦ absurd (ground arith)
      | inl (own', r) ↦ (ground arith, ground arith, ground arith)
    ]
  ]
]

-- The certificates of the daemon itself are in its state directory.
abbrev pub is_own : Str → Bool
is_own name = str_eq name cluster_name || str_eq name server_name

-- Where `clusterCertificatesPut` succeeds, the name is no path, and it is that of the cluster's certificate, of
-- the server's where the database has not been started, or of a server that can be changed; the certificate
-- and the key are PEM. The daemon loaded its certificate again with the files of the name in place, in the
-- state directory for its own certificates and in the other directory for those of a server, and with all
-- but its files as it was.
pub certificates_put_lem :
    (e : CertificateEnv) (d d' : Daemon)
    → certificates_put e d ≡ (d', none)
    → (pair : KeyPair) × (d₁ : Daemon) × (e.request ≡ some pair)
      × (e.is_pem pair.cert && e.is_pem pair.key && not (is_path e.name) ≡ true)
      × (str_eq e.name cluster_name
            || str_eq e.name server_name && is_not_ready d.db.status
            || in_use e.name (extension_servers d.servers)
          ≡ true)
      × (lookup (e.name ++ codes ".crt") (dir_of (is_own e.name) d₁) ≡ some pair.cert)
      × (lookup (e.name ++ codes ".key") (dir_of (is_own e.name) d₁) ≡ some pair.key)
      × (d₁ ≡ record d { state_dir = d₁.state_dir; certificates_dir = d₁.certificates_dir })
      × (dir_of (not (is_own e.name)) d₁ ≡ dir_of (not (is_own e.name)) d)
      × (reload_cert e.system e.name d₁ ≡ (d', none))
unfolding certificates_put store_pair directory_of
certificates_put_lem e d d' h = elim (Result-cases (checked_pair e d)) [
  | inr (x, p) ↦ absurd (ground arith)
  | inl ((pair, true), p) ↦
      let (asked, good, at) = checked-ok e d pair true p in
      let (crt, key) = written e e.name pair d.state_dir (ground arith) in
      let d₁ = (store_pair e pair true d).0 in
      let own : is_own e.name ≡ true = ground arith in
      (pair, d₁, asked, good, ground arith, rw own crt, rw own key, refl, rw own refl, ground arith)
  | inl ((pair, false), p) ↦
      let (asked, good, at) = checked-ok e d pair false p in
      let (crt, key) = written e e.name pair d.certificates_dir (ground arith) in
      let d₁ = (store_pair e pair false d).0 in
      let other : is_own e.name ≡ false = ground arith in
      (
        pair,
        d₁,
        asked,
        good,
        ground arith,
        rw other crt,
        rw other key,
        refl,
        rw other refl,
        ground arith,
      )
]
