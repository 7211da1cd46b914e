-- ===== src/Control/Keeping.antt =====
-- internal/rest/resources/control.go: what keeps the servers and the configuration of the daemon.
use microcluster.Prelude.{
  ◌≡◌, refl, Str, str_eq, codes, Bool, true, false, Option, List, [], ◌∷◌, All, Assoc, Option-cases,
  inl, inr, arith,
}
use microcluster.Join.{Response, KeyPair}
use microcluster.Daemon.{Daemon, cluster_name, reload_cert, reload_server_cert}
use microcluster.Daemon.Serving.{Kept}
use microcluster.Control.{Request, Error, Env, remove_file, make_pair, reload, in_turn, renew}
use microcluster.Control.Token.{cluster_pair, write_each, write_certs, trust_members}

-- The servers and the configuration are kept.
abbrev pub KeepsSetup : (Daemon → Daemon × Option Error) → Type 0
KeepsSetup f = (d : Daemon) → Kept d (f d).0

in_turn-keeps :
    (fs : List (Daemon → Daemon × Option Error)) → All KeepsSetup fs → KeepsSetup (in_turn fs)
unfolding in_turn
in_turn-keeps [] k d = (refl, refl)
in_turn-keeps (f ∷ fs) k d = ground (arith, k.0 d, in_turn-keeps fs k.1 (f d).0)

module _ (e : Env) (req : Request) where
  keeps-remove_file : (name : Str) → KeepsSetup (remove_file e name)
  unfolding remove_file
  keeps-remove_file name d = ground arith

  keeps-make_pair : KeepsSetup (make_pair e req)
  unfolding make_pair
  keeps-make_pair d = ground arith

  keeps-reload : KeepsSetup (reload e)
  unfolding reload reload_cert reload_server_cert str_eq
  keeps-reload d = ground arith

  pub keeps-renew : (b : Bool) → KeepsSetup (renew e req b)
  unfolding renew
  keeps-renew true d = (refl, refl)
  keeps-renew false d =
      in_turn-keeps
        (remove_file e (codes "server.crt")
          ∷ remove_file e (codes "server.key")
          ∷ make_pair e req
          ∷ reload e
          ∷ [])
        (
          keeps-remove_file (codes "server.crt"),
          (keeps-remove_file (codes "server.key"), (keeps-make_pair, (keeps-reload, tt))),
        )
        d

  keeps-write_each : (certs : Assoc KeyPair) → KeepsSetup (write_each e certs)
  unfolding write_each
  keeps-write_each [] d = (refl, refl)
  keeps-write_each ((name, pair) ∷ certs) d =
      elim (Option-cases (e.write_cert d.certificates_dir name pair)) [
        | inl p ↦ ground arith
        | inr (files, p) ↦
            ground (arith, keeps-write_each certs (record d { certificates_dir = files }))
      ]

  server_cert-write_each :
      (certs : Assoc KeyPair) (d : Daemon) → (write_each e certs d).0.server_cert ≡ d.server_cert
  unfolding write_each
  server_cert-write_each [] d = refl
  server_cert-write_each ((name, pair) ∷ certs) d =
      elim (Option-cases (e.write_cert d.certificates_dir name pair)) [
        | inl p ↦ ground arith
        | inr (files, p) ↦
            ground (arith, server_cert-write_each certs (record d { certificates_dir = files }))
      ]

  server_cert-write_certs :
      (info : Response) (d : Daemon) → (write_certs e info d).0.server_cert ≡ d.server_cert
  unfolding write_certs
  server_cert-write_certs info d =
      elim (Option-cases (e.write_cert d.state_dir cluster_name (cluster_pair info))) [
        | inl p ↦ ground arith
        | inr (files, p) ↦
            ground
              (arith, server_cert-write_each info.additional_certs (record d { state_dir = files }))
      ]

  pub server_cert-enter :
      (cert : Str) (info : Response) (d : Daemon)
      → (in_turn (write_certs e info ∷ trust_members e req cert info ∷ []) d).0.server_cert
        ≡ d.server_cert
  unfolding in_turn trust_members
  server_cert-enter cert info d = ground (arith, server_cert-write_certs info d)

  keeps-write_certs : (info : Response) → KeepsSetup (write_certs e info)
  unfolding write_certs
  keeps-write_certs info d =
      elim (Option-cases (e.write_cert d.state_dir cluster_name (cluster_pair info))) [
        | inl p ↦ ground arith
        | inr (files, p) ↦
            ground (arith, keeps-write_each info.additional_certs (record d { state_dir = files }))
      ]

  keeps-trust_members : (cert : Str) (info : Response) → KeepsSetup (trust_members e req cert info)
  unfolding trust_members
  keeps-trust_members cert info d = (refl, refl)

  pub keeps-enter :
      (cert : Str) (info : Response)
      → KeepsSetup (in_turn (write_certs e info ∷ trust_members e req cert info ∷ []))
  keeps-enter cert info =
      in_turn-keeps (write_certs e info ∷ trust_members e req cert info ∷ [])
        (keeps-write_certs info, (keeps-trust_members cert info, tt))
