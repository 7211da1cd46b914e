-- ===== src/Recovery/Tests.antt =====
-- internal/recover/recover.go: recoveries at concrete values.
use microcluster.Prelude.{
  ℕ, ◌+◌, ◌≢◌, ◌⊎◌, List, Option, ◌≤◌, ◌≡◌, ◌↔◌, refl, codes, Str, str_eq, cut_prefix, true, false,
  none, some, [], ◌∷◌, length, ok, lookup, insert, has_key,
}
use microcluster.Trust.{Remote, Dir, file, yaml_path, load, has_suffix, cut_yaml}
use microcluster.Trust.Replace.{replace}
use microcluster.Trust.Samples.{test_yaml, write_remote, take}
use microcluster.Recovery.{DqliteMember, validate_member_changes, new_remotes, update_trust_store}
use microcluster.Recovery.Changes.{Accepted, num_voters, validate_member_changes_iff}
use microcluster.Recovery.Unpack.{
  LocalInfo, Tarball, Files, Fs, Env, not_renamed, new_address, update_daemon, replace_database,
  take_over, check_recovery, maybe_unpack,
}
use microcluster.Issue.{addresses}
use microcluster.Recovery.Quorum
use microcluster.Recovery.Quorum.{
  Node, voter, role_of, node_infos, any_of, ready_nodes, finish_recovery, write_database, recover,
}
use microcluster.Recovery.Quorum.Recovered.{known_hosts, recover_safe}
use microcluster.Recovery.Unpack.Outcome.{maybe_unpack_replaces}

abbrev member : ℕ → Str → DqliteMember
member id address = record { id = id; address = address; role = codes "voter"; name = codes "a" }

validate_member_changes_iff_example :
    (validate_member_changes some (member 1 (codes "x") ∷ []) (member 1 (codes "y") ∷ []) ≡ ok tt)
    ↔ ((length (member 1 (codes "y") ∷ []) ≡ length (member 1 (codes "x") ∷ []))
        × (1 ≤ num_voters (member 1 (codes "y") ∷ []))
        × Accepted some (member 1 (codes "x") ∷ []) [] (member 1 (codes "y") ∷ []))
validate_member_changes_iff_example =
    validate_member_changes_iff some (member 1 (codes "x") ∷ []) (member 1 (codes "y") ∷ [])

abbrev remote : Str → Remote
remote a = record { name = codes "a"; address = a; certificate = some (codes "c") }

abbrev dir : Str → Dir
dir a = record {
  entries = (yaml_path (codes "a"), file (write_remote (remote a))) ∷ [];
  readable = true;
  fails = λ name. false;
}

trust_runs :
    update_trust_store test_yaml some (member 1 (codes "y") ∷ []) (dir (codes "x"))
    ≡ (dir (codes "y"), none)
unfolding update_trust_store load new_remotes replace lookup insert has_key str_eq cut_prefix
    has_suffix cut_yaml take
trust_runs = refl

abbrev works : Env
works = record {
  writes_info = true;
  backs_up = true;
  removes_database = true;
  removes_yaml = true;
  renames = true;
  removes_tarball = true;
  writes_daemon = true;
}

abbrev tarball : Tarball ℕ
tarball = record { extracts = true; members = some (member 1 (codes "y") ∷ []); content = 7 }

abbrev before : Fs ℕ
before = record {
  tarball = some tarball;
  unpacked = none;
  database = some (record {
    info = some (record { id = 1; address = codes "x" });
    members = none;
    content = 5;
  });
  trust = dir (codes "x");
  daemon = codes "x";
  backups = 0;
}

abbrev after : Fs ℕ
after = record {
  tarball = none;
  unpacked = none;
  database = some (record {
    info = some (record { id = 1; address = codes "y" });
    members = none;
    content = 7;
  });
  trust = dir (codes "y");
  daemon = codes "y";
  backups = 1;
}

unpacks : maybe_unpack test_yaml some works before ≡ (after, none)
unfolding maybe_unpack check_recovery take_over replace_database update_daemon new_address
    update_trust_store load new_remotes replace lookup insert has_key str_eq cut_prefix has_suffix
    cut_yaml take
unpacks = refl

maybe_unpack_replaces_example :
    (d : Files ℕ) × (l : LocalInfo) × (a : Str) × (before.database ≡ some d)
    × (d.info ≡ some l)
    × (new_address l.id (member 1 (codes "y") ∷ []) ≡ some a)
    × (after.database
        ≡ some (record {
          info = some (record { id = l.id; address = a });
          members = none;
          content = 7;
        }))
    × (after.tarball ≡ none)
    × (some a ≡ some after.daemon)
    × (update_trust_store test_yaml some (member 1 (codes "y") ∷ []) before.trust
        ≡ (after.trust, none))
maybe_unpack_replaces_example =
    maybe_unpack_replaces test_yaml some works tarball (member 1 (codes "y") ∷ []) before after refl
      refl unpacks

abbrev breaks : Env
breaks = record works { renames = false }

stops : (maybe_unpack test_yaml some breaks before).1 ≡ some not_renamed
unfolding maybe_unpack check_recovery take_over replace_database update_daemon new_address
    update_trust_store load new_remotes replace lookup insert has_key str_eq cut_prefix has_suffix
    cut_yaml take
stops = refl

-- One member of two takes over alone.
abbrev alone : Quorum.Env ℕ
alone = record {
  yaml = test_yaml;
  parse = some;
  has_certificates = true;
  new_client = λ host. true;
  is_reachable = λ host. false;
  backs_up = true;
  reconfigure = λ infos content. some (content + 1);
  writes_info = true;
  writes_cluster = true;
  tars = true;
  writes_daemon = true;
  writes_patch = true;
}

abbrev new_members : List DqliteMember
new_members = member 1 (codes "y") ∷ []

abbrev stuck : Node ℕ
stuck = record {
  has_socket = false;
  trust = dir (codes "x");
  content = 7;
  info = some (record { id = 1; address = codes "x" });
  cluster_yaml = [];
  backups = 0;
  tarball = none;
  daemon = codes "x";
  patch = [];
}

abbrev recovered : Node ℕ
recovered = record {
  has_socket = false;
  trust = dir (codes "y");
  content = 8;
  info = some (record { id = 1; address = codes "y" });
  cluster_yaml = record { id = 1; address = codes "y"; role = voter } ∷ [];
  backups = 1;
  tarball = some (new_members, 8);
  daemon = codes "y";
  patch = (codes "y", codes "a") ∷ [];
}

recovers : recover alone new_members stuck ≡ (recovered, none)
unfolding recover ready_nodes node_infos role_of any_of write_database finish_recovery new_address
    update_trust_store load new_remotes replace lookup insert has_key str_eq cut_prefix has_suffix
    cut_yaml take addresses
recovers = refl

abbrev no_error : Option Quorum.Error
no_error = none

recover_safe_example :
    ((recovered ≡ stuck) × (no_error ≢ none))
    ⊎ ((stuck.has_socket ≡ false)
        × (any_of alone.is_reachable (known_hosts alone new_members stuck) ≡ false)
        × (recovered.backups ≡ 1))
recover_safe_example = recover_safe alone new_members stuck recovered none recovers
