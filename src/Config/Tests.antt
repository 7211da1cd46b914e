-- ===== src/Config/Tests.antt =====
-- internal/config/daemon.go: a configuration at concrete values.
use microcluster.Prelude.{◌≡◌, refl, codes, true, false, none, [], ◌∷◌, lookup, str_eq}
use microcluster.Config.{Config, new_config, load_config, write_config}
use microcluster.Config.Stored.{load-write_zero_address}
use microcluster.Config.Samples.{test_config_yaml}

abbrev without_address : Config
without_address = record { name = codes "n"; address = codes "a"; servers = (codes "x", []) ∷ [] }

load-write_zero_address_example :
    (load_config test_config_yaml
      (write_config test_config_yaml true without_address none).0
      new_config).1
    ≡ false
unfolding lookup str_eq write_config
load-write_zero_address_example =
    load-write_zero_address test_config_yaml without_address new_config none (codes "x") refl refl
