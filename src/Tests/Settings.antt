-- ===== src/Tests/Settings.antt =====
-- Runs of internal/config and internal/capabilities.
use mathlib.Core.List.Perm
use dotfs_mcp_server.Base.{
  ℕ, ◌≡◌, refl, true, Option, none, some, [], ◌∷◌, Text, txt, Dict, ◌==◌, bytes_eq, nat_eq,
  trim_space, decimalz, pos, ok, err, message, arith, if◌then◌else◌,
}
use dotfs_mcp_server.Capabilities.{Observation, new_matrix, describe}
use dotfs_mcp_server.Capabilities.Laws.{describe-eq_of_perm}
use dotfs_mcp_server.Config.Values.{Environment, env_int64}
use dotfs_mcp_server.Config.Numbers.{env_int64-decimalz}
use dotfs_mcp_server.Config.Load.{Config, load, configured, seconds}
use dotfs_mcp_server.Config.Laws.{IsAbs, IsUsable, load-IsUsable}
use dotfs_mcp_server.Utils.Paths.{is_abs}
use dotfs_mcp_server.Tests.Data.{host}

-- Two variables are set, one with a blank behind its value.
abbrev variable_of : Text → Option Text
variable_of key =
    if key == txt "DOTFS_MAX_FILE_SIZE"
    then some (txt "100 ")
    else if key == txt "DOTFS_WORKSPACE_ROOT"
    then some (txt "/w/demo")
    else none

abbrev environment : Environment
environment = record {
  variable = variable_of;
  getwd = ok (txt "/w");
  parse_duration = λ s. err (message (txt "invalid duration"));
}

env_int64-decimalz_example :
    env_int64 environment (txt "DOTFS_MAX_FILE_SIZE") (pos 1) ≡ ok (pos 100)
unfolding bytes_eq trim_space decimalz
env_int64-decimalz_example =
    env_int64-decimalz environment (txt "DOTFS_MAX_FILE_SIZE") (pos 1) (txt "100 ") (pos 100) refl
      refl (omega arith)

abbrev demo_config : Config
demo_config =
    configured environment (pos 100) true true (seconds 600) (seconds 5) (seconds 45)
      (txt "/w/demo") (txt "/tmp/dotfs-agent-knowledge")

load_run : load environment host ≡ ok demo_config
unfolding load bytes_eq trim_space
load_run = refl

load-IsUsable_example :
    IsAbs demo_config.workspace_root × IsAbs demo_config.cache_dir × IsUsable host demo_config
unfolding bytes_eq is_abs
load-IsUsable_example = load-IsUsable environment refl host demo_config load_run

abbrev seen : Observation
seen = record {
  indexed = true;
  symbol_count = 3;
  function_count = 2;
  file_count = 1;
  languages = (txt "c", 2) ∷ (txt "go", 1) ∷ [];
  symbol_types = [];
  samples = [];
}

abbrev other_order : Dict Text ℕ
other_order = (txt "go", 1) ∷ (txt "c", 2) ∷ []

describe-eq_of_perm_example :
    describe (new_matrix []) (txt "demo") seen
    ≡ describe
        (new_matrix [])
        (txt "demo")
        (record seen { languages = other_order; symbol_types = [] })
describe-eq_of_perm_example =
    describe-eq_of_perm (new_matrix []) (txt "demo") seen (Perm.swap (txt "go", 1) (txt "c", 2) [])
      (Perm.refl [])
