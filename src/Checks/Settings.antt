-- ===== src/Checks/Settings.antt =====
-- The theorem on the configuration at a concrete input.
use anti_subagent.Prelude.{
  String, refl, Option, none, some, [], ◌∷◌, ◌++◌, pos, ◌==◌, if◌then◌else◌,
}
use anti_subagent.Core.Config.{
  IpcTransport, Config, Value, integer, parsed, absent, ConfigFile, Surroundings, default_config,
  config_paths, load_with_project, apply_files, apply_file, apply_env, parse_u64, digits_value,
  merge_table, apply_keys, as_str, as_u64,
}
use anti_subagent.Core.Config.Layers.{IsLayered, layers_of, env_layer, load_with_project_lem}

abbrev variables : String → Option String
variables name =
    if name == "HOME"
    then some "/home/a"
    else if name == "ANTI_POLL_INTERVAL_MS"
    then some "250"
    else none

abbrev thirty : String → Option Value
thirty key = if key == "stall_timeout_secs" then some (integer (pos 30)) else none

abbrev on_disk : String → ConfigFile
on_disk path =
    if path == "/home/a/.anti_subagent/config.toml"
    then parsed (record { top = thirty; daemon = none })
    else absent

abbrev host : Surroundings
host = record { var = variables; file = on_disk; current_dir = some "/repo" }

abbrev loaded : Config
loaded = record {
  state_dir = "/home/a/.anti_subagent";
  stall_timeout = 30;
  poll_interval = 250;
  claude_bin = "claude";
  ipc_transport = IpcTransport.unix;
}

load_with_project_lem_example :
    IsLayered
      (layers_of host (config_paths host none) ++ env_layer host ∷ [])
      (default_config host)
      loaded
unfolding load_with_project apply_files config_paths apply_file default_config apply_env parse_u64
    digits_value merge_table apply_keys as_str as_u64
load_with_project_lem_example = load_with_project_lem host none loaded refl
