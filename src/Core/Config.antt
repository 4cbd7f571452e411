-- ===== src/Core/Config.antt =====
-- The configuration and its layers (crates/anti-core/src/config.rs), on Unix. What the toml crate reads of a
-- file is given by its lookups; the files, the variables of the environment and the current directory are
-- arguments. Lower case is that of ASCII.
pub mod Layers
use Prim.Native.Nat.{◌+◌, ◌-◌, ◌*◌, ◌%◌}
use Prim.Native.String.{◌++◌}
use anti_subagent.Prelude.{
  ℕ, ℤ, pos, negsuc, String, Bool, true, false, ◌&&◌, ◌||◌, Option, none, some, List, [], ◌∷◌,
  Result, ok, err, leb, ltb, nat_eq, is_none, if◌then◌else◌,
}
use anti_subagent.Prelude.Text.{codes, lower_eq}

pub data IpcTransport : Type 0 where
  unix tcp : IpcTransport

unfoldable pub from_config : String → Option IpcTransport
from_config s =
    if lower_eq s "unix" || lower_eq s "socket"
    then some IpcTransport.unix
    else if lower_eq s "tcp" || lower_eq s "loopback"
    then some IpcTransport.tcp
    else none

unfoldable pub transport_name : IpcTransport → String
transport_name IpcTransport.unix = "unix_socket"
transport_name IpcTransport.tcp = "tcp_loopback"

-- The timeout is in seconds and the interval in milliseconds.
pub record Config : Type 0 where
  pub state_dir : String
  pub stall_timeout : ℕ
  pub poll_interval : ℕ
  pub claude_bin : String
  pub ipc_transport : IpcTransport

-- A value of toml: an integer, a text, or anything else.
pub data Value : Type 0 where
  integer : ℤ → Value
  string : String → Value
  other : Value

-- `get` on the top level, and on the section [daemon] where there is one.
pub record Toml : Type 0 where
  pub top : String → Option Value
  pub daemon : Option (String → Option Value)

pub data ConfigFile : Type 0 where
  absent unreadable unparsable : ConfigFile
  parsed : Toml → ConfigFile

pub data ConfigError : Type 0 where
  io : String → ConfigError

-- What is outside of the program.
pub record Surroundings : Type 0 where
  pub var : String → Option String
  pub file : String → ConfigFile
  pub current_dir : Option String

abbrev pub join : String → String → String
join path part = path ++ "/" ++ part

abbrev or_dot : Option String → String
or_dot none = "."
or_dot (some home) = home

unfoldable pub default_config : Surroundings → Config
default_config o = record {
  state_dir = join (or_dot (o.var "HOME")) ".anti_subagent";
  stall_timeout = 60;
  poll_interval = 100;
  claude_bin = "claude";
  ipc_transport = IpcTransport.unix;
}

-- `as_integer`, with `n as u64`.
unfoldable pub as_u64 : Option Value → Option ℕ
as_u64 none = none
as_u64 (some (integer (pos n))) = some (n % 18446744073709551616)
as_u64 (some (integer (negsuc n))) = some (18446744073709551615 - n % 18446744073709551616)
as_u64 (some (string s)) = none
as_u64 (some other) = none

unfoldable pub as_str : Option Value → Option String
as_str none = none
as_str (some (integer n)) = none
as_str (some (string s)) = some s
as_str (some other) = none

abbrev pub with_stall_timeout : Option ℕ → Config → Config
with_stall_timeout none c = c
with_stall_timeout (some n) c = record c { stall_timeout = n }

abbrev pub with_poll_interval : Option ℕ → Config → Config
with_poll_interval none c = c
with_poll_interval (some n) c = record c { poll_interval = n }

abbrev pub with_claude_bin : Option String → Config → Config
with_claude_bin none c = c
with_claude_bin (some s) c = record c { claude_bin = s }

abbrev pub with_transport : Option IpcTransport → Config → Config
with_transport none c = c
with_transport (some t) c = record c { ipc_transport = t }

abbrev pub transport_of : Option String → Option IpcTransport
transport_of none = none
transport_of (some s) = from_config s

-- The loop over the four keys, each with `apply_key`.
unfoldable pub apply_keys : (String → Option Value) → Config → Config
apply_keys get c = with_transport (transport_of (as_str (get "ipc_transport"))) (
    with_claude_bin (as_str (get "claude_bin")) (
      with_poll_interval (as_u64 (get "poll_interval_ms"))
        (with_stall_timeout (as_u64 (get "stall_timeout_secs")) c)))

abbrev apply_section : Option (String → Option Value) → Config → Config
apply_section none c = c
apply_section (some get) c = apply_keys get c

unfoldable pub merge_table : Toml → Config → Config
merge_table t c = apply_section t.daemon (apply_keys t.top c)

abbrev pub read_into : String → Config → ConfigFile → Result ConfigError Config
read_into path c absent = ok c
read_into path c unreadable = err (io path)
read_into path c unparsable = ok c
read_into path c (parsed t) = ok (merge_table t c)

unfoldable pub apply_file : Surroundings → String → Config → Result ConfigError Config
apply_file o path c = read_into path c (o.file path)

unfoldable pub digits_value : List ℕ → ℕ → Option ℕ
digits_value [] acc = some acc
digits_value (c ∷ cs) acc =
    let rest = digits_value cs (acc * 10 + (c - 48)) in if leb 48 c && leb c 57 then rest else none

abbrev below_2_64 : Option ℕ → Option ℕ
below_2_64 none = none
below_2_64 (some n) = if ltb n 18446744073709551616 then some n else none

abbrev digits_u64 : List ℕ → Option ℕ
digits_u64 [] = none
digits_u64 (c ∷ cs) = below_2_64 (digits_value (c ∷ cs) 0)

-- `parse::<u64>`; a plus sign may stand before the digits.
unfoldable pub parse_u64 : List ℕ → Option ℕ
parse_u64 [] = none
parse_u64 (c ∷ cs) = if nat_eq c 43 then digits_u64 cs else digits_u64 (c ∷ cs)

abbrev pub u64_of : Option String → Option ℕ
u64_of none = none
u64_of (some s) = parse_u64 (codes s)

unfoldable pub apply_env : Surroundings → Config → Config
apply_env o c =
    let c₁ = with_stall_timeout (u64_of (o.var "ANTI_STALL_TIMEOUT_SECS")) c in
    let c₂ = with_poll_interval (u64_of (o.var "ANTI_POLL_INTERVAL_MS")) c₁ in
    let c₃ = with_claude_bin (o.var "ANTI_CLaude_BIN") c₂ in
    let c₄ = with_transport (transport_of (o.var "ANTI_IPC_TRANSPORT")) c₃ in
    let c₅ = with_claude_bin (o.var "ANTI_CLAUDE_BIN") c₄ in
    if is_none (o.var "ANTI_IPC_TRANSPORT")
    then with_transport (transport_of (o.var "PASEO_LISTEN")) c₅
    else c₅

unfoldable pub apply_files : Surroundings → List String → Config → Result ConfigError Config
apply_files o [] c = ok c
apply_files o (p ∷ ps) c = elim (apply_file o p c) [
  | err e ↦ err e
  | ok next ↦ apply_files o ps next
]

abbrev local_files : Surroundings → List String
local_files o = elim o.current_dir [ none ↦ [] | some dir ↦ join dir ".anti_subagent.toml" ∷ [] ]

-- The files that are read, in their order.
unfoldable pub config_paths : Surroundings → Option String → List String
config_paths o project_root = join (default_config o).state_dir "config.toml" ∷ (elim project_root [
  | some root ↦ join root ".anti_subagent.toml" ∷ join root ".anti/config.toml" ∷ []
  | none ↦ local_files o
])

unfoldable pub load_with_project : Surroundings → Option String → Result ConfigError Config
load_with_project o project_root =
    elim (apply_files o (config_paths o project_root) (default_config o)) [
      | err e ↦ err e
      | ok c ↦ ok (apply_env o c)
    ]

unfoldable pub load : Surroundings → Result ConfigError Config
load o = load_with_project o none
