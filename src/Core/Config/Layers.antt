-- ===== src/Core/Config/Layers.antt =====
-- Which layer a setting is from.
use mathlib.Core.Path.{subst}
use anti_subagent.Prelude.{
  ℕ, String, Bool, true, false, ◌≡◌, refl, sym, Option, none, some, List, [], ◌∷◌, ◌++◌, arith,
  Result, ok, is_ok, is_none, all, Option-cases, Result-cases, inl, inr, if◌then◌else◌,
}
use anti_subagent.Core.Config.{
  IpcTransport, Config, Value, Toml, ConfigFile, absent, unreadable, unparsable, parsed,
  ConfigError, Surroundings, default_config, as_u64, as_str, transport_of, u64_of, apply_keys,
  merge_table, read_into, apply_file, apply_env, apply_files, config_paths, load_with_project,
}

-- What one layer says of each setting.
pub record Layer : Type 0 where
  pub stall : Option ℕ
  pub poll : Option ℕ
  pub bin : Option String
  pub transport : Option IpcTransport

abbrev pub section_layer : (String → Option Value) → Layer
section_layer get = record {
  stall = as_u64 (get "stall_timeout_secs");
  poll = as_u64 (get "poll_interval_ms");
  bin = as_str (get "claude_bin");
  transport = transport_of (as_str (get "ipc_transport"));
}

abbrev daemon_layers : Option (String → Option Value) → List Layer
daemon_layers none = []
daemon_layers (some get) = section_layer get ∷ []

-- A file's top level, and then its section [daemon].
abbrev pub file_layers : ConfigFile → List Layer
file_layers absent = []
file_layers unreadable = []
file_layers unparsable = []
file_layers (parsed t) = section_layer t.top ∷ daemon_layers t.daemon

abbrev pub layers_of : Surroundings → List String → List Layer
layers_of o [] = []
layers_of o (p ∷ ps) = file_layers (o.file p) ++ layers_of o ps

abbrev first_of {ℓ} : {A : Type ℓ} → Option A → Option A → Option A
first_of none b = b
first_of (some a) b = some a

abbrev pub env_layer : Surroundings → Layer
env_layer o = record {
  stall = u64_of (o.var "ANTI_STALL_TIMEOUT_SECS");
  poll = u64_of (o.var "ANTI_POLL_INTERVAL_MS");
  bin = first_of (o.var "ANTI_CLAUDE_BIN") (o.var "ANTI_CLaude_BIN");
  transport =
      if is_none (o.var "ANTI_IPC_TRANSPORT")
      then transport_of (o.var "PASEO_LISTEN")
      else transport_of (o.var "ANTI_IPC_TRANSPORT");
}

abbrev pub value_or {ℓ} : {A : Type ℓ} → Option A → A → A
value_or none d = d
value_or (some a) d = a

-- The value of the last layer that has one.
abbrev pub last_of {ℓ} : {A : Type ℓ} → (Layer → Option A) → List Layer → A → A
last_of f [] d = d
last_of f (l ∷ ls) d = last_of f ls (value_or (f l) d)

-- The second configuration is the first with the layers over it.
abbrev pub IsLayered : List Layer → Config → Config → Type 0
IsLayered ls c d =
    (d.state_dir ≡ c.state_dir)
    × (d.stall_timeout ≡ last_of (λ l. l.stall) ls c.stall_timeout)
    × (d.poll_interval ≡ last_of (λ l. l.poll) ls c.poll_interval)
    × (d.claude_bin ≡ last_of (λ l. l.bin) ls c.claude_bin)
    × (d.ipc_transport ≡ last_of (λ l. l.transport) ls c.ipc_transport)

last_of-append {ℓ} :
    {A : Type ℓ} (f : Layer → Option A) (ls ms : List Layer) (d : A)
    → last_of f (ls ++ ms) d ≡ last_of f ms (last_of f ls d)
last_of-append f [] ms d = refl
last_of-append f (l ∷ ls) ms d = last_of-append f ls ms (value_or (f l) d)

IsLayered-append :
    (ls ms : List Layer) (a b c : Config)
    → IsLayered ls a b
    → IsLayered ms b c
    → IsLayered (ls ++ ms) a c
IsLayered-append ls ms a b c (d₁, s₁, p₁, k₁, t₁) (d₂, s₂, p₂, k₂, t₂) = (
  rw (d₂) d₁,
  rw (last_of-append (λ l. l.stall) ls ms a.stall_timeout, s₂, s₁) refl,
  rw (last_of-append (λ l. l.poll) ls ms a.poll_interval, p₂, p₁) refl,
  rw (last_of-append (λ l. l.bin) ls ms a.claude_bin, k₂, k₁) refl,
  rw (last_of-append (λ l. l.transport) ls ms a.ipc_transport, t₂, t₁) refl,
)

section-IsLayered :
    (get : String → Option Value) (c : Config)
    → IsLayered (section_layer get ∷ []) c (apply_keys get c)
unfolding apply_keys
section-IsLayered get c =
    let s = as_u64 (get "stall_timeout_secs") in
    let p = as_u64 (get "poll_interval_ms") in
    let b = as_str (get "claude_bin") in
    let t = transport_of (as_str (get "ipc_transport")) in
    (ground arith, ground arith, ground arith, ground arith, ground arith)

table-IsLayered : (t : Toml) (c : Config) → IsLayered (file_layers (parsed t)) c (merge_table t c)
unfolding merge_table
table-IsLayered t c = elim (Option-cases t.daemon) [
  | inl n ↦ rw (n) (section-IsLayered t.top c)
  | inr (get, y) ↦ rw (y) (
      IsLayered-append (section_layer t.top ∷ []) (section_layer get ∷ []) c (apply_keys t.top c)
        (apply_keys get (apply_keys t.top c)) (section-IsLayered t.top c)
        (section-IsLayered get (apply_keys t.top c)))
]

abbrev pub is_readable : ConfigFile → Bool
is_readable absent = true
is_readable unreadable = false
is_readable unparsable = true
is_readable (parsed t) = true

ok-injective : (c d : Config) → (let r : Result ConfigError Config = ok c in r) ≡ ok d → c ≡ d
ok-injective c d h = ground (arith, h)

read_into-IsLayered :
    (f : ConfigFile) (p : String) (c d : Config)
    → read_into p c f ≡ ok d
    → IsLayered (file_layers f) c d
read_into-IsLayered absent p c d h = rw (sym (ok-injective c d h)) (refl, refl, refl, refl, refl)
read_into-IsLayered unreadable p c d h = absurd (cc h)
read_into-IsLayered unparsable p c d h =
    rw (sym (ok-injective c d h)) (refl, refl, refl, refl, refl)
read_into-IsLayered (parsed t) p c d h =
    rw (sym (ok-injective (merge_table t c) d h)) (table-IsLayered t c)

read_into_ok : (f : ConfigFile) (p : String) (c : Config) → is_ok (read_into p c f) ≡ is_readable f
read_into_ok absent p c = refl
read_into_ok unreadable p c = refl
read_into_ok unparsable p c = refl
read_into_ok (parsed t) p c = refl

file_ok :
    (o : Surroundings) (p : String) (c : Config) → is_ok (apply_file o p c) ≡ is_readable (o.file p)
unfolding apply_file
file_ok o p c = read_into_ok (o.file p) p c

apply_files_ok :
    (o : Surroundings) (ps : List String) (c : Config)
    → is_ok (apply_files o ps c) ≡ all (λ p. is_readable (o.file p)) ps
unfolding apply_files
apply_files_ok o [] c = refl
apply_files_ok o (p ∷ ps) c = elim (Result-cases (apply_file o p c)) [
  | inl (e, y) ↦ ground (arith, y, file_ok o p c)
  | inr (d, y) ↦ ground (arith, y, file_ok o p c, apply_files_ok o ps d)
]

apply_files-IsLayered :
    (o : Surroundings) (ps : List String) (c d : Config)
    → apply_files o ps c ≡ ok d
    → IsLayered (layers_of o ps) c d
unfolding apply_files apply_file
apply_files-IsLayered o [] c d h = rw (sym (ok-injective c d h)) (refl, refl, refl, refl, refl)
apply_files-IsLayered o (p ∷ ps) c d h = elim (Result-cases (read_into p c (o.file p))) [
  | inl (e, y) ↦ absurd (ground (arith, y, h))
  | inr (b, y) ↦
      IsLayered-append (file_layers (o.file p)) (layers_of o ps) c b d
        (read_into-IsLayered (o.file p) p c b y)
        (apply_files-IsLayered o ps b d (ground (arith, y, h)))
]

env-IsLayered : (o : Surroundings) (c : Config) → IsLayered (env_layer o ∷ []) c (apply_env o c)
unfolding apply_env
env-IsLayered o c = (ground arith, ground arith, ground arith, ground arith, ground arith)

-- A configuration is loaded exactly where each of its files can be read, or is missing.
load_with_project_ok :
    (o : Surroundings) (root : Option String)
    → is_ok (load_with_project o root) ≡ all (λ p. is_readable (o.file p)) (config_paths o root)
unfolding load_with_project
load_with_project_ok o root =
    let ps = config_paths o root in
    let c₀ = default_config o in
    elim (Result-cases (apply_files o ps c₀)) [
      | inl (e, y) ↦ ground (arith, y, apply_files_ok o ps c₀)
      | inr (b, y) ↦ ground (arith, y, apply_files_ok o ps c₀)
    ]

-- Each setting of a configuration that is loaded is that of the last layer that has one: the variables of
-- the environment, before them the files from the last to the first, and in a file the section [daemon]
-- before the top level; a setting that no layer has is the default.
pub load_with_project_lem :
    (o : Surroundings) (root : Option String) (c : Config)
    → load_with_project o root ≡ ok c
    → IsLayered (layers_of o (config_paths o root) ++ env_layer o ∷ []) (default_config o) c
unfolding load_with_project
load_with_project_lem o root c h =
    let ps = config_paths o root in
    let c₀ = default_config o in
    elim (Result-cases (apply_files o ps c₀)) [
      | inl (e, y) ↦ absurd (ground (arith, y, h))
      | inr (b, y) ↦
          IsLayered-append (layers_of o ps) (env_layer o ∷ []) c₀ b c
            (apply_files-IsLayered o ps c₀ b y)
            (subst (IsLayered (env_layer o ∷ []) b) (ground (arith, y, h)) (env-IsLayered o b))
    ]
