-- ===== src/Boot.antt =====
-- cmd/easyworker/main.go: the settings that the flags and the environment give, and the gate that the
-- worker starts with. os.LookupEnv, os.UserHomeDir and the state file's content are parameters.
pub mod Start
pub mod Resume
use easyworker.Base.{
  ℕ, ◌≡◌, ◌≢◌, ◌∙◌, refl, sym, ap, Bool, true, false, Option, none, some, List, [], ◌∷◌, ◌++◌,
  arith, if◌then◌else◌, Bytes, bytes, bytes_eq, bytes_eq_iff, All, Bool-cases, inl, inr,
}
use easyworker.FilePath.{dir, join_path}
use easyworker.Auth.Hex.{Entropy, Fills, random_hex}
use easyworker.Auth.Gate.{Gate, Options, Result, ok, err, new}
use easyworker.Auth.Gate.History.{Call, entropy_of, run, authorized-run_none}
use easyworker.Auth.FileStore.{FileStore, Json, File, Faults, file_store}
use easyworker.Auth.Interceptor.{bearer, check, wrap, unauthenticated}

abbrev pub Host : Type 0
Host = Bytes → Option Bytes

-- os.Getenv
abbrev pub getenv : Host → Bytes → Bytes
getenv host k = elim (host k) [ none ↦ [] | some v ↦ v ]

env_or : Host → Bytes → Bytes → Bytes
env_or host k default = if bytes_eq (getenv host k) [] then default else getenv host k

state_setting : Option Bytes → Bytes → Bytes
state_setting (some v) db = if bytes_eq v [] then [] else if bytes_eq v (bytes "off") then [] else v
state_setting none db = join_path (dir db) (bytes "worker.state")

-- `workerStateFile`; the empty path turns persistence off.
unfoldable pub worker_state_file : Host → Bytes → Bytes
unfolding state_setting
worker_state_file host db = state_setting (host (bytes "WORKER_STATE_FILE")) db

-- `defaultWorkspace`, on what os.UserHomeDir answers.
default_workspace : Option Bytes → Bytes
default_workspace none = join_path (bytes ".") (bytes "EasyLab/workspace")
default_workspace (some home) = join_path home (bytes "EasyLab/workspace")

pub record Flags : Type 0 where
  pub addr : Bytes
  pub workspace : Bytes
  pub db : Bytes

pub record Settings : Type 0 where
  pub listen : Bytes
  pub workspace : Bytes
  pub db : Bytes
  pub state_file : Bytes

abbrev or_default : Bytes → Bytes → Bytes
or_default s default = if bytes_eq s [] then default else s

-- What `main` computes first.
unfoldable pub settings : Flags → Host → Option Bytes → Settings
unfolding env_or default_workspace worker_state_file
settings f host home =
    let db = or_default f.db (env_or host (bytes "WORKER_DB") (bytes "easyworker.db")) in
    record {
      listen =
          or_default f.addr (bytes "0.0.0.0:" ++ env_or host (bytes "WORKER_PORT") (bytes "8080"));
      workspace =
          or_default f.workspace (env_or host (bytes "WORKER_WORKSPACE") (default_workspace home));
      db = db;
      state_file = worker_state_file host db;
    }

-- The state store: none without a path.
unfoldable pub state_store : Bytes → File → List Faults → Option FileStore
state_store path file faults =
    if bytes_eq path [] then none else some (record { path = path; file = file; faults = faults })

unfoldable pub gate_options : Host → Bytes → Option FileStore → Options FileStore
gate_options host boot_id state = record {
  pre_authorized_token = getenv host (bytes "WORKER_TOKEN");
  disabled = bytes_eq (getenv host (bytes "WORKER_REQUIRE_AUTH")) (bytes "0");
  boot_id = boot_id;
  state = state;
}

-- What `main` logs of the gate.
pub data Notice : Type 0 where
  resumed silent : Notice
  unclaimed : Bytes → Notice

unfoldable pub notice : {S : Type 0} → Gate S → Notice
notice g = if g.resumed then resumed else if bytes_eq g.code [] then silent else unclaimed g.code

module _ (j : Json) where
  -- The gate of a worker that starts with these flags and this environment; the file is what the
  -- state file's path holds.
  unfoldable pub boot_gate :
      Flags → Host → Option Bytes → Bytes → File → List Faults → Entropy → Result (Gate FileStore)
  unfolding settings state_store gate_options
  boot_gate f host home boot_id file faults e =
      new (file_store j)
        (gate_options host boot_id (state_store (settings f host home).state_file file faults)) e
