-- ===== src/Config/Load.antt =====
-- `LoadConfig` of internal/config/config.go. What `os.ReadFile`, `yaml.Unmarshal`, `os.Getenv` and
-- `time.ParseDuration` return is a parameter.
use yuclase.Base.{ℕ, Bool, true, false, ◌||◌, List, [], ◌∷◌, ◌++◌, if◌then◌else◌}
use yuclase.Base.Int64.{ℤ, pos, ltb_ℤ, leb_ℤ}
use yuclase.Base.Bytes.{codes, decimal_ℤ}
use yuclase.Base.Exec.{
  Result, ok, err, panic, deadlock, stuck, text, Exec, lift, gets, wrapping, modify, when,
  wrap_result, ◌>>=◌, ◌>>◌,
}
use yuclase.Config.{Config}
use yuclase.Config.Size.{parse_size}
use yuclase.Base.Text.{parse_int}

-- `setDefaults`
unfoldable pub defaults : Config
defaults = record {
  server = record { host = codes "localhost"; port = pos 8080; max_connections = pos 1000 };
  storage = record {
    data_directory = codes "./data";
    log_segment_size = codes "100MB";
    index_interval = pos 1000;
    retention_hours = pos 168;
    log_segment_bytes = pos 0;
  };
  cluster = record {
    node_id = codes "node-1";
    nodes = record { id = codes "node-1"; host = codes "localhost"; port = pos 8080 } ∷ [];
  };
  performance = record {
    write_buffer_size = codes "64KB";
    read_buffer_size = codes "64KB";
    sync_interval = codes "1s";
    cleanup_interval = codes "1h";
    write_buffer_bytes = pos 0;
    read_buffer_bytes = pos 0;
    sync_duration = pos 0;
    cleanup_duration = pos 0;
  };
  logging = record { level = codes "info"; log_file = codes "./logs/yuclase.log" };
}

-- An environment variable that is empty changes nothing.
abbrev override : List ℕ → (List ℕ → Config → Config) → Config → Config
override [] f c = c
override (x ∷ xs) f c = f (x ∷ xs) c

abbrev set_host : List ℕ → Config → Config
set_host h c = record c { server = record c.server { host = h } }

-- A port that is no number is ignored.
abbrev set_port_to : Result ℤ → Config → Config
set_port_to (ok p) c = record c { server = record c.server { port = p } }
set_port_to (err e) c = c
set_port_to panic c = c
set_port_to deadlock c = c
set_port_to stuck c = c

abbrev set_port : List ℕ → Config → Config
set_port p = set_port_to (parse_int p)

abbrev set_data_directory : List ℕ → Config → Config
set_data_directory d c = record c { storage = record c.storage { data_directory = d } }

abbrev set_level : List ℕ → Config → Config
set_level l c = record c { logging = record c.logging { level = l } }

-- `loadFromEnv`
unfoldable pub load_from_env : (List ℕ → List ℕ) → Config → Config
load_from_env getenv c = override (getenv (codes "YUCLASE_LOG_LEVEL")) set_level (
    override (getenv (codes "YUCLASE_DATA_DIR")) set_data_directory (
      override (getenv (codes "YUCLASE_PORT")) set_port
        (override (getenv (codes "YUCLASE_HOST")) set_host c)))

-- `x, err := parse(text)`, the return of the error, and the store of `x`.
unfoldable pub stored : (ℤ → Config → Config) → Result ℤ → Exec Config (Unit {0})
stored set (ok x) c = (ok tt, set x c)
stored set (err e) c = (err e, c)
stored set panic c = (panic, c)
stored set deadlock c = (deadlock, c)
stored set stuck c = (stuck, c)

unfoldable pub parse_into :
    (List ℕ → Result ℤ)
    → List ℕ
    → (Config → List ℕ)
    → (ℤ → Config → Config)
    → Exec Config (Unit {0})
unfolding stored
parse_into parse message get set c = stored set (wrap_result message (parse (get c))) c

abbrev pub set_segment_bytes : ℤ → Config → Config
set_segment_bytes n c = record c { storage = record c.storage { log_segment_bytes = n } }

abbrev pub set_write_bytes : ℤ → Config → Config
set_write_bytes n c = record c { performance = record c.performance { write_buffer_bytes = n } }

abbrev pub set_read_bytes : ℤ → Config → Config
set_read_bytes n c = record c { performance = record c.performance { read_buffer_bytes = n } }

abbrev pub set_sync : ℤ → Config → Config
set_sync n c = record c { performance = record c.performance { sync_duration = n } }

abbrev pub set_cleanup : ℤ → Config → Config
set_cleanup n c = record c { performance = record c.performance { cleanup_duration = n } }

abbrev pub parse_segment_size : Exec Config (Unit {0})
parse_segment_size =
    parse_into parse_size (codes "invalid log_segment_size") (λ c. c.storage.log_segment_size)
      set_segment_bytes

abbrev pub parse_write_buffer : Exec Config (Unit {0})
parse_write_buffer =
    parse_into parse_size (codes "invalid write_buffer_size") (λ c. c.performance.write_buffer_size)
      set_write_bytes

abbrev pub parse_read_buffer : Exec Config (Unit {0})
parse_read_buffer =
    parse_into parse_size (codes "invalid read_buffer_size") (λ c. c.performance.read_buffer_size)
      set_read_bytes

-- The tests at the end of `parseAndValidate`.
unfoldable pub validate : Config → Result (Unit {0})
validate c =
    if leb_ℤ c.server.port (pos 0) || ltb_ℤ (pos 65535) c.server.port
    then err (text (codes "invalid port: " ++ decimal_ℤ c.server.port))
    else if leb_ℤ c.storage.retention_hours (pos 0)
    then err (text (codes "retention_hours must be positive"))
    else if leb_ℤ c.storage.index_interval (pos 0)
    then err (text (codes "index_interval must be positive"))
    else ok tt

abbrev pub check_values : Exec Config (Unit {0})
check_values c = (validate c, c)

module _ (parse_duration : List ℕ → Result ℤ) where
  abbrev pub parse_sync : Exec Config (Unit {0})
  parse_sync =
      parse_into parse_duration (codes "invalid sync_interval") (λ c. c.performance.sync_interval)
        set_sync

  abbrev pub parse_cleanup : Exec Config (Unit {0})
  parse_cleanup =
      parse_into parse_duration (codes "invalid cleanup_interval")
        (λ c. c.performance.cleanup_interval) set_cleanup

  -- `parseAndValidate`
  unfoldable pub parse_and_validate : Exec Config (Unit {0})
  parse_and_validate = do
    parse_segment_size
    parse_write_buffer
    parse_read_buffer
    parse_sync
    parse_cleanup
    check_values

-- What the program gets from outside.
pub record World : Type 0 where
  pub read_file : List ℕ → Result (List ℕ)
  pub unmarshal_yaml : List ℕ → Config → Result Config
  pub getenv : List ℕ → List ℕ
  pub parse_duration : List ℕ → Result ℤ

-- `loadFromFile`
unfoldable pub load_from_file : World → List ℕ → Exec Config (Unit {0})
load_from_file w path = do
  bytes ← lift (w.read_file path)
  c ← λ d. (w.unmarshal_yaml bytes d, d)
  modify (λ d. c)

abbrev pub not_empty : List ℕ → Bool
not_empty [] = false
not_empty (x ∷ xs) = true

-- if configPath != "" { … }
abbrev pub load_file_step : World → List ℕ → Exec Config (Unit {0})
load_file_step w path =
    when (not_empty path) (wrapping (codes "failed to load config file") (load_from_file w path))

abbrev pub env_step : World → Exec Config (Unit {0})
env_step w = modify (load_from_env w.getenv)

abbrev pub validation_step : World → Exec Config (Unit {0})
validation_step w =
    wrapping (codes "config validation failed") (parse_and_validate w.parse_duration)

-- `LoadConfig`
unfoldable pub load_config : World → List ℕ → Result Config
load_config w path =
    ((do load_file_step w path; env_step w; validation_step w; gets (λ c. c)) defaults).0
