-- ===== src/Config.antt =====
-- internal/config/config.go: the configuration and its getters.
pub mod Size
pub mod Load
pub mod Valid
mod Tests
use yuclase.Base.{ℕ, ◌*◌, List, ◌++◌}
use yuclase.Base.Int64.{ℤ, pos_part, neg_part, sub_ℕ, wrap64}
use yuclase.Base.Bytes.{codes, decimal_ℤ}

pub record ServerConfig : Type 0 where
  pub host : List ℕ
  pub port : ℤ
  pub max_connections : ℤ

pub record StorageConfig : Type 0 where
  pub data_directory : List ℕ
  pub log_segment_size : List ℕ
  pub index_interval : ℤ
  pub retention_hours : ℤ
  pub log_segment_bytes : ℤ

pub record NodeConfig : Type 0 where
  pub id : List ℕ
  pub host : List ℕ
  pub port : ℤ

pub record ClusterConfig : Type 0 where
  pub node_id : List ℕ
  pub nodes : List NodeConfig

pub record PerformanceConfig : Type 0 where
  pub write_buffer_size : List ℕ
  pub read_buffer_size : List ℕ
  pub sync_interval : List ℕ
  pub cleanup_interval : List ℕ
  pub write_buffer_bytes : ℤ
  pub read_buffer_bytes : ℤ
  pub sync_duration : ℤ
  pub cleanup_duration : ℤ

pub record LoggingConfig : Type 0 where
  pub level : List ℕ
  pub log_file : List ℕ

pub record Config : Type 0 where
  pub server : ServerConfig
  pub storage : StorageConfig
  pub cluster : ClusterConfig
  pub performance : PerformanceConfig
  pub logging : LoggingConfig

abbrev pub get_log_segment_bytes : Config → ℤ
get_log_segment_bytes c = c.storage.log_segment_bytes

abbrev pub get_write_buffer_bytes : Config → ℤ
get_write_buffer_bytes c = c.performance.write_buffer_bytes

abbrev pub get_read_buffer_bytes : Config → ℤ
get_read_buffer_bytes c = c.performance.read_buffer_bytes

abbrev pub get_sync_interval : Config → ℤ
get_sync_interval c = c.performance.sync_duration

abbrev pub get_cleanup_interval : Config → ℤ
get_cleanup_interval c = c.performance.cleanup_duration

-- time.Hour, in nanoseconds
abbrev pub hour : ℕ
hour = 3600 * 1000000000

-- `GetRetentionDuration`: the product is an int64.
unfoldable pub get_retention_duration : Config → ℤ
unfolding wrap64
get_retention_duration c =
    let h = c.storage.retention_hours in wrap64 (sub_ℕ (pos_part h * hour) (neg_part h * hour))

unfoldable pub get_server_address : Config → List ℕ
unfolding decimal_ℤ
get_server_address c = c.server.host ++ codes ":" ++ decimal_ℤ c.server.port
