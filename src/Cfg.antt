-- ===== src/Cfg.antt =====
-- The configuration, kobzar/src/cfg.rs. A path is the list of its components, the root directory among
-- them. The environment, the files, the format of the configuration file and the count of processors are
-- parameters; a panic is the result none.
pub mod Device
pub mod Load
pub mod Tests
use kobzar.Base.{
  ℕ, zero, suc, ◌*◌, List, [], ◌∷◌, ◌++◌, Option, none, some, ◌>>=◌, Bool, true, false, ◌&&◌, ◌==◌,
  ltb, if◌then◌else◌, length, ◌≡◌,
}
use kobzar.Wal.Names.{same_text}

abbrev pub Text : Type 0
Text = List ℕ

abbrev pub FilePath : Type 0
FilePath = List Text

pub record DeviceConfig : Type 0 where
  pub path : FilePath
  pub concurrency : Option ℕ
  pub io_combine_bytes : ℕ

pub record ConfigFile : Type 0 where
  pub worker_threads : ℕ
  pub max_connections : ℕ
  pub io_device : List DeviceConfig
  pub wal_frag_soft_max_bytes : ℕ
  pub wal_frag_min_bytes : ℕ
  pub wal_target_entries : ℕ
  pub primary_index_cache_recs : ℕ
  pub heap_index_cache_recs : ℕ

-- "/"
abbrev pub root_path : FilePath
root_path = (b'/' ∷ []) ∷ []

unfoldable pub default_device : DeviceConfig
default_device = record { path = root_path; concurrency = some 1; io_combine_bytes = 8192 }

unfoldable pub default_file : ConfigFile
default_file = record {
  worker_threads = 0;
  max_connections = 1024;
  io_device = default_device ∷ [];
  wal_frag_soft_max_bytes = 1024 * 1024 * 10;
  wal_frag_min_bytes = 1024 * 1024;
  wal_target_entries = 1024;
  primary_index_cache_recs = 128;
  heap_index_cache_recs = 128;
}

-- `Path::starts_with`, component by component
unfoldable pub starts_with : FilePath → FilePath → Bool
starts_with path [] = true
starts_with [] (b ∷ base) = false
starts_with (p ∷ path) (b ∷ base) = same_text p b && starts_with path base

-- one round of the loop of `device_at`
unfoldable pub better :
    FilePath → Option (DeviceConfig × ℕ) → DeviceConfig → Option (DeviceConfig × ℕ)
better path best device =
    let cnt = length device.path in
    if starts_with path device.path
    then elim best [
      | none ↦ some (device, cnt)
      | some (held, best_cnt) ↦
          if ltb best_cnt cnt then some (device, cnt) else some (held, best_cnt)
    ]
    else best

abbrev pub best_of :
    FilePath → Option (DeviceConfig × ℕ) → List DeviceConfig → Option (DeviceConfig × ℕ)
best_of path best [] = best
best_of path best (device ∷ devices) = best_of path (better path best device) devices

pub data Level : Type 0 where
  trace debug info warn error : Level

pub data LevelFilter : Type 0 where
  off error warn info debug trace : LevelFilter

unfoldable pub log_level_filter : Level → LevelFilter
log_level_filter Level.trace = LevelFilter.trace
log_level_filter Level.debug = LevelFilter.debug
log_level_filter Level.info = LevelFilter.info
log_level_filter Level.warn = LevelFilter.warn
log_level_filter Level.error = LevelFilter.error

-- What the standard library and the crates give: addresses, paths and log levels with their parsers, and the
-- format of the configuration file.
pub record Formats : Type 1 where
  pub SocketAddr : Type 0
  pub components : Text → FilePath
  pub parse_addr : Text → Option SocketAddr
  pub parse_level : Text → Option Level
  pub localhost : ℕ → SocketAddr
  pub to_toml : ConfigFile → Text
  pub from_toml : Text → Option ConfigFile
  pub from_toml-to_toml : from_toml (to_toml default_file) ≡ some default_file

module _ (f : Formats) where
  open f use {SocketAddr}

  pub record ConfigEnv : Type 0 where
    pub bind : SocketAddr
    pub syspath : FilePath
    pub root_usr : Text
    pub root_pwd : Text
    pub root_key : Text
    pub log_level : Level

  pub record Cfg : Type 0 where
    pub file : ConfigFile
    pub env : ConfigEnv
    pub worker_threads : ℕ

  unfoldable pub device_at : Cfg → FilePath → DeviceConfig
  device_at cfg path = elim (best_of path none cfg.file.io_device) [
    | none ↦ default_device
    | some (device, _) ↦ device
  ]
