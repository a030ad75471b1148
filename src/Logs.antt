-- ===== src/Logs.antt =====
-- pkg/logger/config.go, and what newRotateWriter and SetupSlog of logger.go make of a configuration. An
-- `int` and a duration are integers, the latter in nanoseconds; `lower` is strings.ToLower.
pub mod Complete
mod Examples
use goddd.Common.Text.{same, codes, Bytes}
use goddd.Common.Int.{leb_ℤ, pos, ℤ}
use goddd.Common.{not, if◌then◌else◌, ◌++◌, Bool, [], List, ◌∷◌, none, false, true, ℕ}

-- The levels of zap that are set.
pub data Level : Type 0 where
  debug_level : Level
  info_level : Level
  warn_level : Level
  error_level : Level

pub record FileConfig : Type 0 where
  pub dir : Bytes
  pub name : Bytes
  pub max_age : ℤ
  pub rotation_time : ℤ
  pub max_size : ℤ
  pub compress : Bool
  pub max_backups : ℤ

pub record Sampler : Type 0 where
  pub tick_sec : ℤ
  pub first : ℤ
  pub thereafter : ℤ

pub record Config : Type 0 where
  pub service_id : Bytes
  pub service_name : Bytes
  pub service_version : Bytes
  pub debug : Bool
  pub level : Bytes
  pub sampler : Sampler
  pub file_config : FileConfig

pub text_or : Bytes → Bytes → Bytes
text_or default s = if same s [] then default else s

pub positive_or : ℤ → ℤ → ℤ
positive_or default n = if leb_ℤ n (pos 0) then default else n

pub ensure_file : FileConfig → FileConfig
unfolding text_or positive_or
ensure_file c = record c {
  dir = text_or (codes "./logs") c.dir;
  name = text_or (codes "app.log") c.name;
  max_age = positive_or (pos 7) c.max_age;
  rotation_time = positive_or (pos 43_200_000_000_000) c.rotation_time;
  max_size = positive_or (pos 50) c.max_size;
}

pub ensure_sampler : Sampler → Sampler
unfolding positive_or
ensure_sampler s = record {
  tick_sec = positive_or (pos 1) s.tick_sec;
  first = positive_or (pos 5) s.first;
  thereafter = positive_or (pos 5) s.thereafter;
}

-- `SetLevel`: the level that a text names.
pub level_of : (Bytes → Bytes) → Bytes → Level
level_of lower l =
    if same (lower l) (codes "debug")
    then debug_level
    else if same (lower l) (codes "warn")
    then warn_level
    else if same (lower l) (codes "error")
    then error_level
    else info_level

pub new_default_config : Config
unfolding ensure_file ensure_sampler
new_default_config = record {
  service_id = [];
  service_name = [];
  service_version = [];
  debug = true;
  level = codes "debug";
  sampler = ensure_sampler (record { tick_sec = pos 0; first = pos 0; thereafter = pos 0 });
  file_config = ensure_file (record {
    dir = [];
    name = [];
    max_age = pos 0;
    rotation_time = pos 0;
    max_size = pos 0;
    compress = false;
    max_backups = pos 0;
  });
}

pub set_max_age : ℤ → Config → Config
set_max_age days c = record c { file_config = record c.file_config { max_age = days } }

pub set_rotation_time : ℤ → Config → Config
set_rotation_time time c = record c { file_config = record c.file_config { rotation_time = time } }

pub set_level : Bytes → Config → Config
set_level level c = record c { level = level }

pub set_sampler : Sampler → Config → Config
set_sampler sampler c = record c { sampler = sampler }

pub set_debug : Bool → Config → Config
set_debug debug c = record c { debug = debug }

pub set_dir : Bytes → Config → Config
set_dir dir c = record c { file_config = record c.file_config { dir = dir } }

pub set_service : Bytes → Bytes → Bytes → Config → Config
set_service id name version c = record c {
  service_id = id;
  service_name = name;
  service_version = version;
}

-- The writer of the log files. `join` is filepath.Join.
pub record RotateWriter : Type 0 where
  pub filename : Bytes
  pub max_size : ℤ
  pub max_age : ℤ
  pub max_backups : ℤ
  pub compression : Bytes
  pub rotation_interval : ℤ

pub rotate_writer : (Bytes → Bytes → Bytes) → FileConfig → RotateWriter
rotate_writer join c = record {
  filename = join c.dir c.name;
  max_size = c.max_size;
  max_age = c.max_age;
  max_backups = c.max_backups;
  compression = if c.compress then codes "gzip" else codes "none";
  rotation_interval = c.rotation_time;
}

pub new_rotate_writer : (Bytes → Bytes → Bytes) → FileConfig → RotateWriter
unfolding ensure_file rotate_writer
new_rotate_writer join cfg = rotate_writer join (ensure_file cfg)

-- An attribute of every line, unless its text is empty.
pub attribute : Bytes → Bytes → List (Bytes × Bytes)
attribute key s = if not (same s []) then (key, s) ∷ [] else []

-- The part of `SetupSlog` before the log is used: the level, the sampler, the writer, the attributes,
-- and the file for crashes.
pub record Setup : Type 0 where
  pub level : Level
  pub sampler : Sampler
  pub writer : RotateWriter
  pub attributes : List (Bytes × Bytes)
  pub crash_file : Bytes

pub setup_slog : (Bytes → Bytes) → (Bytes → Bytes → Bytes) → Config → Setup
unfolding level_of ensure_sampler new_rotate_writer attribute
setup_slog lower join cfg = record {
  level = level_of lower cfg.level;
  sampler = ensure_sampler cfg.sampler;
  writer = new_rotate_writer join cfg.file_config;
  attributes =
      attribute (codes "service_id") cfg.service_id
      ++ attribute (codes "service_name") cfg.service_name
      ++ attribute (codes "service_version") cfg.service_version;
  crash_file = join cfg.file_config.dir (codes "crash.log");
}
