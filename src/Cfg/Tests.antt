-- ===== src/Cfg/Tests.antt =====
-- The configuration at concrete devices and a store of one file.
use kobzar.Base.{ℕ, ◌≡◌, refl, [], ◌∷◌, Option, none, some, true, false, ◌==◌, if◌then◌else◌, arith}
use kobzar.Cfg.{
  Text, FilePath, DeviceConfig, default_file, default_device, root_path, starts_with, better, Level,
  Formats, Cfg, device_at,
}
use kobzar.Cfg.Device.{device_at-walk_up, walk_up}
use kobzar.Cfg.Load.{Files, Environment, load_env, load_file, init, init_again}
use kobzar.Wal.Names.{same_text}

abbrev pub formats : Formats
formats = record {
  SocketAddr = ℕ;
  components = λ text. text ∷ [];
  parse_addr = λ text. none;
  parse_level = λ text. some Level.debug;
  localhost = λ port. port;
  to_toml = λ file. [];
  from_toml = λ text. some default_file;
  from_toml-to_toml = refl;
}

-- one file, which may be missing
abbrev pub one_file : Files
one_file = record {
  Store = Option Text;
  exists = λ st path. elim st [ none ↦ false | some _ ↦ true ];
  read = λ st path. st;
  write = λ st path text. some (some text);
  write_exists = λ st st' path text e. created st' text e;
  write_read = λ st st' path text e. held st' text e;
}
  where
    created :
        (st' : Option Text) (text : Text)
        → ◌≡◌ {A = Option (Option Text)} (some (some text)) (some st')
        → elim st' [ none ↦ false | some _ ↦ true ] ≡ true
    created st' text e = ground arith

    held :
        (st' : Option Text) (text : Text)
        → ◌≡◌ {A = Option (Option Text)} (some (some text)) (some st')
        → st' ≡ some text
    held st' text e = ground arith

-- "/" and the directory `a` below it
abbrev device : FilePath → ℕ → DeviceConfig
device path size = record { path = path; concurrency = none; io_combine_bytes = size }

abbrev dir : FilePath
dir = (b'/' ∷ []) ∷ (b'a' ∷ []) ∷ []

abbrev cfg : Cfg formats
cfg = record {
  file = record default_file { io_device = device root_path 1 ∷ device dir 2 ∷ device dir 3 ∷ [] };
  env = record {
    bind = 0;
    syspath = [];
    root_usr = [];
    root_pwd = [];
    root_key = [];
    log_level = Level.info;
  };
  worker_threads = 1;
}

device_at-walk_up_example :
    device_at formats cfg dir
    ≡ (elim (walk_up dir 2 cfg.file.io_device) [ none ↦ default_device | some d ↦ d ])
device_at-walk_up_example = device_at-walk_up formats cfg dir

most_specific : device_at formats cfg ((b'/' ∷ []) ∷ (b'a' ∷ []) ∷ (b'b' ∷ []) ∷ []) ≡ device dir 2
unfolding device_at better starts_with same_text
most_specific = refl

-- an environment with every variable but BIND
abbrev pub var : Environment
var name = elim name [ [] ↦ none | c ∷ _ ↦ if c == b'B' then none else some (b'x' ∷ []) ]

pub first_start :
    init formats one_file 4 var none
    ≡ some (
      record {
        file = default_file;
        env = record {
          bind = 5435;
          syspath = (b'x' ∷ []) ∷ [];
          root_usr = b'x' ∷ [];
          root_pwd = b'x' ∷ [];
          root_key = b'x' ∷ [];
          log_level = Level.debug;
        };
        worker_threads = 4;
      },
      some [],
    )
unfolding init load_env load_file default_file
first_start = refl

init_again_example :
    init formats one_file 4 var (some [])
    ≡ some (
      record {
        file = default_file;
        env = record {
          bind = 5435;
          syspath = (b'x' ∷ []) ∷ [];
          root_usr = b'x' ∷ [];
          root_pwd = b'x' ∷ [];
          root_key = b'x' ∷ [];
          log_level = Level.debug;
        };
        worker_threads = 4;
      },
      some [],
    )
init_again_example = init_again formats one_file 4 var none (some []) _ first_start
