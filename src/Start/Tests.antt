-- ===== src/Start/Tests.antt =====
-- A start of the server in a process of its own.
use kobzar.Base.{ℕ, ◌≡◌, refl, arith, [], ◌∷◌, none, some, false}
use kobzar.Cfg.{Level, Cfg, default_file}
use kobzar.Cfg.Tests.{formats, one_file, var, first_start}
use kobzar.Start.{Runtimes, main}
use kobzar.Start.Laws.{running, fresh, main-IsStart}

-- a runtime is the number of its threads
abbrev numbered : Runtimes
numbered = record { Runtime = ℕ; build = λ threads. some threads }

abbrev config : Cfg formats
config = record {
  file = default_file;
  env = record {
    bind = 5435;
    syspath = (b'x' ∷ []) ∷ [];
    root_usr = b'x' ∷ [];
    root_pwd = b'x' ∷ [];
    root_key = b'x' ∷ [];
    log_level = Level.debug;
  };
  worker_threads = 4;
}

-- the first start, and no second one
starts :
    main formats numbered one_file false 4 var none (fresh formats)
    ≡ some (running formats false config, some [], 4)
starts =
    (main-IsStart formats one_file numbered false 4 var none (some []) (fresh formats)
        (running formats false config) 4 (omega arith)).1
      (refl, refl, (config, first_start, refl, refl))
