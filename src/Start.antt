-- ===== src/Start.antt =====
-- `main` of kobzar/src/main.rs and `init_log` of kobzar/src/cfg.rs. The globals of the process are passed on;
-- a panic is the result none. The logger and the runtime are parameters: `apply` refuses a second logger, and
-- the builder of the runtime panics at no threads.
pub mod Laws
mod Tests
use kobzar.Base.{ℕ, Option, none, some, ◌>>=◌, Bool, if◌then◌else◌, ◌==◌}
use kobzar.Cfg.{Formats, Cfg, LevelFilter, log_level_filter}
use kobzar.Cfg.Load.{Files, Environment, init}

-- The runtime of tokio with a number of threads, or a failure to make it.
pub record Runtimes : Type 1 where
  pub Runtime : Type 0
  pub build : ℕ → Option Runtime

module _ (f : Formats) where
  -- the configuration that `CFG` holds, and the level of the global logger
  pub record Process : Type 0 where
    pub global : Option (Cfg f)
    pub logger : Option LevelFilter

  -- `OnceLock::set` with `expect`
  unfoldable pub set_global : Process → Cfg f → Option Process
  set_global p config = elim p.global [
    | none ↦ some (record p { global = some config })
    | some _ ↦ none
  ]

  -- `cfg()`
  unfoldable pub cfg : Process → Option (Cfg f)
  cfg p = p.global

  -- The filter of the package; a test build logs all of it.
  unfoldable pub init_log : Bool → Process → Cfg f → Option Process
  init_log test p config = elim p.logger [
    | none ↦ some (record p {
      logger = some (if test then LevelFilter.trace else log_level_filter config.env.log_level);
    })
    | some _ ↦ none
  ]

  module _ (r : Runtimes) where
    open r use {Runtime, build}

    -- `Builder::worker_threads`, which panics at 0, and `build` with `expect`
    unfoldable pub build_runtime : ℕ → Option Runtime
    build_runtime threads = if threads == 0 then none else build threads

    module _ (files : Files) where
      -- The state of the process and the files when the runtime starts `async_main`, which does nothing.
      unfoldable pub main :
          Bool → ℕ → Environment → files.Store → Process → Option (Process × files.Store × Runtime)
      main test cpus var st p = do
        (config, st') ← init f files cpus var st
        p₁ ← init_log test p config
        p₂ ← set_global p₁ config
        config' ← cfg p₂
        runtime ← build_runtime config'.worker_threads
        some (p₂, st', runtime)
