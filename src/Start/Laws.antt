-- ===== src/Start/Laws.antt =====
-- What `main` of kobzar/src/main.rs makes of a process.
use kobzar.Base.{
  ℕ, ◌<◌, ◌≡◌, refl, arith, ap, sym, ◌↔◌, none, some, Bool, if◌then◌else◌, Option-cases, inl, inr,
}
use kobzar.Cfg.{Formats, Cfg, LevelFilter, log_level_filter}
use kobzar.Cfg.Load.{Files, Environment, init, load_env, load_file}
use kobzar.Start.{Process, set_global, cfg, init_log, Runtimes, build_runtime, main}

module _ (f : Formats) where
  abbrev pub level_of : Bool → Cfg f → LevelFilter
  level_of test config = if test then LevelFilter.trace else log_level_filter config.env.log_level

  abbrev pub fresh : Process f
  fresh = record { global = none; logger = none }

  abbrev pub running : Bool → Cfg f → Process f
  running test config = record { global = some config; logger = some (level_of test config) }

module _ (f : Formats) (files : Files) where
  -- there is a thread where there is a processor
  init-threads :
      (cpus : ℕ) (var : Environment) (st st' : files.Store) (config : Cfg f)
      → 0 < cpus
      → init f files cpus var st ≡ some (config, st')
      → 0 < config.worker_threads
  unfolding init
  init-threads cpus var st st' config pos e = elim (Option-cases (load_env f var)) [
    | inl no_env ↦ absurd (let h = rw no_env at e in cc (h))
    | inr (env, loaded) ↦ elim (Option-cases (load_file f files st env)) [
      | inl no_file ↦ absurd (let h = rw (loaded, no_file) at e in cc (h))
      | inr ((file, st₁), found) ↦ ground arith
    ]
  ]

  module _ (r : Runtimes) where
    build_runtime-some :
        (n : ℕ) {runtime : r.Runtime}
        → 0 < n
        → r.build n ≡ some runtime
        → build_runtime f r n ≡ some runtime
    unfolding build_runtime
    build_runtime-some n pos e = ground arith

    -- what a start needs, and what it makes of the process and the files
    abbrev pub IsStart :
        Bool
        → ℕ
        → Environment
        → files.Store
        → Process f
        → Process f
        → files.Store
        → r.Runtime
        → Type 0
    IsStart test cpus var st p p' st' runtime =
        (p.logger ≡ none)
        × (p.global ≡ none)
        × ((config : Cfg f) × (init f files cpus var st ≡ some (config, st'))
            × (r.build config.worker_threads ≡ some runtime)
            × (p' ≡ running f test config))

    IsStart-starts :
        (test : Bool) (cpus : ℕ) (var : Environment) (st st' : files.Store) (p p' : Process f)
        {runtime : r.Runtime}
        → 0 < cpus
        → IsStart test cpus var st p p' st' runtime
        → main f r files test cpus var st p ≡ some (p', st', runtime)
    unfolding main init_log set_global cfg
    IsStart-starts test cpus var st st' p p' pos
          (no_logger, no_global, (config, loaded, built, made)) =
        let some_there = init-threads cpus var st st' config pos loaded in
        rw
          (
            loaded,
            no_logger,
            no_global,
            build_runtime-some config.worker_threads some_there built,
            made,
          )
          refl

    build_runtime-built :
        (n : ℕ) {runtime : r.Runtime}
        → build_runtime f r n ≡ some runtime
        → r.build n ≡ some runtime
    unfolding build_runtime
    build_runtime-built n e = ground arith

    main_inverts :
        (test : Bool) (cpus : ℕ) (var : Environment) (st st' : files.Store) (p p' : Process f)
        {runtime : r.Runtime}
        → main f r files test cpus var st p ≡ some (p', st', runtime)
        → IsStart test cpus var st p p' st' runtime
    unfolding main init_log set_global cfg
    main_inverts test cpus var st st' p p' {runtime} e =
        elim (Option-cases (init f files cpus var st)) [
          | inl failed ↦ absurd (let h = rw failed at e in cc (h))
          | inr ((config, st₁), loaded) ↦ elim (Option-cases p.logger) [
            | inr (level, set) ↦ absurd (let h = rw (loaded, set) at e in cc (h))
            | inl no_logger ↦ elim (Option-cases p.global) [
              | inr (other, set) ↦ absurd (let h = rw (loaded, no_logger, set) at e in cc (h))
              | inl no_global ↦ elim (Option-cases (build_runtime f r config.worker_threads)) [
                | inl failed ↦
                    absurd (let h = rw (loaded, no_logger, no_global, failed) at e in cc (h))
                | inr (made, built) ↦
                    let h = rw (loaded, no_logger, no_global, built) at e in
                    let all : ◌≡◌ {A = Process f × files.Store × r.Runtime}
                        (running f test config, st₁, made) (p', st', runtime) =
                      cc (h) in
                    let same_files : st₁ ≡ st' =
                      ap (λ (q : Process f × files.Store × r.Runtime). q.1) all in
                    let same_runtime : made ≡ runtime =
                      ap (λ (q : Process f × files.Store × r.Runtime). q.2) all in
                    (
                      no_logger,
                      no_global,
                      (
                        config,
                        rw (← same_files) loaded,
                        build_runtime-built config.worker_threads (rw (← same_runtime) built),
                        sym (ap (λ (q : Process f × files.Store × r.Runtime). q.0) all),
                      ),
                    )
              ]
            ]
          ]
        ]

    -- On a machine with at least one processor, main starts the runtime exactly if the process
    -- has neither a configuration nor a logger, init succeeds and the runtime can be built for
    -- the threads of the configuration that init answers; the process then has this configuration
    -- as the global one, and the logger at its level or at trace in a test build.
    pub main-IsStart :
        (test : Bool) (cpus : ℕ) (var : Environment) (st st' : files.Store) (p p' : Process f)
        (runtime : r.Runtime)
        → 0 < cpus
        → (main f r files test cpus var st p ≡ some (p', st', runtime))
          ↔ IsStart test cpus var st p p' st' runtime
    main-IsStart test cpus var st st' p p' runtime pos =
        (main_inverts test cpus var st st' p p', IsStart-starts test cpus var st st' p p' pos)
