-- ===== src/Cfg/Load.antt =====
-- `init`, `ConfigEnv::load` and `ConfigFile::load` of kobzar/src/cfg.rs. The environment is a function, as it
-- stands once the .env file is read; the files are a parameter.
use kobzar.Base.{
  ℕ, ◌≡◌, [], ◌∷◌, ◌++◌, Option, none, some, ◌>>=◌, Option-cases, inl, inr, Bool, true, Bool-cases,
  ◌==◌, if◌then◌else◌, arith,
}
use kobzar.Cfg.{Text, FilePath, ConfigFile, default_file, Formats, Level, ConfigEnv, Cfg}

-- `exists`, `write` and `read_to_string`
pub record Files : Type 1 where
  pub Store : Type 0
  pub exists : Store → FilePath → Bool
  pub read : Store → FilePath → Option Text
  pub write : Store → FilePath → Text → Option Store
  pub write_exists :
      (st st' : Store) (path : FilePath) (text : Text)
      → write st path text ≡ some st'
      → exists st' path ≡ true
  pub write_read :
      (st st' : Store) (path : FilePath) (text : Text)
      → write st path text ≡ some st'
      → read st' path ≡ some text

abbrev pub Environment : Type 0
Environment = Text → Option Text

-- The names of the variables and the file, and the root user.
abbrev pub var_bind : Text
var_bind = b'B' ∷ b'I' ∷ b'N' ∷ b'D' ∷ []

abbrev pub var_syspath : Text
var_syspath = b'S' ∷ b'Y' ∷ b'S' ∷ b'P' ∷ b'A' ∷ b'T' ∷ b'H' ∷ []

abbrev pub var_root_usr : Text
var_root_usr = b'R' ∷ b'O' ∷ b'O' ∷ b'T' ∷ b'_' ∷ b'U' ∷ b'S' ∷ b'R' ∷ []

abbrev pub var_root_pwd : Text
var_root_pwd = b'R' ∷ b'O' ∷ b'O' ∷ b'T' ∷ b'_' ∷ b'P' ∷ b'W' ∷ b'D' ∷ []

abbrev pub var_root_key : Text
var_root_key = b'R' ∷ b'O' ∷ b'O' ∷ b'T' ∷ b'_' ∷ b'K' ∷ b'E' ∷ b'Y' ∷ []

abbrev pub var_log_level : Text
var_log_level = b'L' ∷ b'O' ∷ b'G' ∷ b'_' ∷ b'L' ∷ b'E' ∷ b'V' ∷ b'E' ∷ b'L' ∷ []

abbrev pub config_toml : Text
config_toml = b'c' ∷ b'o' ∷ b'n' ∷ b'f' ∷ b'i' ∷ b'g' ∷ b'.' ∷ b't' ∷ b'o' ∷ b'm' ∷ b'l' ∷ []

abbrev pub root_name : Text
root_name = b'r' ∷ b'o' ∷ b'o' ∷ b't' ∷ []

abbrev pub or_else {ℓ} : {A : Type ℓ} → Option A → A → A
or_else none d = d
or_else (some a) _ = a

-- a variable that is parsed, with a default where it is missing
abbrev pub parsed_or : {A : Type 0} → (Text → Option A) → A → Option Text → Option A
parsed_or parse d none = some d
parsed_or parse d (some text) = parse text

module _ (f : Formats) where
  open f use {parse_addr, parse_level, localhost, components, to_toml, from_toml, from_toml-to_toml}

  unfoldable pub load_env : Environment → Option (ConfigEnv f)
  load_env var = do
    bind ← parsed_or parse_addr (localhost 5435) (var var_bind)
    syspath ← var var_syspath
    log_level ← parsed_or parse_level Level.info (var var_log_level)
    some (record {
      bind = bind;
      syspath = components syspath;
      root_usr = or_else (var var_root_usr) root_name;
      root_pwd = or_else (var var_root_pwd) [];
      root_key = or_else (var var_root_key) [];
      log_level = log_level;
    })

  module _ (files : Files) where
    open files use {Store, exists, read, write, write_exists, write_read}

    abbrev pub config_path : ConfigEnv f → FilePath
    config_path env = env.syspath ++ (config_toml ∷ [])

    abbrev parsed : Store → Text → Option (ConfigFile × Store)
    parsed st content = from_toml content >>= λ file. some (file, st)

    unfoldable pub load_file : Store → ConfigEnv f → Option (ConfigFile × Store)
    load_file st env =
        let path = config_path env in
        let created = write st path (to_toml default_file) in
        if exists st path
        then (read st path >>= parsed st)
        else (created >>= λ st'. some (default_file, st'))

    abbrev pub threads : ℕ → ConfigFile → ℕ
    threads cpus file = if file.worker_threads == 0 then cpus else file.worker_threads

    unfoldable pub init : ℕ → Environment → Store → Option (Cfg f × Store)
    init cpus var st = do
      env ← load_env var
      (file, st') ← load_file st env
      some (record { file = file; env = env; worker_threads = threads cpus file }, st')

    load_file_again :
        (st st' : Store) (env : ConfigEnv f) (file : ConfigFile)
        → load_file st env ≡ some (file, st')
        → load_file st' env ≡ some (file, st')
    unfolding load_file
    load_file_again st st' env file e = elim (Bool-cases (exists st (config_path env))) [
      | inl there ↦ elim (Option-cases (read st (config_path env))) [
        | inl gone ↦ ground arith
        | inr (content, held) ↦ elim (Option-cases (from_toml content)) [
          | inl bad ↦ ground arith
          | inr (parsed, good) ↦ ground arith
        ]
      ]
      | inr missing ↦ elim (Option-cases (write st (config_path env) (to_toml default_file))) [
        | inl failed ↦ ground arith
        | inr (st₁, written) ↦ ground (
          arith,
          write_exists st st₁ (config_path env) (to_toml default_file) written,
          write_read st st₁ (config_path env) (to_toml default_file) written,
          from_toml-to_toml,
        )
      ]
    ]

    -- A start that succeeds leaves the files in such a state that a start in the same environment
    -- succeeds with the same configuration and leaves the files as they are; the default
    -- configuration is read back from what it is written as.
    pub init_again :
        (cpus : ℕ) (var : Environment) (st st' : Store) (cfg : Cfg f)
        → init cpus var st ≡ some (cfg, st')
        → init cpus var st' ≡ some (cfg, st')
    unfolding init
    init_again cpus var st st' cfg e = elim (Option-cases (load_env var)) [
      | inl no_env ↦ ground arith
      | inr (env, loaded) ↦ elim (Option-cases (load_file st env)) [
        | inl no_file ↦ ground arith
        | inr ((file, st₁), found) ↦ ground (arith, load_file_again st st₁ env file found)
      ]
    ]
