-- ===== src/Nri/Main.antt =====
-- main and setupKubeClient of cmd/nri/main.go, and startPluginMode of cmd/nri/plugin_mode.go. An
-- error stands for an exit with status 1.
pub mod Copied
use podlock.Prelude.{
  ℕ, Bool, true, false, Option, none, some, List, [], ◌∷◌, ◌++◌, Text, codes, ◌==◌, text_eq,
  if◌then◌else◌,
}
use podlock.Fallible
use podlock.Fallible.{◌>>=◌}
use podlock.Flags.{Flag, value_flag, bool_flag, parse_bool, parse}
use podlock.Io.{IoError, Result, ok, err, Io, raise, lift, wrap, ◌>>◌}
use podlock.Io
use podlock.Levels.{Level, level_info, level_string, parse_log_level}
use podlock.Api.Scheme.{Schemes, add_to_scheme}
use podlock.Nri.HostFs.{HostFs}
use podlock.Nri.Filesystem.{copy_binaries}
use podlock.Nri.Node.{start_init_mode}
use podlock.Nri.Node.Client.{NodeClient}

-- The variables that the flags of `main` are bound to.
pub record Options : Type 0 where
  pub plugin_name : Text
  pub plugin_idx : Text
  pub log_level : Text
  pub init_mode : Bool

unfoldable pub nri_flags : Text → Option (Flag Options)
nri_flags name =
    if name == codes "name"
    then some (value_flag (λ v o. podlock.Fallible.ok (record o { plugin_name = v })))
    else if name == codes "idx"
    then some (value_flag (λ v o. podlock.Fallible.ok (record o { plugin_idx = v })))
    else if name == codes "log-level"
    then some (value_flag (λ v o. podlock.Fallible.ok (record o { log_level = v })))
    else if name == codes "init-mode"
    then some
        (bool_flag (λ v o. parse_bool v >>= λ b. podlock.Fallible.ok (record o { init_mode = b })))
    else none

abbrev pub default_options : Options
default_options = record {
  plugin_name = [];
  plugin_idx = [];
  log_level = level_string level_info;
  init_mode = false;
}

-- stub.Option
pub data StubOption : Type 0 where
  with_on_close : StubOption
  with_plugin_name : Text → StubOption
  with_plugin_idx : Text → StubOption

-- The name and the index are left to the stub if they are not given.
unfoldable pub stub_options : Text → Text → List StubOption
stub_options plugin_name plugin_idx =
    with_on_close
    ∷ ((if plugin_name == [] then [] else with_plugin_name plugin_name ∷ [])
        ++ (if plugin_idx == [] then [] else with_plugin_idx plugin_idx ∷ []))

-- The calls on the libraries of Kubernetes and NRI, over the state of the host and the cluster.
pub record Services (X : Schemes) (World : Type 0) : Type 1 where
  pub new_cache : X.Scheme → Io World (Unit {0})
  -- WaitForCacheSync
  pub wait_for_cache_sync : World → Bool × World
  pub new_client : X.Scheme → Io World (Unit {0})
  -- stub.New, for a plugin with this level, and Stub.Run
  pub Stub : Type 0
  pub new_stub : (log_level : Text) → List StubOption → Io World Stub
  pub run_stub : Stub → Io World (Unit {0})

-- What the process finds: the hexadecimal SHA-256 digest, RetryOnConflict, $NODE_NAME, and the
-- version of Landlock of the kernel.
pub record Process (C : NodeClient) : Type 0 where
  pub sha256 : Text → Text
  pub retry : Io C.State (Unit {0}) → Io C.State (Unit {0})
  pub node_name : Text
  pub abi_version : Result ℕ

abbrev exit_error : Text → IoError
exit_error message = record { message = message; not_exist = false }

abbrev synced : {World : Type 0} → Bool × World → Result (Unit {0}) × World
synced (true, s) = (ok tt, s)
synced (false, s) = (err (exit_error (codes "cache did not sync")), s)

-- The scheme of the plugin.
abbrev pub plugin_scheme : (X : Schemes) → Io X.Scheme (Unit {0})
plugin_scheme X =
    wrap (codes "failed to add podlockv1alpha1 to scheme") (add_to_scheme X)
    >> wrap (codes "failed to add corev1 to scheme") X.add_core_to_scheme

module _ (H : HostFs) (C : NodeClient) where
  abbrev pub World : Type 0
  World = H.State × C.State

  abbrev pub on_host : Io H.State (Unit {0}) → Io World (Unit {0})
  on_host m (s, c) = let (r, t) = m s in (r, (t, c))

  abbrev pub on_cluster : Io C.State (Unit {0}) → Io World (Unit {0})
  on_cluster m (s, c) = let (r, d) = m c in (r, (s, d))

  module _ {X : Schemes} (S : Services X World) where
    -- What setupKubeClient does with the scheme.
    abbrev pub connect : Result (Unit {0}) × X.Scheme → Io World (Unit {0})
    connect (added, scheme) =
        lift added
        >> wrap (codes "failed to create cache") (S.new_cache scheme)
        >> (λ s. synced (S.wait_for_cache_sync s))
        >> wrap (codes "cannot create kube client") (S.new_client scheme)

    -- setupKubeClient; the goroutine of the cache is not modelled.
    unfoldable pub setup_kube_client : Io World (Unit {0})
    setup_kube_client = connect (plugin_scheme X X.new_scheme)

    unfoldable pub start_plugin_mode : (Text → Text) → Options → Io World (Unit {0})
    unfolding stub_options
    start_plugin_mode sha256 o =
        on_host (copy_binaries H sha256)
        >> podlock.Io.◌>>=◌ (S.new_stub o.log_level (stub_options o.plugin_name o.plugin_idx))
            S.run_stub

    unfoldable pub start_mode : Process C → Options → Io World (Unit {0})
    start_mode P o =
        if o.init_mode
        then on_cluster (start_init_mode C P.retry P.node_name P.abi_version)
        else start_plugin_mode P.sha256 o

    -- setupLogger, whose handler writes JSON from this level on, and what follows it
    abbrev pub with_logger :
        Process C → Options → podlock.Fallible.Result Level → Io World (Unit {0})
    with_logger P o (podlock.Fallible.err e) = raise (exit_error e)
    with_logger P o (podlock.Fallible.ok level) = setup_kube_client >> start_mode P o

    abbrev pub run_options : Process C → podlock.Fallible.Result Options → Io World (Unit {0})
    run_options P (podlock.Fallible.err e) = raise (exit_error e)
    run_options P (podlock.Fallible.ok o) = with_logger P o (parse_log_level o.log_level)

    -- main, where `args` are the arguments behind the name of the program
    unfoldable pub nri_main : Process C → List Text → Io World (Unit {0})
    nri_main P args = run_options P (parse nri_flags default_options none args)
