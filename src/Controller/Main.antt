-- ===== src/Controller/Main.antt =====
-- main and init of cmd/controller/main.go, with SetupWithManager of the controller and
-- SetupRegistryWebhookWithManager of the webhook.
pub mod Started
use podlock.Prelude.{Bool, true, false, Option, none, List, Text, codes}
use podlock.Fallible
use podlock.Flags.{Flag, parse}
use podlock.Io.{IoError, Result, ok, err, Io, raise, wrap, ◌>>=◌, ◌>>◌}
use podlock.Finalizers.{Finalizers}
use podlock.Sets.{StringSets}
use podlock.Api.{LandlockProfile}
use podlock.Api.Scheme.{Schemes, add_to_scheme}
use podlock.Webhook.Validator.{InvalidError, validate_create, validate_update, validate_delete}
use podlock.Webhook.Defaulter.{default}
use podlock.Controller.Client.{ObjectKey, Pod, Client}
use podlock.Controller.Reconcile.{Outcome, reconcile, find_profiles_for_pod}
use podlock.Controller.Options.{
  Options, ManagerOptions, default_options, controller_flags, manager_options,
}

-- The API objects that the manager is told about.
pub data Kind : Type 0 where
  landlock_profile_kind : Kind
  pod_kind : Kind

-- What the builder of a controller has been given.
pub record ControllerBuild (C : Client) : Type 0 where
  pub for_kind : Kind
  pub watches : Kind
  pub requests : Pod → List ObjectKey
  pub only_metadata : Bool
  pub named : Text
  pub reconciler : C.State → ObjectKey → Outcome C

-- What the builder of a webhook has been given.
pub record WebhookBuild : Type 0 where
  pub for_kind : Kind
  pub on_create : LandlockProfile → Option InvalidError
  pub on_update : LandlockProfile → LandlockProfile → Option InvalidError
  pub on_delete : LandlockProfile → Option InvalidError
  pub defaulter : LandlockProfile → LandlockProfile

-- The calls of controller-runtime, over the state of the process. The scheme is a field of the
-- options of the manager in the code.
pub record Runtime (C : Client) (X : Schemes) (World : Type 0) : Type 1 where
  pub Manager : Type 0
  pub new_manager : X.Scheme → ManagerOptions → Io World Manager
  -- Complete, of the two builders
  pub complete_controller : Manager → ControllerBuild C → Io World (Unit {0})
  pub complete_webhook : Manager → WebhookBuild → Io World (Unit {0})
  pub add_healthz_check : Manager → Text → Io World (Unit {0})
  pub add_readyz_check : Manager → Text → Io World (Unit {0})
  pub start : Manager → Io World (Unit {0})

-- init, where `utilruntime.Must` makes a panic of an error
unfoldable pub init_scheme : (X : Schemes) → Io X.Scheme (Unit {0})
init_scheme X = X.add_client_go_to_scheme >> add_to_scheme X

abbrev exit_error : Text → IoError
exit_error message = record { message = message; not_exist = false }

module _ (F : Finalizers) (S : StringSets) (C : Client) where
  unfoldable pub controller_build : ControllerBuild C
  controller_build = record {
    for_kind = landlock_profile_kind;
    watches = pod_kind;
    requests = find_profiles_for_pod;
    only_metadata = true;
    named = codes "landlockprofile";
    reconciler = reconcile F C;
  }

  unfoldable pub webhook_build : WebhookBuild
  webhook_build = record {
    for_kind = landlock_profile_kind;
    on_create = validate_create S;
    on_update = validate_update S;
    on_delete = validate_delete S;
    defaulter = default F;
  }

  module _ {X : Schemes} {World : Type 0} (R : Runtime C X World) where
    unfoldable pub setup_with_manager : R.Manager → Io World (Unit {0})
    unfolding controller_build
    setup_with_manager mgr =
        wrap (codes "unable to set up LandlockProfile controller")
          (R.complete_controller mgr controller_build)

    unfoldable pub setup_registry_webhook_with_manager : R.Manager → Io World (Unit {0})
    unfolding webhook_build
    setup_registry_webhook_with_manager mgr =
        wrap (codes "failed to setup LandlockProfile webhook")
          (R.complete_webhook mgr webhook_build)

    -- What main does with the manager before it starts it.
    unfoldable pub register : R.Manager → Io World (Unit {0})
    register mgr =
        setup_with_manager mgr
        >> setup_registry_webhook_with_manager mgr
        >> R.add_healthz_check mgr (codes "healthz")
        >> R.add_readyz_check mgr (codes "readyz")

    abbrev pub run_options :
        {Z : Type 0} → X.Scheme → podlock.Fallible.Result (Options Z) → Io World (Unit {0})
    run_options scheme (podlock.Fallible.err e) = raise (exit_error e)
    run_options scheme (podlock.Fallible.ok o) =
        R.new_manager scheme (manager_options o) >>= λ mgr. register mgr >> R.start mgr

    -- main, where `args` are the arguments behind the name of the program; an error stands for an
    -- exit with a status that is not 0.
    unfoldable pub controller_main :
        {Z : Type 0} → (Text → Option (Flag Z)) → Z → X.Scheme → List Text → Io World (Unit {0})
    controller_main zap_flags zap scheme args =
        run_options scheme (parse (controller_flags zap_flags) (default_options zap) none args)

    -- An error of init is a panic.
    abbrev pub after_init :
        {Z : Type 0}
        → (Text → Option (Flag Z))
        → Z
        → List Text
        → Result (Unit {0}) × X.Scheme
        → Io World (Unit {0})
    after_init zap_flags zap args (err e, scheme) = raise e
    after_init zap_flags zap args (ok _, scheme) = controller_main zap_flags zap scheme args

    -- The program: init fills the scheme, and main uses it.
    unfoldable pub controller_program :
        {Z : Type 0} → (Text → Option (Flag Z)) → Z → List Text → Io World (Unit {0})
    controller_program zap_flags zap args =
        after_init zap_flags zap args (init_scheme X X.new_scheme)
