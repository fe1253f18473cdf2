-- ===== src/Controller/Main/Started.antt =====
-- With which options the controller starts.
use podlock.Prelude.{false, codes, ◌≡◌, refl, sym, subst, ◌∙◌, ap, none, Option, List, Text, All}
use podlock.Fallible
use podlock.Flags.{Flag, parse}
use podlock.Io.{IoError, Result, ok, err, raise, bind-Ran, wrap, ◌>>=◌, ◌>>◌}
use podlock.Api.Scheme
use podlock.Api.Scheme.{Schemes, Knowledge, KnowsAll, add_to_scheme, add_to_scheme-KnowsAll}
use podlock.Finalizers.{Finalizers}
use podlock.Sets.{StringSets}
use podlock.Api.{LandlockProfile}
use podlock.Webhook.Validator.{validate_create, validate_update, validate_delete}
use podlock.Webhook.Defaulter.{default}
use podlock.Controller.Client.{ObjectKey, Pod, Client}
use podlock.Controller.Reconcile.{reconcile, find_profiles_for_pod}
use podlock.Controller.Options.{
  Options, ManagerOptions, default_options, controller_flags, manager_options,
}
use podlock.Controller.Options.Http2.{
  IsHttp1, NotAsked, parse-IsOff, manager_options-IsHttp1, manager_options-IsProtected,
}
use podlock.Controller.Main.{
  Runtime, ControllerBuild, WebhookBuild, landlock_profile_kind, pod_kind, controller_build,
  webhook_build, setup_with_manager, setup_registry_webhook_with_manager, init_scheme, register,
  run_options, controller_main, after_init, controller_program,
}

-- A scheme that init has filled without an error knows all types.
module _ (X : Schemes) (K : Knowledge X) (XL : podlock.Api.Scheme.IsLawful X K) where
  init_scheme-KnowsAll :
      (s : X.Scheme) → (init_scheme X s).0 ≡ ok tt → KnowsAll X K (init_scheme X s).1
  unfolding init_scheme
  init_scheme-KnowsAll s h =
      let ran = bind-Ran X.add_client_go_to_scheme (λ _. add_to_scheme X) s tt h in
      subst (KnowsAll X K) (sym ran.last)
        (add_to_scheme-KnowsAll X K XL _ ran.second (XL.knows_pods-client_go s ran.first))

module _ (F : Finalizers) (S : StringSets) (C : Client) (X : Schemes) (K : Knowledge X)
    (XL : podlock.Api.Scheme.IsLawful X K) {World : Type 0} (R : Runtime C X World) {Z : Type 0}
    (zap_flags : Text → Option (Flag Z)) (zap : Z) where
  -- What a controller has to be built from: it is called for profiles and told of pods, whose
  -- metadata it reads, by the requests for the profile that a pod uses.
  pub record IsReconciler (b : ControllerBuild C) : Type 0 where
    pub for_profiles : b.for_kind ≡ landlock_profile_kind
    pub watches_pods : b.watches ≡ pod_kind
    pub requests : (pod : Pod) → b.requests pod ≡ find_profiles_for_pod pod
    pub reconciles : (s : C.State) (k : ObjectKey) → b.reconciler s k ≡ reconcile F C s k

  -- What a webhook has to be built from: the validator of new and of changed profiles, which lets
  -- all deletions pass, and the defaulter.
  pub record IsAdmission (b : WebhookBuild) : Type 0 where
    pub for_profiles : b.for_kind ≡ landlock_profile_kind
    pub creations : (p : LandlockProfile) → b.on_create p ≡ validate_create S p
    pub updates : (old new : LandlockProfile) → b.on_update old new ≡ validate_update S old new
    pub deletions : (p : LandlockProfile) → b.on_delete p ≡ none
    pub defaults : (p : LandlockProfile) → b.defaulter p ≡ default F p

  -- The manager is made with these options and this scheme, and before it is started each of the
  -- calls has succeeded: the completion of a controller and of a webhook, and the two checks.
  pub record StartsWith (args : List Text) (m : ManagerOptions) : Type 0 where
    pub scheme : X.Scheme
    pub controller : ControllerBuild C
    pub webhook : WebhookBuild
    pub is_reconciler : IsReconciler controller
    pub is_admission : IsAdmission webhook
    pub starts : controller_program F S C R zap_flags zap args ≡ (
        R.new_manager scheme m >>= λ mgr.
        wrap
          (codes "unable to set up LandlockProfile controller")
          (R.complete_controller mgr controller)
        >> wrap (codes "failed to setup LandlockProfile webhook") (R.complete_webhook mgr webhook)
        >> R.add_healthz_check mgr (codes "healthz")
        >> R.add_readyz_check mgr (codes "readyz")
        >> R.start mgr)
    pub has_types : KnowsAll X K scheme
    pub webhook_http1 : IsHttp1 m.webhook_server.tls_opts
    pub metrics_http1 : IsHttp1 m.metrics.tls_opts
    pub is_protected : m.metrics.with_authentication ≡ m.metrics.secure_serving

  -- How the program goes on.
  pub data Course (args : List Text) : Type 0 where
    no_scheme :
        (e : IoError)
        → (init_scheme X X.new_scheme).0 ≡ err e
        → controller_program F S C R zap_flags zap args ≡ raise e
        → Course args
    bad_arguments :
        (e : Text)
        → parse (controller_flags zap_flags) (default_options zap) none args
          ≡ podlock.Fallible.err e
        → controller_program F S C R zap_flags zap args
          ≡ raise (record { message = e; not_exist = false })
        → Course args
    starting : (m : ManagerOptions) → StartsWith args m → Course args

  parsed-Course :
      (args : List Text) (r : podlock.Fallible.Result (Options Z)) (scheme : X.Scheme)
      → All NotAsked args
      → parse (controller_flags zap_flags) (default_options zap) none args ≡ r
      → controller_program F S C R zap_flags zap args
        ≡ controller_main F S C R zap_flags zap scheme args
      → KnowsAll X K scheme
      → Course args
  unfolding controller_main register setup_with_manager setup_registry_webhook_with_manager
      controller_build webhook_build validate_delete
  parsed-Course args (podlock.Fallible.err e) scheme asked h runs known =
      bad_arguments e h (runs ∙ ap (run_options F S C R scheme) h)
  parsed-Course args (podlock.Fallible.ok o) scheme asked h runs known =
      let off = parse-IsOff zap_flags zap args o asked h in
      starting (manager_options o) (record {
        scheme = scheme;
        controller = controller_build F S C;
        webhook = webhook_build F S C;
        is_reconciler = record {
          for_profiles = refl;
          watches_pods = refl;
          requests = λ pod. refl;
          reconciles = λ s k. refl;
        };
        is_admission = record {
          for_profiles = refl;
          creations = λ q. refl;
          updates = λ old new. refl;
          deletions = λ q. refl;
          defaults = λ q. refl;
        };
        starts = runs ∙ ap (run_options F S C R scheme) h;
        has_types = known;
        webhook_http1 = (manager_options-IsHttp1 o off).0;
        metrics_http1 = (manager_options-IsHttp1 o off).1;
        is_protected = manager_options-IsProtected o;
      })

  program-Course :
      (args : List Text) (r : Result (Unit {0}))
      → All NotAsked args
      → (init_scheme X X.new_scheme).0 ≡ r
      → Course args
  unfolding controller_program
  program-Course args (err e) asked h =
      let scheme = (init_scheme X X.new_scheme).1 in
      no_scheme e h (ap (λ r. after_init F S C R zap_flags zap args (r, scheme)) h)
  program-Course args (ok _) asked h =
      let scheme = (init_scheme X X.new_scheme).1 in
      parsed-Course args _ scheme asked refl
        (ap (λ r. after_init F S C R zap_flags zap args (r, scheme)) h)
        (init_scheme-KnowsAll X K XL X.new_scheme h)

  -- If no argument sets `-enable-http2`, the controller ends with the error of the registration of
  -- the types or with that of the arguments, or it makes a manager, whose scheme knows profiles,
  -- their lists and pods, and completes a controller with the reconciler and the requests of the
  -- pods, a webhook with the validator and the defaulter, and the two checks, and starts the manager
  -- only if all of these calls have succeeded, in this order. The server of the webhook and that of
  -- the metrics then offer HTTP/1.1 only, and the metrics are behind authentication if they are
  -- served securely.
  pub controller_program-Course : (args : List Text) → All NotAsked args → Course args
  controller_program-Course args asked = program-Course args _ asked refl
