-- ===== src/Controller/Options.antt =====
-- The flags of cmd/controller/main.go, and the options that it makes of them.
pub mod Http2
use podlock.Prelude.{
  ◌≡◌, Bool, true, false, not, Option, none, some, List, [], ◌∷◌, ◌++◌, Text, codes, length, ltb,
  ◌==◌, text_eq, if◌then◌else◌,
}
use podlock.Fallible
use podlock.Map.{Map, lookup}
use podlock.Fallible.{◌>>=◌}
use podlock.Flags.{Flag, value_flag, bool_flag, parse_bool, parse}
use podlock.Io
use podlock.Io.{IoError, Io, raise, wrap, ◌>>◌}
use podlock.Finalizers.{Finalizers}
use podlock.Sets.{StringSets}
use podlock.Api.{LandlockProfile}
use podlock.Webhook.Validator.{InvalidError, validate_create, validate_update, validate_delete}
use podlock.Webhook.Defaulter.{default}
use podlock.Controller.Client.{ObjectKey, Pod, Client}
use podlock.Controller.Reconcile.{Outcome, reconcile, find_profiles_for_pod}

-- tls.Config, as far as the program sets it, and the changes that are made to it.
pub record TlsConfig : Type 0 where
  pub next_protos : List Text

abbrev pub TlsOption : Type 0
TlsOption = TlsConfig → TlsConfig

-- webhook.Options
pub record WebhookOptions : Type 0 where
  pub tls_opts : List TlsOption
  pub cert_dir : Text
  pub cert_name : Text
  pub key_name : Text

-- metricsserver.Options, where the filter provider is filters.WithAuthenticationAndAuthorization or
-- nil.
pub record MetricsOptions : Type 0 where
  pub bind_address : Text
  pub secure_serving : Bool
  pub tls_opts : List TlsOption
  pub with_authentication : Bool
  pub cert_dir : Text
  pub cert_name : Text
  pub key_name : Text

-- ctrl.Options
pub record ManagerOptions : Type 0 where
  pub metrics : MetricsOptions
  pub webhook_server : WebhookOptions
  pub health_probe_bind_address : Text
  pub leader_election : Bool
  pub leader_election_id : Text

-- The variables that the flags are bound to; `Z` are those of the package zap.
pub record Options (Z : Type 0) : Type 0 where
  pub metrics_addr : Text
  pub probe_addr : Text
  pub enable_leader_election : Bool
  pub secure_metrics : Bool
  pub webhook_cert_path : Text
  pub webhook_cert_name : Text
  pub webhook_cert_key : Text
  pub metrics_cert_path : Text
  pub metrics_cert_name : Text
  pub metrics_cert_key : Text
  pub enable_http2 : Bool
  pub zap : Z

abbrev pub default_options : {Z : Type 0} → Z → Options Z
default_options zap = record {
  metrics_addr = codes "0";
  probe_addr = codes ":8081";
  enable_leader_election = false;
  secure_metrics = true;
  webhook_cert_path = [];
  webhook_cert_name = codes "tls.crt";
  webhook_cert_key = codes "tls.key";
  metrics_cert_path = [];
  metrics_cert_name = codes "tls.crt";
  metrics_cert_key = codes "tls.key";
  enable_http2 = false;
  zap = zap;
}

abbrev pub text_flag : {V : Type 0} → (Text → V → V) → Flag V
text_flag set = value_flag (λ v o. podlock.Fallible.ok (set v o))

abbrev pub yes_no_flag : {V : Type 0} → (Bool → V → V) → Flag V
yes_no_flag set = bool_flag (λ v o. parse_bool v >>= λ b. podlock.Fallible.ok (set b o))

-- A flag of zap sets one of its own variables.
abbrev pub zap_flag : {Z : Type 0} → Flag Z → Flag (Options Z)
zap_flag (value_flag set) =
    value_flag (λ v o. set v o.zap >>= λ z. podlock.Fallible.ok (record o { zap = z }))
zap_flag (bool_flag set) =
    bool_flag (λ v o. set v o.zap >>= λ z. podlock.Fallible.ok (record o { zap = z }))

-- The flags that main defines itself.
abbrev pub own_flags : {Z : Type 0} → Map (Flag (Options Z))
own_flags =
    (codes "metrics-bind-address", text_flag (λ v o. record o { metrics_addr = v }))
    ∷ (codes "health-probe-bind-address", text_flag (λ v o. record o { probe_addr = v }))
    ∷ (codes "leader-elect", yes_no_flag (λ b o. record o { enable_leader_election = b }))
    ∷ (codes "metrics-secure", yes_no_flag (λ b o. record o { secure_metrics = b }))
    ∷ (codes "webhook-cert-path", text_flag (λ v o. record o { webhook_cert_path = v }))
    ∷ (codes "webhook-cert-name", text_flag (λ v o. record o { webhook_cert_name = v }))
    ∷ (codes "webhook-cert-key", text_flag (λ v o. record o { webhook_cert_key = v }))
    ∷ (codes "metrics-cert-path", text_flag (λ v o. record o { metrics_cert_path = v }))
    ∷ (codes "metrics-cert-name", text_flag (λ v o. record o { metrics_cert_name = v }))
    ∷ (codes "metrics-cert-key", text_flag (λ v o. record o { metrics_cert_key = v }))
    ∷ (codes "enable-http2", yes_no_flag (λ b o. record o { enable_http2 = b }))
    ∷ []

abbrev pub or_zap :
    {Z : Type 0} → Option (Flag (Options Z)) → Option (Flag Z) → Option (Flag (Options Z))
or_zap (some f) z = some f
or_zap none none = none
or_zap none (some z) = some (zap_flag z)

-- The flags of main, and those that opts.BindFlags adds.
unfoldable pub controller_flags :
    {Z : Type 0} → (Text → Option (Flag Z)) → Text → Option (Flag (Options Z))
controller_flags zap_flags name = or_zap (lookup name own_flags) (zap_flags name)

unfoldable pub disable_http2 : TlsOption
disable_http2 c = record c { next_protos = codes "http/1.1" ∷ [] }

abbrev pub tls_opts : {Z : Type 0} → Options Z → List TlsOption
tls_opts o = if not o.enable_http2 then [] ++ (disable_http2 ∷ []) else []

abbrev is_given : Text → Bool
is_given path = ltb 0 (length path)

unfoldable pub webhook_server_options : {Z : Type 0} → Options Z → WebhookOptions
webhook_server_options o =
    let options : WebhookOptions = record {
      tls_opts = tls_opts o;
      cert_dir = [];
      cert_name = [];
      key_name = [];
    } in
    if is_given o.webhook_cert_path
    then record options {
      cert_dir = o.webhook_cert_path;
      cert_name = o.webhook_cert_name;
      key_name = o.webhook_cert_key;
    }
    else options

unfoldable pub metrics_server_options : {Z : Type 0} → Options Z → MetricsOptions
metrics_server_options o =
    let options : MetricsOptions = record {
      bind_address = o.metrics_addr;
      secure_serving = o.secure_metrics;
      tls_opts = tls_opts o;
      with_authentication = false;
      cert_dir = [];
      cert_name = [];
      key_name = [];
    } in
    let filtered =
      if o.secure_metrics then record options { with_authentication = true } else options in
    if is_given o.metrics_cert_path
    then record filtered {
      cert_dir = o.metrics_cert_path;
      cert_name = o.metrics_cert_name;
      key_name = o.metrics_cert_key;
    }
    else filtered

unfoldable pub manager_options : {Z : Type 0} → Options Z → ManagerOptions
unfolding webhook_server_options metrics_server_options
manager_options o = record {
  metrics = metrics_server_options o;
  webhook_server = webhook_server_options o;
  health_probe_bind_address = o.probe_addr;
  leader_election = o.enable_leader_election;
  leader_election_id = codes "5dbef21c.io.kubewarden.podlock";
}
