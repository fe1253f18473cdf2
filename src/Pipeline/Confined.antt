-- ===== src/Pipeline/Confined.antt =====
-- A binary of a container that the plugin has adjusted runs under the profile of the pod.
use podlock.Prelude.{
  ◌≡◌, ◌≢◌, refl, ap, ◌∙◌, subst, Bool, true, false, some, List, [], ◌∷◌, Text, codes, All, ◌==◌,
  text_eq, nat_eq, arith, if◌then◌else◌,
}
use podlock.Fallible
use podlock.Map.{lookup}
use podlock.Io.{Result, ok}
use podlock.FilePath.{base}
use podlock.Api.{ProfileByBinary, LandlockProfile}
use podlock.Sets.{StringSets}
use podlock.Levels.{
  Level, level_debug, parse_log_level, unmarshal_level, split_at_sign, to_upper, base_level,
}
use podlock.Controller.Client.{ObjectKey, pod_profile_label}
use podlock.Nri.HostFs.{HostFs, Contents, IsLawful}
use podlock.Nri.Paths.{container_profile_path_inside_container}
use podlock.Nri.Adjustments.{Mount, ContainerAdjustment, log_level_env_var}
use podlock.Nri.Adjustments.Wiring.{create_container_adjustment_lem}
use podlock.Nri.Plugin.{PodSandbox, Container, profile_of, create_container}
use podlock.Nri.Plugin.Create.{profile_key, IsAdjusted, create_container-IsAdjusted}
use podlock.Seal.Config.{log_format_text, found_profile}
use podlock.Seal.Logger.{tint_handler, json_handler, LogHandler, setup_logger}
use podlock.Seal.Cli.{Process, absolute, parse_flags, wrapper_mode, profile_env_var}
use podlock.Seal.Cli.Wrapper.{wrapper_mode_lem}
use podlock.Seal.Main.{System, main}
use podlock.Seal.Main.Sealed.{main-IsSealed}
use podlock.Pipeline.{IsConfined, sealed-IsConfined}

either-ok :
    (b : Bool) (x y : LogHandler)
    → (handler : LogHandler) × ((if b then podlock.Fallible.ok x else podlock.Fallible.ok y)
        ≡ podlock.Fallible.ok handler)
either-ok true x y = (x, refl)
either-ok false x y = (y, refl)

-- A level that the plugin has read is read by the logger of the seal, in either format.
setup_logger-ok :
    (log_level log_format : Text) (level : Level)
    → parse_log_level log_level ≡ podlock.Fallible.ok level
    → (handler : LogHandler) × (setup_logger log_level log_format ≡ podlock.Fallible.ok handler)
unfolding setup_logger
setup_logger-ok log_level log_format level h =
    let (handler, e) =
      either-ok (log_format == log_format_text) (tint_handler level_debug) (json_handler level) in
    (handler, rw h e)

level_ne :
    (log_level : Text) (level : Level)
    → parse_log_level log_level ≡ podlock.Fallible.ok level
    → log_level ≢ []
unfolding parse_log_level unmarshal_level split_at_sign to_upper base_level text_eq nat_eq
level_ne [] level h e = absurd (cc)
level_ne (c ∷ s) level h e = absurd (cc)

parse_flags-wrapper :
    (S : StringSets) (p : Process) (argv0 binary : Text) (args : List Text)
    → base argv0 ≢ codes "seal"
    → absolute p argv0 ≡ podlock.Fallible.ok binary
    → parse_flags S p argv0 args ≡ podlock.Fallible.ok (wrapper_mode p binary args)
unfolding parse_flags
parse_flags-wrapper S p argv0 binary args other named =
    let differs : (base argv0 == codes "seal") ≡ false = ground arith in rw (differs, named) refl

wrapper_mode-log_level :
    (p : Process) (binary : Text) (args : List Text) (log_level : Text)
    → p.getenv log_level_env_var ≡ log_level
    → log_level ≢ []
    → (wrapper_mode p binary args).log_level ≡ log_level
unfolding wrapper_mode
wrapper_mode-log_level p binary args log_level given full = ground (arith, given)

lookup-here : (key v : Text) → lookup key ((key, v) ∷ []) ≡ some v
unfolding lookup
lookup-here key v = ground arith

-- Of the lists that the profiles in the cache have for a container, the decoder reads back what the
-- encoder writes: a map with the same values, if perhaps in another order.
abbrev pub ReadsBack :
    (ProfileByBinary → Result Text)
    → (ObjectKey → Result LandlockProfile)
    → Container
    → (Text → podlock.Fallible.Result ProfileByBinary)
    → Type 0
ReadsBack encode get ctr decode =
    (k : ObjectKey) (p : LandlockProfile) (m : ProfileByBinary) (c : Text)
    → get k ≡ ok p
    → profile_of p ctr ≡ some m
    → encode m ≡ ok c
    → (n : ProfileByBinary) × (decode c ≡ podlock.Fallible.ok n)
      × ((b : Text) → lookup b n ≡ lookup b m)

module _ (H : HostFs) (V : Contents H) where
  -- The process of the seal runs in a container with this adjustment: the profile that is mounted
  -- is the file of the host, the variables are set, and none names another profile.
  pub record RunsIn (a : ContainerAdjustment) (t : H.State) (sys : System) (p : Process)
      : Type 0 where
    pub shows :
        All
          (λ (mount : Mount).
            mount.destination ≡ container_profile_path_inside_container
            → (contents : Text) → V.file t mount.source ≡ some contents
            → sys.read mount.destination ≡ podlock.Fallible.ok contents)
          a.mounts
    pub environment : (key v : Text) → lookup key a.env ≡ some v → p.getenv key ≡ v
    pub unset : p.getenv profile_env_var ≡ []

  module _ (L : IsLawful H V) (encode : ProfileByBinary → Result Text)
      (get : ObjectKey → Result LandlockProfile) (log_level : Text) where
    -- The profile that the pod asks for, and what it lists for the container.
    pub record IsAskedFor (pod : PodSandbox) (ctr : Container) (m : ProfileByBinary) : Type 0 where
      pub profile_name : Text
      pub profile : LandlockProfile
      pub labelled : lookup pod_profile_label pod.labels ≡ some profile_name
      pub fetched : get (profile_key pod profile_name) ≡ ok profile
      pub of_container : profile_of profile ctr ≡ some m

    -- A binary in a container whose files are set up runs under the profile of its pod.
    pub adjusted-IsConfined :
        (pod : PodSandbox) (ctr : Container) (t : H.State) (a : ContainerAdjustment)
        → IsAdjusted H V encode L get log_level pod ctr t a
        → (level : Level) → parse_log_level log_level ≡ podlock.Fallible.ok level
        → (S : StringSets) (sys : System) (p : Process) → ReadsBack encode get ctr sys.decode
        → RunsIn a t sys p
        → (argv0 binary : Text) (args : List Text) → base argv0 ≢ codes "seal"
        → absolute p argv0 ≡ podlock.Fallible.ok binary
        → (m : ProfileByBinary) × IsAskedFor pod ctr m
          × IsConfined sys p m binary args (main sys S p argv0 args)
    unfolding wrapper_mode
    adjusted-IsConfined pod ctr t a found level readable S sys p decodes runs argv0 binary args
          other named =
        let m = found.binaries in
        let (mounts, wired, mounted, env) =
          create_container_adjustment_lem pod.id ctr.name m log_level in
        let all_mounts = ap (λ (x : ContainerAdjustment). x.mounts) found.adjustment ∙ mounted in
        let in_env = ap (λ (x : ContainerAdjustment). x.env) found.adjustment ∙ env in
        let shown = subst (All _) all_mounts runs.shows in
        let at_path = shown.1.0 refl found.set_up.contents found.set_up.written in
        let level_set =
          runs.environment log_level_env_var log_level
            (ap (lookup log_level_env_var) in_env ∙ lookup-here log_level_env_var log_level) in
        let parsed = parse_flags-wrapper S p argv0 binary args other named in
        let (n, decoded, same) =
          decodes (profile_key pod found.profile_name) found.profile m found.set_up.contents
            found.fetched found.of_container found.set_up.encoded in
        let (from_n, _) =
          wrapper_mode_lem p sys.read sys.decode found.set_up.contents n runs.unset at_path decoded
            binary pod.id ctr.name args in
        let built = from_n ∙ ap (found_profile binary) (same binary) in
        let same_level =
          wrapper_mode-log_level p binary args log_level level_set
            (level_ne log_level level readable) in
        let (handler, logged) =
          setup_logger-ok (wrapper_mode p binary args).log_level
            (wrapper_mode p binary args).log_format level
            (ap parse_log_level same_level ∙ readable) in
        (
          m,
          record {
            profile_name = found.profile_name;
            profile = found.profile;
            labelled = found.labelled;
            fetched = found.fetched;
            of_container = found.of_container;
          },
          sealed-IsConfined sys p m binary args S argv0 parsed built handler logged _
              (main-IsSealed sys S p argv0 args),
        )

    -- Let CreateContainer return an adjustment for a container of a pod, with a level of the log
    -- that can be read, and let a binary be run in a container with this adjustment, under its own
    -- name and not as `seal`, so that the seal runs in its place. Then the pod has a profile that
    -- lists the container, and the seal makes no call if this list has no profile for the binary or
    -- the libraries cannot be discovered; otherwise it restricts itself to exactly the rights that
    -- the levels of the profile of the binary give and that its running needs, and executes, only
    -- if this succeeds, what the hook has kept of the binary. The JSON decoder is assumed to read
    -- back, of the lists that the profiles in the cache have, what the encoder writes, in any order.
    pub main-IsConfined :
        (pod : PodSandbox) (ctr : Container) (s : H.State) (a : ContainerAdjustment)
        → (create_container H encode get log_level (some pod) (some ctr) s).0 ≡ ok (some a)
        → (level : Level) → parse_log_level log_level ≡ podlock.Fallible.ok level
        → (S : StringSets) (sys : System) (p : Process) → ReadsBack encode get ctr sys.decode
        → RunsIn a (create_container H encode get log_level (some pod) (some ctr) s).1 sys p
        → (argv0 binary : Text) (args : List Text) → base argv0 ≢ codes "seal"
        → absolute p argv0 ≡ podlock.Fallible.ok binary
        → (m : ProfileByBinary) × IsAskedFor pod ctr m
          × IsConfined sys p m binary args (main sys S p argv0 args)
    main-IsConfined pod ctr s a created =
        adjusted-IsConfined pod ctr
          (create_container H encode get log_level (some pod) (some ctr) s).1 a
          (create_container-IsAdjusted H V encode L get log_level pod ctr s a created)
