-- ===== src/Tests/Pipeline.antt =====
-- A shell of a container with a profile, from the creation of the container on.
use podlock.Prelude.{
  ◌≡◌, ◌≢◌, refl, Option, none, some, [], ◌∷◌, Text, codes, apart, ◌==◌, text_eq, nat_eq,
  if◌then◌else◌, arith,
}
use podlock.Fallible
use podlock.Map.{lookup}
use podlock.Io.{Result, ok, err, ◌>>=◌}
use podlock.FilePath.{base, clean, join}
use podlock.Api.{LandlockProfile}
use podlock.Levels.{
  level_info, parse_log_level, unmarshal_level, split_at_sign, base_level, to_upper,
}
use podlock.Controller.Client.{ObjectKey, pod_profile_label}
use podlock.Nri.Memory.{Files, memory, memory_contents}
use podlock.Nri.Paths.{
  swapped_binary_path_on_host, container_profile_path_inside_container, seal_binary_path_container,
  swapped_binary_path_inside_container, landlock_profile_path_on_host,
}
use podlock.Nri.Filesystem.{
  reserve_path, reserve_swapped_binaries, write_profile, write_landlock_profile_to_host_filesystem,
}
use podlock.Nri.Adjustments.{
  add_binaries, ContainerAdjustment, create_container_adjustment, binary_mount, log_level_env_var,
}
use podlock.Nri.Plugin.{PodSandbox, Container, create_container, adjust, adjust_labelled}
use podlock.Seal.Rules.{is_dir}
use podlock.Seal.Cli.{Process, absolute}
use podlock.Seal.Main.{System}
use podlock.Pipeline.Confined.{RunsIn}
use podlock.Tests.Codec.{encode, decode, good_file}
use podlock.Tests.Data.{good, nginx_binaries, pod_uid, sh}

abbrev pub pod : PodSandbox
pod = record {
  id = pod_uid;
  name = codes "web";
  namespace = codes "default";
  labels = (pod_profile_label, codes "nginx") ∷ [];
}

abbrev pub web : Container
web = record { name = codes "nginx" }

abbrev pub get : ObjectKey → Result LandlockProfile
get k = ok good

abbrev pub no_files : Files
no_files p = none

abbrev pub adjustment : ContainerAdjustment
adjustment = create_container_adjustment pod_uid (codes "nginx") nginx_binaries (codes "info")

abbrev created : Files
created = (create_container memory encode get (codes "info") (some pod) (some web) no_files).1

pub created_ok :
    (create_container memory encode get (codes "info") (some pod) (some web) no_files).0
    ≡ ok (some adjustment)
unfolding create_container adjust adjust_labelled reserve_swapped_binaries reserve_path
    write_landlock_profile_to_host_filesystem write_profile lookup text_eq podlock.Io.◌>>=◌
created_ok = refl

pub info_ok : parse_log_level (codes "info") ≡ podlock.Fallible.ok level_info
unfolding parse_log_level unmarshal_level split_at_sign base_level to_upper text_eq nat_eq
info_ok = refl

-- The process of a shell, in whose container the file of the profile can be read.
abbrev pub process : Process
process = record {
  getenv = λ key. if key == log_level_env_var then codes "info" else [];
  getwd = podlock.Fallible.ok (codes "/");
  look_path = λ name. podlock.Fallible.err (codes "not found");
}

abbrev pub system : System
system = record {
  environ = codes "SEAL_LOG_LEVEL=info" ∷ [];
  read = λ path.
      podlock.Fallible.ok (if path == codes "/.podlock/profile.json" then good_file else []);
  decode = decode;
  stat = λ path. is_dir;
  discover = λ path. podlock.Fallible.ok [];
  restrict = λ rules. podlock.Fallible.ok tt;
}

pub given_value :
    (key name value v : Text)
    → lookup key ((name, value) ∷ []) ≡ some v
    → (if key == name then value else []) ≡ v
unfolding lookup
given_value key name value v h = ground arith

-- What stands for a file is what is read.
pub same_contents :
    (c : Text) (o : Option Text) (contents : Text)
    → o ≡ some c
    → o ≡ some contents
    → podlock.Fallible.ok c ≡ podlock.Fallible.ok contents
same_contents c o contents e h = cc

process-RunsIn : RunsIn memory memory_contents adjustment created system process
unfolding create_container adjust adjust_labelled reserve_swapped_binaries reserve_path
    write_landlock_profile_to_host_filesystem write_profile lookup text_eq podlock.Io.◌>>=◌
    landlock_profile_path_on_host join clean create_container_adjustment add_binaries binary_mount
    swapped_binary_path_on_host swapped_binary_path_inside_container
    container_profile_path_inside_container seal_binary_path_container
process-RunsIn = record {
  shows = (
    λ e c h. absurd (cc),
    (
      (λ e c h. same_contents good_file (some good_file) c refl h),
      (
        (λ e c h. same_contents [] (some []) c refl h),
        ((λ e c h. same_contents [] (some []) c refl h), tt),
      ),
    ),
  );
  environment = λ key v h. given_value key log_level_env_var (codes "info") v h;
  unset = refl;
}

pub not_seal : base sh ≢ codes "seal"
unfolding base text_eq
not_seal = apart (base sh) (codes "seal") refl

pub sh_is_absolute : absolute process sh ≡ podlock.Fallible.ok sh
unfolding clean text_eq
sh_is_absolute = refl
