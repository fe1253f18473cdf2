-- ===== src/Tests/Plugin.antt =====
-- The handlers of the NRI plugin, on a file system in memory.
use mathlib.Core.List
use podlock.Prelude.{
  ◌≡◌, refl, subst, none, some, List, [], ◌∷◌, Text, codes, text_eq, nat_eq, if◌then◌else◌, ◌==◌,
}
use podlock.Map.{lookup}
use podlock.FilePath.Components.{IsName}
use podlock.FilePath.{clean}
use podlock.Api.{ProfileByBinary, LandlockProfile}
use podlock.Io.{Result, ok, err, IoError}
use podlock.Sets.{list_sets, list_sets-IsLawful, from_list, meet}
use podlock.Webhook.Paths.{
  validate_binary_path, validate_paths_from, validate_no_overlapping_paths,
  validate_read_only_paths, validate_read_write_paths, validate_read_exec_paths,
  validate_read_write_exec_paths,
}
use podlock.Webhook.Validator.{
  validate_binary, validate_binaries, validate_containers, validate_profile, validate_create,
}
use podlock.Controller.Client.{ObjectKey, pod_profile_label}
use podlock.Nri.Memory.{Files, memory, memory_contents, memory-IsLawful}
use podlock.Nri.Paths.{
  seal_binary_path_container, seal_binary_path_host, container_profile_path_inside_container,
  landlock_profile_path_on_host,
}
use podlock.Nri.Filesystem.{
  reserve_path, reserve_swapped_binaries, write_profile, copy_file_if_different, file_sha256,
  copy_file, write_copy, write_landlock_profile_to_host_filesystem,
}
use podlock.Nri.Filesystem.Frames.{Only}
use podlock.Nri.Filesystem.Copy.{copy_file_if_different-ok}
use podlock.Nri.Adjustments.{Mount, create_container_adjustment, bind_mount, log_level_env_var}
use podlock.Nri.Adjustments.Wiring.{AreWired, create_container_adjustment_lem}
use podlock.Nri.Plugin.{PodSandbox, Container, create_container, adjust, adjust_labelled}
use podlock.Nri.Plugin.Create.{Outcome, create_container-ok}
use podlock.Nri.Plugin.Confined.{OwnFiles, create_container-Only}
use podlock.Tests.Data.{pod_uid, ctr_name, IsName-pod_uid, good, nginx_binaries}

abbrev pod : PodSandbox
pod = record {
  id = pod_uid;
  name = codes "web";
  namespace = codes "default";
  labels = (pod_profile_label, codes "nginx") ∷ [];
}

abbrev web : Container
web = record { name = codes "nginx" }

IsName-nginx : IsName (codes "nginx")
unfolding nat_eq
IsName-nginx = (refl, λ e. cc, λ e. cc, λ e. cc)

-- An encoder that writes the first binary only.
abbrev encode : ProfileByBinary → Result Text
encode [] = ok (codes "{}")
encode ((binary, profile) ∷ m) = ok binary

abbrev get : ObjectKey → Result LandlockProfile
get k = ok good

abbrev level : Text
level = codes "info"

abbrev seal_file : Text
seal_file = codes "/seal"

abbrev host_file : Text
host_file = codes "/host/opt/podlock/bin/seal"

abbrev files : Files
files = λ p.
    if p == seal_file
    then some (codes "new")
    else if p == host_file
    then some (codes "old")
    else none

abbrev after_create : Files
after_create = (create_container memory encode get level (some pod) (some web) files).1

created_ok :
    (create_container memory encode get level (some pod) (some web) files).0
    ≡ ok (some (create_container_adjustment pod_uid (codes "nginx") nginx_binaries level))
unfolding create_container adjust adjust_labelled reserve_swapped_binaries reserve_path
    write_landlock_profile_to_host_filesystem write_profile lookup text_eq podlock.Io.◌>>=◌
created_ok = refl

create_container-ok_example :
    Outcome memory memory_contents encode memory-IsLawful get level pod
      (some web)
      files
      after_create
      (some (create_container_adjustment pod_uid (codes "nginx") nginx_binaries level))
create_container-ok_example =
    create_container-ok memory memory_contents encode memory-IsLawful get level pod (some web) files
      (some (create_container_adjustment pod_uid (codes "nginx") nginx_binaries level)) created_ok

good_admitted : validate_create list_sets good ≡ none
unfolding validate_create validate_profile validate_containers validate_binaries validate_binary
    validate_binary_path validate_paths_from validate_no_overlapping_paths validate_read_only_paths
    validate_read_write_paths validate_read_exec_paths validate_read_write_exec_paths from_list meet
    clean text_eq
good_admitted = refl

admitted : (k : ObjectKey) (p : LandlockProfile) → get k ≡ ok p → validate_create list_sets p ≡ none
admitted k p e =
    let same : good ≡ p = cc e in subst (λ x. validate_create list_sets x ≡ none) same good_admitted

create_container-Only_example :
    Only memory memory_contents
      (OwnFiles memory memory_contents memory-IsLawful pod)
      files
      after_create
create_container-Only_example =
    create_container-Only memory memory_contents memory-IsLawful encode level pod IsName-pod_uid get
      list_sets list_sets-IsLawful admitted web IsName-nginx files

create_container_adjustment_lem_example :
    (mounts : List Mount) × AreWired pod_uid ctr_name nginx_binaries mounts
      (create_container_adjustment pod_uid ctr_name nginx_binaries level).hooks
    × ((create_container_adjustment pod_uid ctr_name nginx_binaries level).mounts
        ≡ bind_mount seal_binary_path_container seal_binary_path_host
          ∷ bind_mount container_profile_path_inside_container
              (landlock_profile_path_on_host pod_uid ctr_name)
          ∷ mounts)
    × ((create_container_adjustment pod_uid ctr_name nginx_binaries level).env
        ≡ (log_level_env_var, level) ∷ [])
create_container_adjustment_lem_example =
    create_container_adjustment_lem pod_uid ctr_name nginx_binaries level

abbrev reserved : Files
reserved = (reserve_swapped_binaries memory pod_uid ctr_name nginx_binaries files).1

-- A digest that tells all contents apart.
abbrev digest : Text → Text
digest c = 0 ∷ c

copied_ok : (copy_file_if_different memory digest seal_file host_file files).0 ≡ ok tt
unfolding copy_file_if_different file_sha256 copy_file write_copy podlock.Io.◌>>=◌ text_eq
copied_ok = refl

copy_file_if_different-ok_example :
    (c : Text) × (files seal_file ≡ some c)
    × ((copy_file_if_different memory digest seal_file host_file files).1 host_file ≡ some c)
copy_file_if_different-ok_example =
    copy_file_if_different-ok memory memory_contents memory-IsLawful digest seal_file host_file
      files (λ e. cc) (λ c e. cc) (λ c d from to same. List.tail-eq_of_cons-eq same) copied_ok
