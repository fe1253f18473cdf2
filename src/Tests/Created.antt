-- ===== src/Tests/Created.antt =====
-- The hooks of the adjustment that CreateContainer returns, in a container with two binaries.
use podlock.Prelude.{subst, ◌≡◌, refl, none, some, [], nat_eq, codes, text_eq, if◌then◌else◌, ◌==◌}
use podlock.FilePath.{join, clean}
use podlock.Io.{Result, ok, err, wrap, ◌>>◌}
use podlock.Flags.{parse, step, token}
use podlock.Nri.Adjustments.{binary_hook, add_binaries, create_container_adjustment}
use podlock.Pipeline.Hooks.{AllExchanged, run_hooks}
use podlock.Pipeline.Admitted.{AreOutside}
use podlock.Pipeline.Created.{IsExchangeable, created-AllExchanged}
use podlock.Pipeline.Confined.{IsAskedFor}
use podlock.Controller.Client.{ObjectKey}
use podlock.Nri.Plugin.{profile_of}
use podlock.Nri.Memory.{memory, memory_contents, memory-IsLawful}
use podlock.Tests.Codec.{encode}
use podlock.Tests.Pipeline.{pod, web, get, no_files, adjustment, created_ok}
use podlock.Api.{ProfileByBinary, LandlockProfile}
use podlock.Map.{lookup, NodupKeys}
use podlock.Strings.{has_prefix}
use podlock.Sets.{list_sets, list_sets-IsLawful, from_list, meet}
use podlock.Webhook.Paths.{
  validate_binary_path, validate_paths_from, validate_no_overlapping_paths,
  validate_read_only_paths, validate_read_write_paths, validate_read_exec_paths,
  validate_read_write_exec_paths,
}
use podlock.Webhook.Validator.{
  validate_binary, validate_binaries, validate_containers, validate_profile, validate_create,
}
use podlock.OciHook.Entry.{hook_flags, main_of}
use podlock.Nri.Paths.{seal_binary_path_container, swapped_binary_path_inside_container}
use podlock.OciHook.{move_mounts, swap_target, perform_over_mounts}
use podlock.OciHook.Memory.{Mounts}
use podlock.OciHook.Memory
use podlock.Tests.Data.{sh, good, nginx_binaries}

abbrev image : Mounts
image = record {
  files = λ p.
      if p == codes "/usr/sbin/nginx"
      then some (codes "nginx")
      else if p == sh
      then some (codes "sh")
      else if p == codes "/.podlock/bin/seal"
      then some (codes "seal")
      else none;
  trees = [];
}

pub good_admitted : validate_create list_sets good ≡ none
unfolding validate_create validate_profile validate_containers validate_binaries validate_binary
    validate_binary_path validate_paths_from validate_no_overlapping_paths validate_read_only_paths
    validate_read_write_paths validate_read_exec_paths validate_read_write_exec_paths from_list meet
    text_eq clean
good_admitted = refl

hooks_ok : (run_hooks podlock.OciHook.Memory.memory adjustment.hooks image).0 ≡ ok tt
unfolding run_hooks main_of create_container_adjustment add_binaries binary_hook perform_over_mounts
    swap_target move_mounts seal_binary_path_container swapped_binary_path_inside_container join
    clean text_eq hook_flags parse step token podlock.Strings.cut_at podlock.Io.◌>>=◌
hooks_ok = refl

nginx_nodup : NodupKeys nginx_binaries
unfolding lookup text_eq
nginx_nodup = (refl, (refl, tt))

nginx_outside : AreOutside nginx_binaries
unfolding has_prefix nat_eq
nginx_outside = (refl, (refl, tt))

good_lists : (m : ProfileByBinary) → profile_of good web ≡ some m → nginx_binaries ≡ m
unfolding lookup text_eq
good_lists m e = cc

good_IsExchangeable :
    (k : ObjectKey) (profile : LandlockProfile)
    → get k ≡ ok profile
    → IsExchangeable list_sets web profile
good_IsExchangeable k profile e =
    let same : good ≡ profile = cc in
    subst (IsExchangeable list_sets web) same (
      good_admitted,
      λ m h. subst (λ x. NodupKeys x × AreOutside x) (good_lists m h) (nginx_nodup, nginx_outside),
    )

created-AllExchanged_example :
    (m : ProfileByBinary) × IsAskedFor memory memory_contents memory-IsLawful encode get
      (codes "info")
      pod
      web
      m
    × AllExchanged podlock.OciHook.Memory.memory podlock.OciHook.Memory.memory_view
        podlock.OciHook.Memory.memory-IsLawful image
        (run_hooks podlock.OciHook.Memory.memory adjustment.hooks image).1
        m
created-AllExchanged_example =
    created-AllExchanged memory memory_contents memory-IsLawful podlock.OciHook.Memory.memory
      podlock.OciHook.Memory.memory_view podlock.OciHook.Memory.memory-IsLawful (λ path s q. refl)
      list_sets list_sets-IsLawful encode get (codes "info") pod web no_files adjustment created_ok
      good_IsExchangeable image hooks_ok
