-- ===== src/Tests/Clash.antt =====
-- A profile that lists a shell and the place where the shell is kept.
use podlock.Prelude.{
  ◌≡◌, refl, false, none, some, List, [], ◌∷◌, codes, ◌==◌, text_eq, nat_eq, if◌then◌else◌,
}
use podlock.FilePath.{join, clean}
use podlock.FilePath.Clean.{IsCleanAbs}
use podlock.Io.{ok}
use podlock.Strings.{has_prefix}
use podlock.Flags.{parse, step, token}
use podlock.Sets.{list_sets, list_sets-IsLawful}
use podlock.Api.{ProfileByBinary}
use podlock.Webhook.Valid.{IsValidProfile}
use podlock.Webhook.Validator.{validate_create}
use podlock.Webhook.Accepts.{validate-accepts_iff}
use podlock.Nri.Paths.{seal_binary_path_container, swapped_binary_path_inside_container}
use podlock.Nri.Adjustments.{Hook, binary_hook, add_binaries, create_container_adjustment}
use podlock.OciHook.{move_mounts, swap_target, perform_over_mounts}
use podlock.OciHook.Entry.{hook_flags, main_of}
use podlock.OciHook.Memory.{Mounts, memory, memory_view, memory-IsLawful}
use podlock.Pipeline.Admitted.{own_dir}
use podlock.Pipeline.Hooks.{run_hooks}
use podlock.Pipeline.Clash.{clashing, clashing_lem}
use podlock.Tests.Data.{good, nginx, nginx_profile, sh, pod_uid, ctr_name}
use podlock.Tests.Created.{good_admitted}

nginx-IsValidProfile : IsValidProfile nginx
nginx-IsValidProfile =
    ((validate-accepts_iff list_sets list_sets-IsLawful good good).0.0 good_admitted).0.0.1

IsCleanAbs-sh : IsCleanAbs sh
unfolding nat_eq podlock.Strings.join_with
IsCleanAbs-sh = record {
  elements = codes "bin" ∷ codes "sh" ∷ [];
  names = ((refl, λ e. cc, λ e. cc, λ e. cc), ((refl, λ e. cc, λ e. cc, λ e. cc), tt));
  shape = refl;
}

sh_outside : has_prefix sh own_dir ≡ false
unfolding has_prefix nat_eq
sh_outside = refl

abbrev listed : ProfileByBinary
listed = clashing sh nginx nginx

abbrev image : Mounts
image = record {
  files = λ p.
      if p == sh
      then some (codes "sh")
      else if p == codes "/.podlock/bin/seal"
      then some (codes "seal")
      else some [];
  trees = [];
}

abbrev hooks : List Hook
hooks = (create_container_adjustment pod_uid ctr_name listed (codes "info")).hooks

hooks_ok : (run_hooks memory hooks image).0 ≡ ok tt
unfolding run_hooks main_of create_container_adjustment add_binaries binary_hook perform_over_mounts
    swap_target move_mounts seal_binary_path_container swapped_binary_path_inside_container join
    clean text_eq hook_flags parse step token podlock.Strings.cut_at podlock.Io.◌>>=◌
hooks_ok = refl

clashing_lem_example :
    let t = (run_hooks memory hooks image).1 in
    (validate_create list_sets (nginx_profile (some ((ctr_name, listed) ∷ []))) ≡ none)
    × (memory_view.at t sh ≡ memory_view.at image seal_binary_path_container)
    × (memory_view.at t (swapped_binary_path_inside_container sh)
        ≡ memory_view.at image seal_binary_path_container)
clashing_lem_example =
    clashing_lem list_sets list_sets-IsLawful memory memory_view memory-IsLawful (λ path s q. refl)
      sh ctr_name nginx nginx (nginx_profile (some ((ctr_name, listed) ∷ []))) IsCleanAbs-sh
      sh_outside nginx-IsValidProfile nginx-IsValidProfile refl pod_uid (codes "info") image
      hooks_ok
