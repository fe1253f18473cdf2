-- ===== src/Tests/OciHook.antt =====
-- The OCI hook, on mounts in memory.
use podlock.Prelude.{
  ◌≡◌, ◌≢◌, refl, none, some, [], nat_eq, Text, codes, text_eq, if◌then◌else◌, ◌==◌,
}
use podlock.FilePath.{join, clean}
use podlock.Io.{Result, ok, err, wrap, ◌>>◌}
use podlock.Nri.Adjustments.{binary_hook}
use podlock.OciHook.Entry.{main_of, main_of-binary_hook}
use podlock.Nri.Paths.{swapped_binary_path_inside_container}
use podlock.Tests.Data.{curl, IsCleanAbs-curl}
use podlock.Nri.Paths.{seal_binary_path_container}
use podlock.OciHook.{move_mounts, swap_target, perform_over_mounts}
use podlock.OciHook.Memory.{Mounts, memory, memory_view, memory-IsLawful}
use podlock.OciHook.Mounts.{
  IsSwapped, perform_over_mounts-IsSwapped, Elsewhere, perform_over_mounts-Elsewhere, KeptOnError,
  perform_over_mounts-KeptOnError,
}

abbrev backup : Text
backup = codes "/.podlock/swapped-binaries/usr/bin/curl"

abbrev container : Mounts
container = record {
  files = λ p.
      if p == curl
      then some (codes "curl")
      else if p == codes "/.podlock/bin/seal"
      then some (codes "seal")
      else none;
  trees = [];
}

curl_ne_backup : curl ≢ backup
curl_ne_backup e = cc e

abbrev after : Mounts
after = (perform_over_mounts memory curl backup container).1

swap_ok : (perform_over_mounts memory curl backup container).0 ≡ ok tt
unfolding perform_over_mounts swap_target move_mounts seal_binary_path_container join clean text_eq
    podlock.Io.◌>>=◌
swap_ok = refl

perform_over_mounts-IsSwapped_example :
    IsSwapped memory memory_view memory-IsLawful container after curl backup
perform_over_mounts-IsSwapped_example =
    perform_over_mounts-IsSwapped memory memory_view memory-IsLawful curl backup container
      curl_ne_backup swap_ok

perform_over_mounts-Elsewhere_example :
    Elsewhere memory memory_view memory-IsLawful curl backup container after
perform_over_mounts-Elsewhere_example =
    perform_over_mounts-Elsewhere memory memory_view memory-IsLawful curl backup container

-- The hook fails if the seal is not there.
abbrev bare : Mounts
bare = record { files = λ p. if p == curl then some (codes "curl") else none; trees = [] }

perform_over_mounts-KeptOnError_example :
    KeptOnError memory memory_view memory-IsLawful curl bare
      (perform_over_mounts memory curl backup bare).0
      (perform_over_mounts memory curl backup bare).1
perform_over_mounts-KeptOnError_example =
    perform_over_mounts-KeptOnError memory memory_view memory-IsLawful curl backup bare
      curl_ne_backup

main_of-binary_hook_example : main_of memory (binary_hook curl).args ≡ (
    wrap (codes "failed to chroot to container root") (memory.chroot (codes "."))
    >> wrap
        (codes "failed to perform swap")
        (perform_over_mounts memory curl (swapped_binary_path_inside_container curl)))
main_of-binary_hook_example = main_of-binary_hook memory curl IsCleanAbs-curl
