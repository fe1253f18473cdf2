-- ===== src/Tests/Nri.antt =====
-- The NRI plugin.
use podlock.Prelude.{◌≡◌, refl, codes, text_eq}
use podlock.FilePath.{clean, join}
use podlock.Nri.Paths.{swapped_binary_path_inside_container, swapped_binary_path_on_host}
use podlock.Tests.Data.{pod_uid, ctr_name, curl}

curl_on_host :
    swapped_binary_path_on_host pod_uid ctr_name curl
    ≡ codes "/var/run/podlock/pod123/ctr1/swapped-binaries/usr/bin/curl"
unfolding swapped_binary_path_on_host join clean text_eq
curl_on_host = refl

curl_inside :
    swapped_binary_path_inside_container curl ≡ codes "/.podlock/swapped-binaries/usr/bin/curl"
unfolding swapped_binary_path_inside_container join clean text_eq
curl_inside = refl

-- Without the validation a binary may lead out of the directory of the pod.
escapes :
    swapped_binary_path_on_host pod_uid ctr_name (codes "/../../../../../../etc/passwd")
    ≡ codes "/etc/passwd"
unfolding swapped_binary_path_on_host join clean text_eq
escapes = refl
