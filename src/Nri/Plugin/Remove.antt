-- ===== src/Nri/Plugin/Remove.antt =====
-- What RemoveContainer removes.
use podlock.Io.{Frame}
use podlock.Nri.HostFs.{HostFs, Contents, IsLawful}
use podlock.Nri.Paths.{podlock_runtime_pod_dir}
use podlock.Nri.Paths.Distinct.{IsBelow}
use podlock.Nri.Filesystem.Frames.{Only}
use podlock.Nri.Plugin.{PodSandbox, Container, remove_container}

module _ (H : HostFs) (V : Contents H) (L : IsLawful H V) where
  -- Whether a removal succeeds or not, it leaves every file outside of the directory of the pod as it
  -- was.
  pub remove_container-Only :
      (pod : PodSandbox) (ctr : Container)
      → Frame (Only H V (IsBelow (podlock_runtime_pod_dir pod.id))) (remove_container H pod ctr)
  unfolding remove_container
  remove_container-Only pod ctr s q h = L.file-remove_all_ne (podlock_runtime_pod_dir pod.id) s q h
