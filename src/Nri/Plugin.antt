-- ===== src/Nri/Plugin.antt =====
-- plugin.go: the handlers of the events of the container runtime.
pub mod Create
pub mod Confined
pub mod Remove
pub mod Lifecycle
pub mod Own
pub mod Interleaved
use podlock.Prelude.{Bool, true, false, Option, none, some, List, [], ◌∷◌, ◌++◌, Text, codes}
use podlock.Map.{Map, lookup}
use podlock.Api.{ProfileByBinary, LandlockProfile}
use podlock.Controller.Client.{ObjectKey, pod_profile_label}
use podlock.Io.{IoError, Result, ok, err, Io, pure, raise, lift, continue, ◌>>=◌, ◌>>◌}
use podlock.Nri.HostFs.{HostFs}
use podlock.Nri.Paths.{podlock_runtime_pod_dir}
use podlock.Nri.Filesystem.{
  reserve_swapped_binaries, write_landlock_profile_to_host_filesystem, wrap, wrap_result, at_path,
}
use podlock.Nri.Adjustments.{ContainerAdjustment, create_container_adjustment}

-- api.PodSandbox and api.Container, as far as the plugin reads them
pub record PodSandbox : Type 0 where
  pub id : Text
  pub name : Text
  pub namespace : Text
  pub labels : Map Text

pub record Container : Type 0 where
  pub name : Text

-- errors.New
abbrev pub new_error : Text → IoError
new_error message = record { message = message; not_exist = false }

-- The profile of the container in what was fetched, if there is one.
abbrev pub profile_of : LandlockProfile → Container → Option ProfileByBinary
profile_of profile ctr = elim profile.spec.profiles_by_container [
  | none ↦ none
  | some containers ↦ lookup ctr.name containers
]

module _ (H : HostFs) (encode : ProfileByBinary → Result Text)
    (get : ObjectKey → Result LandlockProfile) (log_level : Text) where
  -- What follows when the container has a profile.
  unfoldable pub adjust :
      PodSandbox → Container → ProfileByBinary → Io H.State (Option ContainerAdjustment)
  adjust pod ctr m =
      reserve_swapped_binaries H pod.id ctr.name m
      >> write_landlock_profile_to_host_filesystem H encode pod.id ctr.name m
      >> pure (some (create_container_adjustment pod.id ctr.name m log_level))

  abbrev pub adjust_if_found :
      PodSandbox → Container → Option ProfileByBinary → Io H.State (Option ContainerAdjustment)
  adjust_if_found pod ctr none = pure none
  adjust_if_found pod ctr (some m) = adjust pod ctr m

  -- What follows when the pod has the label.
  unfoldable pub adjust_labelled :
      PodSandbox → Option Container → Text → Io H.State (Option ContainerAdjustment)
  adjust_labelled pod none profile_name = raise (new_error (codes "container is nil"))
  adjust_labelled pod (some ctr) profile_name =
      lift (
        wrap_result (at_path (codes "failed to get LandlockProfile") profile_name)
          (get (record { namespace = pod.namespace; name = profile_name })))
      >>= λ profile. adjust_if_found pod ctr (profile_of profile ctr)

  abbrev pub adjust_if_labelled :
      PodSandbox → Option Container → Option Text → Io H.State (Option ContainerAdjustment)
  adjust_if_labelled pod ctr none = pure none
  adjust_if_labelled pod ctr (some profile_name) = adjust_labelled pod ctr profile_name

  -- CreateContainer; `none` for a pod or a container is nil, and so it is for the adjustment. The
  -- updates are always nil.
  unfoldable pub create_container :
      Option PodSandbox → Option Container → Io H.State (Option ContainerAdjustment)
  create_container none ctr = raise (new_error (codes "pod is nil"))
  create_container (some pod) ctr = adjust_if_labelled pod ctr (lookup pod_profile_label pod.labels)

-- RemoveContainer; the container is only logged.
unfoldable pub remove_container : (H : HostFs) → PodSandbox → Container → Io H.State (Unit {0})
remove_container H pod ctr =
    wrap (at_path (codes "failed to remove PodLock runtime dir") (podlock_runtime_pod_dir pod.id))
      (H.remove_all (podlock_runtime_pod_dir pod.id))
