-- ===== src/Nri/Plugin/Lifecycle.antt =====
-- The events of many containers, one after the other, with what other programs do in between.
use podlock.Prelude.{◌≡◌, ◌≢◌, ◌∙◌, sym, refl, some, none, List, [], ◌∷◌, Text, codes, All}
use podlock.Api.{ProfileByBinary, LandlockProfile}
use podlock.FilePath.Components.{IsName}
use podlock.Controller.Client.{ObjectKey}
use podlock.Io.{Result, ok}
use podlock.Sets.{StringSets}
use podlock.Sets
use podlock.Webhook.Valid.{AreValidBinaries}
use podlock.Webhook.Validator.{validate_create}
use podlock.Nri.HostFs.{HostFs, Contents, IsLawful}
use podlock.Nri.Paths.{swapped_binary_path_on_host, podlock_runtime_pod_dir}
use podlock.Nri.Paths.Files.{
  IsFileOf, profile_file, swapped_file, IsFileOf-IsBelow, IsFileOf-unique, IsFileOf-Below,
}
use podlock.Nri.Filesystem.{at_path}
use podlock.Nri.Filesystem.Reserve.{wrap_result-ok}
use podlock.Nri.Adjustments.{ContainerAdjustment}
use podlock.Nri.Plugin.{PodSandbox, Container, create_container, remove_container}
use podlock.Nri.Plugin.Create.{IsAdjusted, create_container-IsAdjusted}
use podlock.Nri.Plugin.Confined.{create_container-OnlyFiles, found-valid}
use podlock.Nri.Plugin.Remove.{remove_container-Only}

-- What the cache of the plugin returns.
abbrev pub Cache : Type 0
Cache = ObjectKey → Result LandlockProfile

module _ (S : StringSets) where
  -- The profiles in the cache are those that the webhook admits.
  abbrev pub AreAdmitted : Cache → Type 0
  AreAdmitted get =
      (k : ObjectKey) (p : LandlockProfile) → get k ≡ ok p → validate_create S p ≡ none

module _ (H : HostFs) where
  -- What changes the files of the host: the handlers, the cache being as it is at that time, and
  -- other programs.
  pub data Event : Type 0 where
    creates : Cache → PodSandbox → Container → Event
    removes : PodSandbox → Container → Event
    others : (H.State → H.State) → Event

  module _ (encode : ProfileByBinary → Result Text) (log_level : Text) where
    unfoldable pub handle : Event → H.State → H.State
    handle (creates get pod ctr) s =
        (create_container H encode get log_level (some pod) (some ctr) s).1
    handle (removes pod ctr) s = (remove_container H pod ctr s).1
    handle (others act) s = act s

    unfoldable pub run : List Event → H.State → H.State
    run [] s = s
    run (e ∷ es) s = run es (handle e s)

module _ (H : HostFs) (V : Contents H) (S : StringSets) (pod_id container_name : Text) where
  -- An event that is not about this container: another container is created for an admitted profile,
  -- one of another pod is removed, or a program leaves the files of this container alone.
  abbrev pub Spares : Event H → Type 0
  Spares (creates get pod ctr) =
      IsName pod.id
      × IsName ctr.name
      × AreAdmitted S get
      × (¬ ((pod.id ≡ pod_id) × (ctr.name ≡ container_name)))
  Spares (removes pod ctr) = IsName pod.id × (pod.id ≢ pod_id)
  Spares (others act) =
      (s : H.State) (x : Text) → IsFileOf pod_id container_name x → V.file (act s) x ≡ V.file s x

module _ (H : HostFs) (V : Contents H) (L : IsLawful H V) (encode : ProfileByBinary → Result Text)
    (log_level : Text) (S : StringSets) (laws : podlock.Sets.IsLawful S) (p c : Text)
    (hp : IsName p) (hc : IsName c) where
  handle-kept :
      (e : Event H) (s : H.State) (x : Text)
      → Spares H V S p c e
      → IsFileOf p c x
      → V.file (handle H encode log_level e s) x ≡ V.file s x
  unfolding handle
  handle-kept (creates get pod ctr) s x (hq, hd, admitted, other) own =
      create_container-OnlyFiles H V L encode log_level pod get S laws admitted ctr s x
        (λ theirs. other (IsFileOf-unique pod.id ctr.name p c x hq hd hp hc theirs own))
  handle-kept (removes pod ctr) s x (hq, other) own =
      remove_container-Only H V L pod ctr s x
        (λ below. other (sym (IsFileOf-Below p c pod.id x hp hc hq own below)))
  handle-kept (others act) s x spares own = spares s x own

  pub run-kept :
      (es : List (Event H)) (s : H.State) (x : Text)
      → All (Spares H V S p c) es
      → IsFileOf p c x
      → V.file (run H encode log_level es s) x ≡ V.file s x
  unfolding run
  run-kept [] s x h own = refl
  run-kept (e ∷ es) s x (h, hs) own =
      run-kept es (handle H encode log_level e s) x hs own ∙ handle-kept e s x h own

  reserved-run :
      (es : List (Event H)) (s : H.State) (m : ProfileByBinary)
      → All (Spares H V S p c) es
      → AreValidBinaries m
      → All (λ e. V.file s (swapped_binary_path_on_host p c e.0) ≢ none) m
      → All
          (λ e. V.file (run H encode log_level es s) (swapped_binary_path_on_host p c e.0) ≢ none)
          m
  reserved-run es s [] spares valid h = tt
  reserved-run es s ((b, profile) ∷ m) spares valid h = (
    λ e. h.0 (sym (run-kept es s _ spares (swapped_file b valid.0.0 refl)) ∙ e),
    reserved-run es s m spares valid.1 h.1,
  )

module _ (H : HostFs) (V : Contents H) (L : IsLawful H V) (encode : ProfileByBinary → Result Text)
    (log_level : Text) (S : StringSets) (laws : podlock.Sets.IsLawful S) where
  -- What has been set up for a container stays through the events that spare it.
  pub IsAdjusted-run :
      (get : Cache)
      → AreAdmitted S get
      → (pod : PodSandbox) (ctr : Container) → IsName pod.id
      → IsName ctr.name
      → (t : H.State) (a : ContainerAdjustment) → IsAdjusted H V encode L get log_level pod ctr t a
      → (es : List (Event H)) → All (Spares H V S pod.id ctr.name) es
      → IsAdjusted H V encode L get log_level pod ctr (run H encode log_level es t) a
  IsAdjusted-run get admitted pod ctr hp hc t a found es spares =
      let valid =
        found-valid H V L encode log_level pod get S laws admitted ctr _ found.profile
          found.binaries found.fetched found.of_container in
      record {
        profile_name = found.profile_name;
        profile = found.profile;
        binaries = found.binaries;
        labelled = found.labelled;
        fetched = found.fetched;
        of_container = found.of_container;
        adjustment = found.adjustment;
        set_up = record {
          contents = found.set_up.contents;
          encoded = found.set_up.encoded;
          written =
              run-kept H V L encode log_level S laws pod.id ctr.name hp hc es t _ spares
                (profile_file refl)
              ∙ found.set_up.written;
          reserved =
              reserved-run H V L encode log_level S laws pod.id ctr.name hp hc es t found.binaries
                spares valid found.set_up.reserved;
        };
      }

  -- If CreateContainer returns an adjustment for a container, with profiles that the webhook admits,
  -- then the file of its profile has the encoding of its list and each of its binaries has its file
  -- as long as neither a container of its pod is removed nor the container is created again: after
  -- any sequence of creations and removals of other containers, successful or not, with other
  -- admitted profiles in the cache, and of what other programs do to other files. The pods and the
  -- containers have proper names.
  pub create_container-IsKept :
      (get : Cache)
      → AreAdmitted S get
      → (pod : PodSandbox) (ctr : Container) → IsName pod.id
      → IsName ctr.name
      → (s : H.State) (a : ContainerAdjustment)
      → (create_container H encode get log_level (some pod) (some ctr) s).0 ≡ ok (some a)
      → (es : List (Event H)) → All (Spares H V S pod.id ctr.name) es
      → IsAdjusted H V encode L get log_level pod ctr
          (run H encode log_level (creates get pod ctr ∷ es) s)
          a
  unfolding run handle
  create_container-IsKept get admitted pod ctr hp hc s a h =
      IsAdjusted-run get admitted pod ctr hp hc
        (create_container H encode get log_level (some pod) (some ctr) s).1 a
        (create_container-IsAdjusted H V encode L get log_level pod ctr s a h)

  -- After a removal of a container that succeeds, the files of a container of its pod, this one or
  -- another, are gone, and stay so until it is created again: after any sequence of such events as
  -- above. The pods and the containers have proper names.
  pub remove_container-StaysRemoved :
      (pod : PodSandbox) (ctr : Container) (s : H.State)
      → IsName pod.id
      → (remove_container H pod ctr s).0 ≡ ok tt
      → (c : Text) → IsName c
      → (es : List (Event H)) → All (Spares H V S pod.id c) es
      → (x : Text) → IsFileOf pod.id c x
      → V.file (run H encode log_level (removes pod ctr ∷ es) s) x ≡ none
  unfolding run handle remove_container
  remove_container-StaysRemoved pod ctr s hp h c hc es spares x own =
      let d = podlock_runtime_pod_dir pod.id in
      let done =
        wrap_result-ok (at_path (codes "failed to remove PodLock runtime dir") d)
          (H.remove_all d s).0 tt h in
      run-kept H V L encode log_level S laws pod.id c hp hc es (remove_container H pod ctr s).1 x
        spares own
      ∙ L.file-remove_all d s x done (IsFileOf-IsBelow pod.id c x hp hc own)
