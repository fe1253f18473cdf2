-- ===== src/Nri/Plugin/Interleaved.antt =====
-- CreateContainer while other handlers and other programs act on the host between its calls.
use podlock.Prelude.{
  ℕ, ◌≡◌, ◌≢◌, refl, sym, subst, Bool, true, Option, none, some, List, [], ◌∷◌, Text, codes,
  text_eq, All,
}
use podlock.Map.{lookup}
use podlock.FilePath.Components.{IsName}
use podlock.Api.{ProfileByBinary, LandlockProfile}
use podlock.Controller.Client.{pod_profile_label}
use podlock.Io.{Result, ok, bind-Ran}
use podlock.Sets.{StringSets}
use podlock.Sets
use podlock.Nri.HostFs.{HostFs, Contents, IsLawful}
use podlock.Nri.Shared.{
  shared, own_contents, shared-IsLawful, own_contents-there, own_contents-none,
}
use podlock.Nri.Paths.{swapped_binary_path_on_host}
use podlock.Nri.Filesystem.{at_path}
use podlock.Nri.Filesystem.Reserve.{wrap_result-ok}
use podlock.Nri.Adjustments.{ContainerAdjustment}
use podlock.Nri.Plugin.{
  PodSandbox, Container, profile_of, adjust, adjust_if_found, adjust_labelled, adjust_if_labelled,
  create_container,
}
use podlock.Nri.Plugin.Create.{profile_key, AreSetUp, IsAdjusted, adjust-ok}
use podlock.Nri.Plugin.Confined.{found-valid}
use podlock.Nri.Plugin.Own.{is_own, is_own-IsFileOf, profile-is_own, swapped-is_own}
use podlock.Nri.Plugin.Lifecycle.{Cache, AreAdmitted, Event, Spares, run, run-kept, IsAdjusted-run}

-- The run of a handler that asks for an adjustment, whatever the host, is that of `adjust` for the
-- profile that it finds.
module _ (H : HostFs) (encode : ProfileByBinary → Result Text) (get : Cache)
    (log_level : Text) where
  record Adjusts (pod : PodSandbox) (ctr : Container) (s t : H.State) (a : ContainerAdjustment)
      : Type 0 where
    profile_name : Text
    profile : LandlockProfile
    binaries : ProfileByBinary
    labelled : lookup pod_profile_label pod.labels ≡ some profile_name
    fetched : get (profile_key pod profile_name) ≡ ok profile
    of_container : profile_of profile ctr ≡ some binaries
    returned : (adjust H encode get log_level pod ctr binaries s).0 ≡ ok (some a)
    ends : t ≡ (adjust H encode get log_level pod ctr binaries s).1

  found-Adjusts :
      (pod : PodSandbox) (ctr : Container) (name : Text) (profile : LandlockProfile)
      (o : Option ProfileByBinary) (s : H.State) (a : ContainerAdjustment)
      → lookup pod_profile_label pod.labels ≡ some name
      → get (profile_key pod name) ≡ ok profile
      → profile_of profile ctr ≡ o
      → (adjust_if_found H encode get log_level pod ctr o s).0 ≡ ok (some a)
      → Adjusts pod ctr s (adjust_if_found H encode get log_level pod ctr o s).1 a
  found-Adjusts pod ctr name profile none s a label got e h = absurd (cc)
  found-Adjusts pod ctr name profile (some m) s a label got e h = record {
    profile_name = name;
    profile = profile;
    binaries = m;
    labelled = label;
    fetched = got;
    of_container = e;
    returned = h;
    ends = refl;
  }

  labelled-Adjusts :
      (pod : PodSandbox) (ctr : Container) (o : Option Text) (s : H.State) (a : ContainerAdjustment)
      → lookup pod_profile_label pod.labels ≡ o
      → (adjust_if_labelled H encode get log_level pod (some ctr) o s).0 ≡ ok (some a)
      → Adjusts pod ctr s (adjust_if_labelled H encode get log_level pod (some ctr) o s).1 a
  unfolding adjust_labelled
  labelled-Adjusts pod ctr none s a e h = absurd (cc)
  labelled-Adjusts pod ctr (some name) s a e h =
      let ran = bind-Ran _ _ s (some a) h in
      let got =
        wrap_result-ok (at_path (codes "failed to get LandlockProfile") name)
          (get (profile_key pod name)) ran.value ran.first in
      subst (λ (t : H.State). Adjusts pod ctr s t a) (sym ran.last)
        (found-Adjusts pod ctr name ran.value (profile_of ran.value ctr) s a e got refl ran.second)

  create_container-Adjusts :
      (pod : PodSandbox) (ctr : Container) (s : H.State) (a : ContainerAdjustment)
      → (create_container H encode get log_level (some pod) (some ctr) s).0 ≡ ok (some a)
      → Adjusts pod ctr s (create_container H encode get log_level (some pod) (some ctr) s).1 a
  unfolding create_container
  create_container-Adjusts pod ctr s a =
      labelled-Adjusts pod ctr (lookup pod_profile_label pod.labels) s a refl

module _ (H : HostFs) (V : Contents H) (L : IsLawful H V) (encode : ProfileByBinary → Result Text)
    (log_level : Text) where
  -- The files that are set up for one that sees its own only are there.
  module _ (own : Text → Bool) (acts : ℕ → H.State → H.State)
      (spare : (n : ℕ) (s : H.State) (x : Text)
        → own x ≡ true
        → V.file (acts n s) x ≡ V.file s x) where
    abbrev own_view : Contents (shared H acts)
    own_view = own_contents H V L own acts spare

    own_contents-reserved :
        (t : H.State × ℕ) (p c : Text) (m : ProfileByBinary)
        → All (λ e. own_view.file t (swapped_binary_path_on_host p c e.0) ≢ none) m
        → All (λ e. V.file t.0 (swapped_binary_path_on_host p c e.0) ≢ none) m
    own_contents-reserved t p c [] h = tt
    own_contents-reserved t p c (e ∷ m) h = (
      λ gone. h.0 (own_contents-none H V L own acts spare t _ gone),
      own_contents-reserved t p c m h.1,
    )

    own_contents-AreSetUp :
        (t : H.State × ℕ) (pod : PodSandbox) (ctr : Container) (m : ProfileByBinary)
        → AreSetUp (shared H acts) own_view encode t pod ctr m
        → AreSetUp H V encode t.0 pod ctr m
    own_contents-AreSetUp t pod ctr m done = record {
      contents = done.contents;
      encoded = done.encoded;
      written = own_contents-there H V L own acts spare t _ done.contents done.written;
      reserved = own_contents-reserved t pod.id ctr.name m done.reserved;
    }

  -- The host on which any events happen before each call of the handler.
  abbrev pub busy : (ℕ → List (Event H)) → HostFs
  busy events = shared H (λ n. run H encode log_level (events n))

  -- A creation between whose calls any events happen that spare the container leaves what one
  -- leaves that nothing comes between.
  create_container-IsAdjusted_interleaved :
      (S : StringSets)
      → podlock.Sets.IsLawful S
      → (get : Cache) → AreAdmitted S get
      → (pod : PodSandbox) (ctr : Container) → IsName pod.id
      → IsName ctr.name
      → (events : ℕ → List (Event H)) → ((n : ℕ) → All (Spares H V S pod.id ctr.name) (events n))
      → (s : H.State × ℕ) (a : ContainerAdjustment)
      → (create_container (busy events) encode get log_level (some pod) (some ctr) s).0
        ≡ ok (some a)
      → IsAdjusted H V encode L get log_level pod ctr
          (create_container (busy events) encode get log_level (some pod) (some ctr) s).1.0
          a
  create_container-IsAdjusted_interleaved S laws get admitted pod ctr hp hc events spares s a h =
      let found = create_container-Adjusts (busy events) encode get log_level pod ctr s a h in
      let m = found.binaries in
      let valid =
        found-valid H V L encode log_level pod get S laws admitted ctr _ found.profile m
          found.fetched found.of_container in
      let own = is_own pod.id ctr.name m in
      let acts = λ (n : ℕ). run H encode log_level (events n) in
      let spare = λ (n : ℕ) (t : H.State) (x : Text) (e : own x ≡ true).
        run-kept H V L encode log_level S laws pod.id ctr.name hp hc (events n) t x (spares n)
          (is_own-IsFileOf pod.id ctr.name m x valid e) in
      let (result, done) =
        adjust-ok (busy events) (own_contents H V L own acts spare) encode
          (shared-IsLawful H V L own acts spare) get log_level pod ctr m s (some a)
          (profile-is_own pod.id ctr.name m) (swapped-is_own pod.id ctr.name m) found.returned in
      record {
        profile_name = found.profile_name;
        profile = found.profile;
        binaries = m;
        labelled = found.labelled;
        fetched = found.fetched;
        of_container = found.of_container;
        adjustment = cc result;
        set_up =
            subst (λ (t : H.State × ℕ). AreSetUp H V encode t.0 pod ctr m) (sym found.ends)
              (own_contents-AreSetUp own acts spare _ pod ctr m done);
      }

  -- Before each call by which CreateContainer changes the file system, let any sequence of events
  -- happen that spare the container: other containers are created for admitted profiles, containers
  -- of other pods are removed, and programs change files other than those of this container. If
  -- CreateContainer still returns an adjustment, for a profile that the webhook admits, then the
  -- adjustment is the one for the list that the profile has for the container, the file of the
  -- profile has the encoding of this list and each binary has its file, and so it stays after any
  -- further sequence of such events. The pods and the containers have proper names.
  pub create_container-IsKept_interleaved :
      (S : StringSets)
      → podlock.Sets.IsLawful S
      → (get : Cache) → AreAdmitted S get
      → (pod : PodSandbox) (ctr : Container) → IsName pod.id
      → IsName ctr.name
      → (during : ℕ → List (Event H)) → ((n : ℕ) → All (Spares H V S pod.id ctr.name) (during n))
      → (s : H.State × ℕ) (a : ContainerAdjustment)
      → (create_container (busy during) encode get log_level (some pod) (some ctr) s).0
        ≡ ok (some a)
      → (es : List (Event H)) → All (Spares H V S pod.id ctr.name) es
      → IsAdjusted H V encode L get log_level pod ctr
          (run H encode log_level es
            (create_container (busy during) encode get log_level (some pod) (some ctr) s).1.0)
          a
  create_container-IsKept_interleaved S laws get admitted pod ctr hp hc during spares s a h =
      IsAdjusted-run H V L encode log_level S laws get admitted pod ctr hp hc
        (create_container (busy during) encode get log_level (some pod) (some ctr) s).1.0 a
        (create_container-IsAdjusted_interleaved S laws get admitted pod ctr hp hc during spares s a
          h)
