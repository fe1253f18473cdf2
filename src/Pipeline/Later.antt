-- ===== src/Pipeline/Later.antt =====
-- A binary runs under the profile of its pod also later, when the plugin has handled other events.
use podlock.Prelude.{ℕ, ◌≡◌, ◌≢◌, some, List, ◌∷◌, Text, codes, All}
use podlock.Fallible
use podlock.Io.{Result, ok}
use podlock.FilePath.{base}
use podlock.FilePath.Components.{IsName}
use podlock.Api.{ProfileByBinary}
use podlock.Sets.{StringSets}
use podlock.Sets
use podlock.Levels.{Level, parse_log_level}
use podlock.Nri.HostFs.{HostFs, Contents, IsLawful}
use podlock.Nri.Adjustments.{ContainerAdjustment}
use podlock.Nri.Plugin.{PodSandbox, Container, create_container}
use podlock.Nri.Plugin.Lifecycle.{
  Cache, AreAdmitted, Event, creates, run, Spares, create_container-IsKept,
}
use podlock.Nri.Plugin.Interleaved.{busy, create_container-IsKept_interleaved}
use podlock.Seal.Cli.{Process, absolute}
use podlock.Seal.Main.{System, main}
use podlock.Pipeline.{IsConfined}
use podlock.Pipeline.Confined.{RunsIn, ReadsBack, IsAskedFor, adjusted-IsConfined}

module _ (H : HostFs) (V : Contents H) (L : IsLawful H V) (encode : ProfileByBinary → Result Text)
    (log_level : Text) (S : StringSets) (laws : podlock.Sets.IsLawful S) where
  -- A run after a creation that nothing comes between.
  pub main-IsConfined_later :
      (get : Cache)
      → AreAdmitted S get
      → (pod : PodSandbox) (ctr : Container) → IsName pod.id
      → IsName ctr.name
      → (s : H.State) (a : ContainerAdjustment)
      → (create_container H encode get log_level (some pod) (some ctr) s).0 ≡ ok (some a)
      → (es : List (Event H)) → All (Spares H V S pod.id ctr.name) es
      → (level : Level) → parse_log_level log_level ≡ podlock.Fallible.ok level
      → (sys : System) (p : Process) → ReadsBack encode get ctr sys.decode
      → RunsIn H V a (run H encode log_level (creates get pod ctr ∷ es) s) sys p
      → (argv0 binary : Text) (args : List Text) → base argv0 ≢ codes "seal"
      → absolute p argv0 ≡ podlock.Fallible.ok binary
      → (m : ProfileByBinary) × IsAskedFor H V L encode get log_level pod ctr m
        × IsConfined sys p m binary args (main sys S p argv0 args)
  main-IsConfined_later get admitted pod ctr hp hc s a created es spares level readable =
      adjusted-IsConfined H V L encode get log_level pod ctr
        (run H encode log_level (creates get pod ctr ∷ es) s) a
        (create_container-IsKept H V L encode log_level S laws get admitted pod ctr hp hc s a
          created es spares)
        level readable S

  -- Let CreateContainer return an adjustment for a container, for profiles that the webhook admits,
  -- and let any events happen before each of its calls that change the file system, and also after
  -- it: other containers are created and removed, but none of the same pod is removed and this one
  -- is not created again, and other programs change other files. Let a binary be run in a container
  -- with the adjustment, which reads the files of the host as they are then, under its own name and
  -- not as `seal`. Then the pod has a profile that lists the container, as it was in the cache at
  -- the creation, and the seal, run in the place of the binary, makes only the calls that confine
  -- the binary by what this list has for it: none if it has no profile or the libraries cannot be
  -- discovered, and otherwise the restriction to exactly the rights of the profile and those that
  -- its running needs, and, only if this succeeds, the execution of what the hook has kept. It is
  -- assumed that the pods and the containers have proper names, the level of the log can be read,
  -- and the JSON decoder reads back, of the lists that the profiles in the cache have for the
  -- container, what the encoder writes, if perhaps in another order.
  pub main-IsConfined_interleaved :
      (get : Cache)
      → AreAdmitted S get
      → (pod : PodSandbox) (ctr : Container) → IsName pod.id
      → IsName ctr.name
      → (during : ℕ → List (Event H)) → ((n : ℕ) → All (Spares H V S pod.id ctr.name) (during n))
      → (s : H.State × ℕ) (a : ContainerAdjustment)
      → (create_container
          (busy H V L encode log_level during)
          encode
          get
          log_level
          (some pod)
          (some ctr)
          s).0
        ≡ ok (some a)
      → (es : List (Event H)) → All (Spares H V S pod.id ctr.name) es
      → (level : Level) → parse_log_level log_level ≡ podlock.Fallible.ok level
      → (sys : System) (p : Process) → ReadsBack encode get ctr sys.decode
      → RunsIn H V a
          (run H encode log_level es
            (create_container
              (busy H V L encode log_level during)
              encode
              get
              log_level
              (some pod)
              (some ctr)
              s).1.0)
          sys
          p
      → (argv0 binary : Text) (args : List Text) → base argv0 ≢ codes "seal"
      → absolute p argv0 ≡ podlock.Fallible.ok binary
      → (m : ProfileByBinary) × IsAskedFor H V L encode get log_level pod ctr m
        × IsConfined sys p m binary args (main sys S p argv0 args)
  main-IsConfined_interleaved get admitted pod ctr hp hc during spares s a created es later level
        readable =
      adjusted-IsConfined H V L encode get log_level pod ctr
        (run H encode log_level es
          (create_container (busy H V L encode log_level during) encode get log_level (some pod)
            (some ctr) s).1.0)
        a
        (create_container-IsKept_interleaved H V L encode log_level S laws get admitted pod ctr hp
          hc during spares s a created es later)
        level readable S
