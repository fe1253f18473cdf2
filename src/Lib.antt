-- ===== src/Lib.antt =====
-- PodLock confines the binaries of containers with Landlock. This library models its own logic.
--
-- The parts of the program, and how they work together:
-- - A LandlockProfile (api/v1alpha1) lists, for the binaries of the containers of a pod, the paths
--   that each may read, write and execute. A pod names its profile in a label.
-- - The admission webhook (internal/webhook/v1alpha1) rejects profiles whose paths are not absolute
--   and clean or have two levels, and adds a finalizer to new ones.
-- - The controller (internal/controller) keeps a profile that is being deleted until no pod uses
--   it.
-- - The NRI plugin (internal/nri, cmd/nri) is called when a container is created. It fetches the
--   profile, makes a directory for the pod on the host, with an empty file for each binary and the
--   profile of the container as JSON, and returns the mounts and the hooks for the container. It
--   removes the directory when a container is removed. In its init mode it labels the node with the
--   Landlock version.
-- - The OCI hook (cmd/swap-oci-hook) runs once for each binary: it mounts the binary over the empty
--   file, and the seal over the binary.
-- - The seal (cmd/seal, internal/seal) thus runs in the place of the binary. It makes Landlock
--   rules of the profile and of the libraries of the binary, and executes the binary with them.
--
-- Which file models which part:
-- - Api: api/v1alpha1/landlockprofile_types.go. Api.DeepCopy: zz_generated.deepcopy.go, over the
--   memory of Api.Heap, with the layouts of slices, maps and structs in Api.DeepCopy.Layouts, the
--   proof in Api.DeepCopy.Fresh, and the copies of pointers and of objects in
--   Api.DeepCopy.Pointers. Api.Scheme: groupversion_info.go, and init of landlockprofile_types.go.
-- - Webhook.Paths: paths.go; Webhook.Validator: ValidateCreate, ValidateUpdate, ValidateDelete and
--   validateProfile; Webhook.Defaulter: Default. Webhook.Errors is the part of the package `field`
--   of Kubernetes that they use. Webhook.Valid says what a valid profile is, without the checks;
--   Webhook.Accepts proves the validator.
-- - Controller.Client: the calls of the API server, as an interface, with their documented
--   behaviour as its laws; Controller.Reconcile: Reconcile, handleDeletion and findProfilesForPod;
--   Controller.Branches: their branches; Controller.Protection: the steps of the reconciler and of
--   the others, interleaved, over caches that may be behind; Controller.Progress,
--   Controller.Attempts: the calls that one request causes, where the cluster changes between the
--   calls of the client too; Controller.Requests: the requests of a pod; Controller.Memory: a
--   cluster that meets the laws. Admission: the users of the cluster, whose profiles pass the
--   webhook on their way to the API server, beside the reconciler. Controller.Options: the flags
--   and the options of cmd/controller/main.go; Controller.Main: main and init, SetupWithManager and
--   SetupRegistryWebhookWithManager.
-- - Nri.Paths: internal/nri/constants.go and the path functions of filesystem.go, with their
--   elements in Nri.Paths.Layout and their separation in Nri.Paths.Distinct and Nri.Paths.Files;
--   Nri.HostFs: the calls of `os`, as an interface with laws; Nri.Filesystem:
--   reserveSwappedBinaries, writeLandlockProfileToHostFilesystem, fileSha256, CopyFileIfDifferent,
--   and copyBinaries of cmd/nri/plugin_mode.go; Nri.Adjustments: createContainerAdjustment;
--   Nri.Plugin: CreateContainer and RemoveContainer, and Nri.Plugin.Lifecycle: sequences of their
--   calls for many containers; Nri.Shared, Nri.Plugin.Own, Nri.Plugin.Interleaved: CreateContainer
--   with such events between its own calls to the host; Nri.Memory: files that meet the laws.
--   Nri.Node: node.go, landlock.go and startInitMode of cmd/nri/init_mode.go; Nri.Node.Client: the
--   calls on nodes, with laws, and the runs of RetryOnConflict; Nri.Node.Memory: nodes that meet
--   the laws. Nri.Main: main and setupKubeClient of cmd/nri/main.go, and startPluginMode of
--   cmd/nri/plugin_mode.go.
-- - OciHook: performOverMounts; OciHook.Entry: main of the hook; OciHook.Syscalls: open_tree,
--   move_mount, close and chroot, with laws; OciHook.Mounts: the proofs; OciHook.Memory: mounts
--   that meet the laws.
-- - Seal.Access, Seal.Rules: internal/seal/rules.go; Seal.Ldd: internal/seal/ldd.go; Seal.Env:
--   cmd/seal/env.go; Seal.Config: cmd/seal/config.go; Seal.Flags, Seal.Cli: cmd/seal/cli.go;
--   Seal.Main: cmd/seal/main.go, as the list of the system calls that it makes; Seal.Main.Linked:
--   main with its own discovery of libraries; Seal.Main.Named: main under the name of the seal.
-- - Pipeline: the plugin and the seal together, from the creation of a container to the execution
--   of a binary in it; Pipeline.Hooks: the hooks of an adjustment, run one after the other;
--   Pipeline.Admitted, Pipeline.Created: these hooks for a profile that the webhook admits, and for
--   an adjustment of CreateContainer; Pipeline.Later: a binary that is run when other events have
--   come between and after; Pipeline.Served: all of this for a profile that a user has sent to the
--   cluster; Pipeline.Clash: binaries of which one lies where the other is kept.
-- - Levels: internal/cmdutil/log.go, with what it uses of log/slog and strconv.Atoi; Seal.Logger:
--   setupLogger of cmd/seal/cli.go.
-- - Strings, FilePath, Map, Sets, Finalizers, Flags: what the code uses of the packages strings,
--   path/filepath and flag, of maps, of sets.Set, and of the finalizer functions of
--   controller-runtime. Fallible, Io: code that may fail, without and with a state. Prelude has the
--   shared names and lemmas.
-- - Tests: runs of the definitions, and the theorems at concrete inputs.
--
-- How code becomes definitions. A text is the list of its bytes. A Go map is an association list in
-- the order in which one loop meets its entries; the theorems hold for every order, and the JSON
-- decoder may choose its own. A handler that changes the cluster, the host or the mounts takes and
-- returns the state, which comes back beside an error too, since what was done before a failure
-- stays done. Loops are recursion on the list that is ranged over; only strconv.Itoa has fuel, one
-- more than its number, which Decimal shows to be enough.
--
-- What is a parameter: the API server, the file system of the host, the kernel's mount calls,
-- sets.Set, the JSON encoder, the SHA-256 digest, debug/elf, filepath.Glob, os.Stat and the run of
-- the dynamic loader, the environment of the process, controller-runtime, the flags of zap, and the
-- stub of NRI.
--
-- What is not modelled: logs; the goroutine that starts the cache of the plugin; the texts of the
-- errors of the packages flag and slog; the change of the root, after which the paths of the hook
-- are those of the container; links, on the host and in the container; the difference of nil slices
-- and empty ones, except in Api.DeepCopy; the modes of files, which are passed to the interface
-- only. The caches of the reconciler may be behind in Controller.Protection and Admission;
-- elsewhere each of its calls meets the cluster at a moment of its own. Of a digest the model needs
-- that it is not empty, and that the two files at hand do not collide.
pub mod Prelude
pub mod Strings
pub mod FilePath
pub mod Map
pub mod Io
pub mod Fallible
pub mod Flags
pub mod Decimal
pub mod Levels
pub mod Sets
pub mod Finalizers
pub mod Api
pub mod Webhook
pub mod Controller
pub mod Admission
pub mod Nri
pub mod OciHook
pub mod Seal
pub mod Pipeline
pub mod Tests
