-- ===== src/Tests/Entry.antt =====
-- The programs of the plugin and the controller, from their arguments on.
use podlock.Prelude.{
  apart, ap, ◌≡◌, refl, false, All, ◌∙◌, true, Option, none, some, List, [], ◌∷◌, Text, codes, ◌==◌,
  text_eq, ◌++◌, Bool, contains, Eq, arith, ℕ_discrete, if◌then◌else◌,
}
use mathlib.Core.List
use podlock.Finalizers.{list_finalizers}
use podlock.Sets.{list_sets}
use podlock.Flags.{Flag, Token, a_flag, stop, bad_syntax, token}
use podlock.Controller.Memory as ClusterMemory
use podlock.Controller.Options.{ManagerOptions}
use podlock.Controller.Options.Http2.{NotAsked}
use podlock.Controller.Main.{Runtime}
use podlock.Controller.Main.Started.{Course, controller_program-Course}
use podlock.Io.{ok, pure}
use podlock.Api.Scheme
use podlock.Api.Scheme.{GroupVersion, ObjectType, Schemes, Knowledge}
use podlock.Nri.Memory.{memory, memory_contents, memory-IsLawful, Files}
use podlock.Nri.Node.Memory as NodeMemory
use podlock.Nri.Main.{StubOption, Services, World, start_plugin_mode, default_options}
use podlock.Nri.Main.Copied.{
  Ends, Distinguishes, start_plugin_mode-Ends, seal_on_host, hook_on_host,
}

abbrev image : Files
image = λ p.
    if p == codes "/seal"
    then some (codes "seal 2")
    else if p == seal_on_host
    then some (codes "seal 1")
    else if p == codes "/swap-oci-hook"
    then some (codes "hook")
    else none

abbrev digest : Text → Text
digest c = 0 ∷ c

abbrev world : World memory NodeMemory.memory
world = (image, λ q. none)

-- A scheme that is the list of its types, and whether it has the pods.
abbrev TypeList : Type 0
TypeList = Bool × List (GroupVersion × ObjectType)

abbrev added : GroupVersion → List ObjectType → List (GroupVersion × ObjectType)
added gv [] = []
added gv (t ∷ ts) = (gv, t) ∷ added gv ts

abbrev type_lists : Schemes
type_lists = record {
  Scheme = TypeList;
  Builder = GroupVersion × List ObjectType;
  new_scheme = (false, []);
  new_builder = λ gv. (gv, []);
  register = λ b ts. (b.0, b.1 ++ ts);
  add_to_scheme = λ b s. (ok tt, (s.0, added b.0 b.1 ++ s.1));
  add_client_go_to_scheme = λ s. (ok tt, (true, s.1));
  add_core_to_scheme = λ s. (ok tt, (true, s.1));
}

type_dec : Discrete (GroupVersion × ObjectType)
unfolding ℕ_discrete
type_dec = hlevel ℕ_discrete

instance type_eq : Eq (GroupVersion × ObjectType)
unfolding type_dec
type_eq = record { dec = type_dec }

abbrev type_knowledge : Knowledge type_lists
type_knowledge = record { knows = λ s gv t. contains s.1 (gv, t); knows_pods = λ s. s.0 }

All-contains :
    (gv : GroupVersion) (ts : List ObjectType) (u : ObjectType)
    (fs : List (GroupVersion × ObjectType))
    → All (λ t. contains fs (gv, t) ≡ true) ts
    → All (λ t. contains ((gv, u) ∷ fs) (gv, t) ≡ true) ts
All-contains gv [] u fs h = tt
All-contains gv (t ∷ ts) u fs h =
    let first = h.0 in (ground (arith, first), All-contains gv ts u fs h.1)

contains-added :
    (gv : GroupVersion) (ts : List ObjectType) (fs : List (GroupVersion × ObjectType))
    → All (λ t. contains (added gv ts ++ fs) (gv, t) ≡ true) ts
contains-added gv [] fs = tt
contains-added gv (t ∷ ts) fs =
    (ground arith, All-contains gv ts t (added gv ts ++ fs) (contains-added gv ts fs))

type_lists-IsLawful : podlock.Api.Scheme.IsLawful type_lists type_knowledge
type_lists-IsLawful = record {
  knows-add = λ gv ts s h. contains-added gv ts s.1;
  knows_pods-add = λ b s h. h;
  knows_pods-client_go = λ s h. refl;
}

-- A stub that ends at once.
abbrev services : Services type_lists (World memory NodeMemory.memory)
services = record {
  new_cache = λ scheme. pure tt;
  wait_for_cache_sync = λ s. (true, s);
  new_client = λ scheme. pure tt;
  Stub = List StubOption;
  new_stub = λ log_level options. pure options;
  run_stub = λ stub. pure tt;
}

tells_apart :
    (src dst : Text) → Distinguishes memory memory_contents memory-IsLawful digest image src dst
tells_apart src dst c d at_src at_dst same = List.tail-eq_of_cons-eq same

start_plugin_mode-Ends_example :
    Ends memory memory_contents memory-IsLawful digest NodeMemory.memory services default_options
      world
      (start_plugin_mode memory NodeMemory.memory services digest default_options world)
start_plugin_mode-Ends_example =
    start_plugin_mode-Ends memory memory_contents memory-IsLawful digest NodeMemory.memory services
      default_options (λ w p. refl) world (λ c e. cc) (tells_apart (codes "/seal") seal_on_host)
      (tells_apart (codes "/swap-oci-hook") hook_on_host)

-- A manager that is its options.
abbrev runtime : Runtime ClusterMemory.memory type_lists (Unit {0})
runtime = record {
  Manager = ManagerOptions;
  new_manager = λ scheme. pure;
  complete_controller = λ mgr build. pure tt;
  complete_webhook = λ mgr build. pure tt;
  add_healthz_check = λ mgr name. pure tt;
  add_readyz_check = λ mgr name. pure tt;
  start = λ mgr. pure tt;
}

abbrev no_zap : Text → Option (Flag (Unit {0}))
no_zap name = none

abbrev arguments : List Text
arguments = codes "--leader-elect" ∷ codes "-metrics-secure=false" ∷ []

name_of : Token → Text
name_of (a_flag name value) = name
name_of stop = []
name_of bad_syntax = []

not_asked : (arg : Text) → (name_of (token arg) == codes "enable-http2") ≡ false → NotAsked arg
unfolding name_of
not_asked arg h name value e same =
    apart (name_of (token arg)) (codes "enable-http2") h (ap name_of e ∙ same)

arguments-NotAsked : All NotAsked arguments
arguments-NotAsked = (
  not_asked (codes "--leader-elect") (unfold token name_of text_eq podlock.Strings.cut_at in refl),
  (
    not_asked (codes "-metrics-secure=false")
        (unfold token name_of text_eq podlock.Strings.cut_at in refl),
    tt,
  ),
)

controller_program-Course_example :
    Course list_finalizers list_sets ClusterMemory.memory type_lists type_knowledge
      type_lists-IsLawful runtime no_zap tt arguments
controller_program-Course_example =
    controller_program-Course list_finalizers list_sets ClusterMemory.memory type_lists
      type_knowledge type_lists-IsLawful runtime no_zap tt arguments arguments-NotAsked
