-- ===== src/Seal/Main/Linked.antt =====
-- The seal with its own discovery of the linked libraries: a binary that may be run can load them.
use podlock.Prelude.{
  ◌≡◌, ◌⊎◌, inl, inr, refl, sym, ap, ◌∙◌, subst, true, ◌||◌, List, [], ◌∷◌, Text, All, contains,
  text_eq, ◌==◌, arith,
}
use podlock.Fallible.{ok}
use podlock.Api.{Profile}
use podlock.Sets.{StringSets}
use podlock.Seal.Access.{execute, read_file}
use podlock.Seal.Rules.{Rule, is_file}
use podlock.Seal.Rules.Grants.{grants}
use podlock.Seal.Config.{Config, build_profile}
use podlock.Seal.Logger.{LogHandler, setup_logger}
use podlock.Seal.Cli.{Process, parse_flags}
use podlock.Seal.Env.Filter.{where_true, is_passed_on}
use podlock.Seal.Ldd.{
  ElfClass, file_type_elf, detect_file_type, find_ld_so_bin, loader_argv, list_libraries,
  parse_loader_output, discover_linked_libraries,
}
use podlock.Seal.Ldd
use podlock.Seal.Ldd.Entry.{Entry, print_output, libraries_of, IsWellFormed}
use podlock.Seal.Ldd.RoundTrip.{parse-print_output}
use podlock.Seal.Main.{Call, restrict_paths, exec, System, main}
use podlock.Seal.Main.Sealed.{
  IsSealed, stopped, refused, sealed, StopsEarly, bad_command_line, bad_level, no_profile,
  no_libraries, IsLeast, main-IsSealed,
}

module _ (ldd : podlock.Seal.Ldd.System) (binary : Text) (entries : List Entry) where
  -- An ELF binary with an import table, for which the loader of its class prints these entries.
  pub record IsDynamic : Type 0 where
    pub elf_class : ElfClass
    pub import : Text
    pub imports : List Text
    pub elf : detect_file_type (ldd.magic binary) ≡ ok file_type_elf
    pub class_read : ldd.elf_class binary ≡ ok elf_class
    pub imported : ldd.imported_libraries binary ≡ ok (import ∷ imports)
    pub printed :
        let solver = find_ld_so_bin elf_class [] ldd.glob in
        ldd.run solver (loader_argv solver binary) ≡ ok (print_output entries)
    pub well_formed : All IsWellFormed entries

  discover-dynamic : IsDynamic → discover_linked_libraries ldd binary ≡ ok (libraries_of entries)
  unfolding discover_linked_libraries list_libraries text_eq
  discover-dynamic d =
      rw (d.elf, d.class_read, d.imported, d.printed)
        (ap ok (parse-print_output entries d.well_formed))

module _ (sys : System) (S : StringSets) (p : Process) (argv0 : Text) (args : List Text)
    (c : Config) (parsed : parse_flags S p argv0 args ≡ ok c) where
  -- Nothing stands in the way of the binary.
  pub record IsReady : Type 0 where
    pub handler : LogHandler
    pub profile : Profile
    pub logged : setup_logger c.log_level c.log_format ≡ ok handler
    pub built : build_profile sys.read sys.decode c ≡ ok profile
    pub restricted : (rules : List Rule) → sys.restrict rules ≡ ok tt

  -- The calls of a run that ends with the execution of the binary.
  pub record Runs (calls : List Call) : Type 0 where
    pub rules : List Rule
    pub least : IsLeast sys S p argv0 args c rules
    pub calls_shape :
        calls
        ≡ restrict_paths rules
          ∷ exec c.binary_to_run (c.binary ∷ c.binary_args) (where_true is_passed_on sys.environ)
          ∷ []

  same_config : (d : Config) → parse_flags S p argv0 args ≡ ok d → d ≡ c
  same_config d h = cc

  not-StopsEarly :
      IsReady
      → (libs : List Text) → sys.discover c.binary_to_run ≡ ok libs
      → ¬ StopsEarly sys S p argv0 args
  not-StopsEarly r libs discovered (bad_command_line e h) = cc
  not-StopsEarly r libs discovered (bad_level d e h failed) = cc (
      sym r.logged
      ∙ ap (λ (x : Config). setup_logger x.log_level x.log_format) (sym (same_config d h))
      ∙ failed)
  not-StopsEarly r libs discovered (no_profile d e h failed) = cc (
      sym r.built
      ∙ ap (λ (x : Config). build_profile sys.read sys.decode x) (sym (same_config d h))
      ∙ failed)
  not-StopsEarly r libs discovered (no_libraries d e h linking failed) = cc (
      sym discovered
      ∙ ap (λ (x : Config). sys.discover x.binary_to_run) (sym (same_config d h))
      ∙ failed)

  sealed-Runs :
      IsReady
      → (libs : List Text) → sys.discover c.binary_to_run ≡ ok libs
      → (calls : List Call) → IsSealed sys S p argv0 args calls
      → Runs calls
  sealed-Runs r libs discovered _ (stopped early) = absurd (not-StopsEarly r libs discovered early)
  sealed-Runs r libs discovered _ (refused d rules e h least failed) =
      let succeeds = r.restricted rules in absurd (cc)
  sealed-Runs r libs discovered _ (sealed d rules h least done) =
      let same = same_config d h in
      subst
        (λ (x : Config).
          IsLeast sys S p argv0 args x rules
          → Runs (
              restrict_paths rules
              ∷ exec x.binary_to_run (x.binary ∷ x.binary_args)
                  (where_true is_passed_on sys.environ)
              ∷ []))
        (sym same) (λ l. record { rules = rules; least = l; calls_shape = refl }) least

  module _ (ldd : podlock.Seal.Ldd.System) (entries : List Entry)
      (dynamic : IsDynamic ldd c.binary_to_run entries)
      (agrees : sys.discover c.binary_to_run ≡ discover_linked_libraries ldd c.binary_to_run) where
    -- What the running of the binary needs: the binary itself, or a library that the loader found.
    abbrev pub IsNeeded : Text → Type 0
    IsNeeded path = (path ≡ c.binary_to_run) ⊎ (contains (libraries_of entries) path ≡ true)

    needed-given :
        (path : Text) (libs : List Text)
        → libs ≡ libraries_of entries
        → IsNeeded path
        → (path == c.binary_to_run || contains libs path) ≡ true
    needed-given path libs e (inl same) = ground arith
    needed-given path libs e (inr listed) = rw e (ground arith)

    needed-grants :
        (rules : List Rule)
        → IsLeast sys S p argv0 args c rules
        → c.add_linked_libraries ≡ true
        → (path : Text) → IsNeeded path
        → sys.stat path ≡ is_file
        → (grants rules path execute ≡ true) × (grants rules path read_file ≡ true)
    needed-grants rules least linking path needed at =
        let discovered = agrees ∙ discover-dynamic ldd c.binary_to_run entries dynamic in
        let linked : sys.discover c.binary_to_run ≡ ok least.libs = ground arith in
        let same : least.libs ≡ libraries_of entries = cc in
        let given : (path == c.binary_to_run || contains least.libs path) ≡ true =
          needed-given path least.libs same needed in
        (
          least.least path execute ∙ rw (at, given) (ground arith),
          least.least path read_file ∙ rw (at, given) (ground arith),
        )

    -- Let the command line and the level of the log be good, the profile be found, and Landlock take
    -- the rules, and let the libraries be asked for. If the binary is an ELF file with imports, and
    -- its loader lists libraries in the known form, then the seal restricts itself and executes the
    -- binary, and the rules let the binary, and each library that the loader has found, be read and
    -- executed, as far as they are files.
    pub main-CanLoad :
        IsReady
        → c.add_linked_libraries ≡ true
        → (rules : List Rule) × (main sys S p argv0 args
            ≡ restrict_paths rules
              ∷ exec c.binary_to_run
                  (c.binary ∷ c.binary_args)
                  (where_true is_passed_on sys.environ)
              ∷ [])
          × ((path : Text)
              → IsNeeded path
              → sys.stat path ≡ is_file
              → (grants rules path execute ≡ true) × (grants rules path read_file ≡ true))
    main-CanLoad ready linking =
        let discovered = agrees ∙ discover-dynamic ldd c.binary_to_run entries dynamic in
        let runs =
          sealed-Runs ready (libraries_of entries) discovered (main sys S p argv0 args)
            (main-IsSealed sys S p argv0 args) in
        (runs.rules, runs.calls_shape, needed-grants runs.rules runs.least linking)
