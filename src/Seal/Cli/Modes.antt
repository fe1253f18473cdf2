-- ===== src/Seal/Cli/Modes.antt =====
-- What the native mode makes of a command line with flags for paths and a command.
use podlock.Prelude.{
  ◌≡◌, ◌≢◌, ◌⊎◌, inl, inr, refl, sym, ◌∙◌, ap, subst, true, false, not, none, List, [], ◌∷◌, ◌++◌,
  Text, codes, contains, All, arith, text_eq, ◌==◌,
}
use podlock.Fallible.{Result, ok, err, ◌>>=◌}
use podlock.Sets.{StringSets}
use podlock.Sets
use podlock.Seal.Config.{Config}
use podlock.Flags.{parse}
use podlock.Seal.Flags.{Flags, no_flags, formal}
use podlock.Seal.Cli.{
  Process, command_of, has_paths, native_config, with_flags, native_mode, profile_env_var,
  resolve_binary_path, env_or, log_level_env_var, log_format_env_var, add_linked_libraries_env_var,
}
use podlock.Seal.Cli.Separator.{cut_separator-append}
use podlock.Seal.Cli.Given.{has_paths-given}
use podlock.Seal.Cli.PathFlags.{
  Level, read_only, read_exec, read_write, read_write_exec, paths_of, print_flags, field,
  parse-print_from, no_flags-lacks,
}

abbrev pub config_paths : Level → Config → List Text
config_paths read_only c = c.ro_paths
config_paths read_exec c = c.rx_paths
config_paths read_write c = c.rw_paths
config_paths read_write_exec c = c.rwx_paths

module _ (S : StringSets) (p : Process) where
  -- What the tests of `with_flags` find.
  pub with_flags-cases :
      (binary : Text) (binary_args : List Text) (f : Flags S)
      → let r = with_flags S p binary binary_args f in
        let var = p.getenv profile_env_var in
        ((has_paths S p f ≡ true)
          × (var ≢ [])
          × (r ≡ err (codes "cannot use --profile together with --ro, --rx, --rw, or --rwx")))
        ⊎ ((binary ≡ [])
            × (r ≡ err (codes "no binary specified to run; use -- to separate flags and binary")))
        ⊎ (((has_paths S p f ≡ false) ⊎ (var ≡ []))
            × (binary ≢ [])
            × (r ≡ (
                resolve_binary_path p binary >>= λ path.
                ok (native_config S p f binary_args path))))
  unfolding with_flags
  with_flags-cases binary binary_args f = ground arith

  -- The configuration for these paths, this binary and its arguments.
  pub record IsNative (ps : List (Level × Text)) (path : Text) (binary_args : List Text)
      (c : Config) : Type 0 where
    pub binary : c.binary ≡ path
    pub runs : c.binary_to_run ≡ path
    pub arguments : c.binary_args ≡ binary_args
    pub from_variable : c.profile_path ≡ p.getenv profile_env_var
    pub paths : (l : Level) (x : Text) → contains (config_paths l c) x ≡ contains (paths_of l ps) x
    pub level : c.log_level ≡ env_or (p.getenv log_level_env_var) (codes "info")
    pub format : c.log_format ≡ p.getenv log_format_env_var
    pub links : c.add_linked_libraries ≡ not (p.getenv add_linked_libraries_env_var == [])

  -- What can come of paths and a command.
  pub data Outcome (ps : List (Level × Text)) (command : List Text) : Result Config → Type 0 where
    conflicting :
        ps ≢ []
        → p.getenv profile_env_var ≢ []
        → Outcome ps command
            (err (codes "cannot use --profile together with --ro, --rx, --rw, or --rwx"))
    no_binary :
        (command_of command).0 ≡ []
        → Outcome ps command
            (err (codes "no binary specified to run; use -- to separate flags and binary"))
    unresolved :
        (name e : Text) (binary_args : List Text)
        → command ≡ name ∷ binary_args
        → resolve_binary_path p name ≡ err e
        → Outcome ps command (err e)
    native :
        (name path : Text) (binary_args : List Text) (c : Config)
        → command ≡ name ∷ binary_args
        → name ≢ []
        → resolve_binary_path p name ≡ ok path
        → (ps ≡ []) ⊎ (p.getenv profile_env_var ≡ [])
        → IsNative ps path binary_args c
        → Outcome ps command (ok c)

  -- The parser of the flags for paths leaves the other variables as they are.
  record IsGiven (ps : List (Level × Text)) (f : Flags S) : Type 0 where
    paths : (l : Level) (x : Text) → contains (field S l f) x ≡ contains (paths_of l ps) x
    others : (f.log_level ≡ codes "info") × (f.log_format ≡ []) × (f.ldd ≡ false)

  native_config-IsNative :
      (ps : List (Level × Text)) (f : Flags S) (path : Text) (binary_args : List Text)
      → IsGiven ps f
      → IsNative ps path binary_args (native_config S p f binary_args path)
  native_config-IsNative ps f path binary_args given =
      let (level, format, ldd) = given.others in
      record {
        binary = refl;
        runs = refl;
        arguments = refl;
        from_variable = refl;
        paths = λ l x.
            elim l
              as (λ k.
                contains (config_paths k (native_config S p f binary_args path)) x
                ≡ contains (paths_of k ps) x) [
                  | read_only ↦ given.paths read_only x
                  | read_exec ↦ given.paths read_exec x
                  | read_write ↦ given.paths read_write x
                  | read_write_exec ↦ given.paths read_write_exec x
                ];
        level = ap (env_or (p.getenv log_level_env_var)) level;
        format = ground (arith, format);
        links = ground (arith, ldd);
      }

  resolved-Outcome :
      (ps : List (Level × Text)) (f : Flags S) (name : Text) (binary_args : List Text)
      (r : Result Text)
      → IsGiven ps f
      → (ps ≡ []) ⊎ (p.getenv profile_env_var ≡ [])
      → name ≢ []
      → resolve_binary_path p name ≡ r
      → Outcome ps (name ∷ binary_args) (r >>= λ path. ok (native_config S p f binary_args path))
  resolved-Outcome ps f name binary_args (err e) given exclusive named h =
      unresolved name e binary_args refl h
  resolved-Outcome ps f name binary_args (ok path) given exclusive named h =
      native name path binary_args _ refl named h exclusive
        (native_config-IsNative ps f path binary_args given)

  with_flags-Outcome :
      (ps : List (Level × Text)) (f : Flags S) (command : List Text)
      → IsGiven ps f
      → Outcome ps command (with_flags S p (command_of command).0 (command_of command).1 f)
  with_flags-Outcome ps f [] given = elim (with_flags-cases [] [] f) [
    | inl (some_given, set, e) ↦ elim (has_paths-given S p ps f given.paths) [
      | inl (_, none_given) ↦ absurd (cc)
      | inr (full, _) ↦ subst (Outcome ps []) (sym e) (conflicting full set)
    ]
    | inr (inl (empty, e)) ↦ subst (Outcome ps []) (sym e) (no_binary refl)
    | inr (inr (_, named, _)) ↦ absurd (named refl)
  ]
  with_flags-Outcome ps f (name ∷ binary_args) given = elim (with_flags-cases name binary_args f) [
    | inl (some_given, set, e) ↦ elim (has_paths-given S p ps f given.paths) [
      | inl (_, none_given) ↦ absurd (cc)
      | inr (full, _) ↦ subst (Outcome ps (name ∷ binary_args)) (sym e) (conflicting full set)
    ]
    | inr (inl (empty, e)) ↦ subst (Outcome ps (name ∷ binary_args)) (sym e) (no_binary empty)
    | inr (inr (exclusive, named, e)) ↦
        let allowed : (ps ≡ []) ⊎ (p.getenv profile_env_var ≡ []) = elim exclusive [
          | inr unset ↦ inr unset
          | inl none_given ↦ elim (has_paths-given S p ps f given.paths) [
            | inl (no_paths, _) ↦ inl no_paths
            | inr (_, some_given) ↦ absurd (cc)
          ]
        ] in
        subst (Outcome ps (name ∷ binary_args)) (sym e)
          (resolved-Outcome ps f name binary_args _ given allowed named refl)
  ]

  native_mode-eq :
      (flag_args command : List Text) (f : Flags S)
      → All (λ a. a ≢ codes "--") flag_args
      → parse (formal S) (no_flags S) none flag_args ≡ ok f
      → native_mode S p (flag_args ++ (codes "--" ∷ command))
        ≡ with_flags S p (command_of command).0 (command_of command).1 f
  unfolding native_mode
  native_mode-eq flag_args command f apart parsed =
      rw (cut_separator-append flag_args command apart, parsed) refl

  -- For a command line with `-ro`, `-rx`, `-rw` and `-rwx`, in any order and number, then `--` and a
  -- command, where neither flag nor path is `--`, the native mode gives one of these results. If a
  -- path is given and the variable of the process names a profile, an error. If there is no command
  -- or its first word is empty, an error. If the first word cannot be resolved, that error. And
  -- otherwise the configuration to run what the word resolves to with the words that follow it,
  -- whose levels have exactly the paths given for them, with the profile, the format of the log and
  -- the libraries of the variables, and with the level of the log of its variable, or else `info`.
  -- It has the profile of the variable only if no path is given.
  pub native_mode-Outcome :
      podlock.Sets.IsLawful S
      → (ps : List (Level × Text)) (command : List Text)
      → All (λ a. a ≢ codes "--") (print_flags ps)
      → Outcome ps command (native_mode S p (print_flags ps ++ (codes "--" ∷ command)))
  native_mode-Outcome laws ps command apart =
      let (f, parsed, same, others) = parse-print_from S laws ps (no_flags S) in
      subst (Outcome ps command) (sym (native_mode-eq (print_flags ps) command f apart parsed)) (
        with_flags-Outcome ps f command (record {
          paths = λ l x. same l x ∙ no_flags-lacks S laws l x (contains (paths_of l ps) x);
          others = others;
        }))
