-- ===== src/Seal/Main/Named.antt =====
-- What the seal does under its own name.
use podlock.Prelude.{
  sym, inl, inr, none, ◌≡◌, refl, ap, ◌∙◌, true, List, [], Text, codes, text_eq, ◌==◌, arith,
}
use podlock.Fallible.{Result, ok, err, ◌>>=◌, wrap_result, >>=-eq-ok}
use podlock.Flags.{parse}
use podlock.Seal.Flags.{Flags, no_flags, formal}
use podlock.FilePath.{base}
use podlock.Api.{ProfileByBinary}
use podlock.Sets.{StringSets}
use podlock.Seal.Config.{Config, build_profile}
use podlock.Seal.Logger.{LogHandler, setup_logger}
use podlock.Seal.Cli.{
  Process, native_mode, parse_flags, profile_env_var, native_config, with_flags, command_of,
  cut_separator,
}
use podlock.Seal.Cli.Modes.{with_flags-cases}
use podlock.Seal.Main.{System, with_profile, with_logger, with_config, main}

module _ (S : StringSets) (p : Process) where
  resolved-profile_path :
      (f : Flags S) (binary_args : List Text) (r : Result Text) (c : Config)
      → (r >>= λ path. ok (native_config S p f binary_args path)) ≡ ok c
      → c.profile_path ≡ p.getenv profile_env_var
  resolved-profile_path f binary_args (err e) c h = absurd (cc)
  resolved-profile_path f binary_args (ok path) c h =
      let same : native_config S p f binary_args path ≡ c = cc h in
      ap (λ (x : Config). x.profile_path) (sym same)

  with_flags-profile_path :
      (binary : Text) (binary_args : List Text) (f : Flags S) (c : Config)
      → with_flags S p binary binary_args f ≡ ok c
      → c.profile_path ≡ p.getenv profile_env_var
  with_flags-profile_path binary binary_args f c h =
      elim (with_flags-cases S p binary binary_args f) [
        | inl (_, _, e) ↦ absurd (cc)
        | inr (inl (_, e)) ↦ absurd (cc)
        | inr (inr (_, _, e)) ↦ resolved-profile_path f binary_args _ c (sym e ∙ h)
      ]

  -- The variable alone says where the profile is.
  native_mode-profile_path :
      (args : List Text) (c : Config)
      → native_mode S p args ≡ ok c
      → c.profile_path ≡ p.getenv profile_env_var
  unfolding native_mode
  native_mode-profile_path args c h =
      let command = command_of (cut_separator args).1 in
      let (f, parsed, rest) =
        >>=-eq-ok
          (wrap_result (codes "could not parse flags")
            (parse (formal S) (no_flags S) none (cut_separator args).0))
          (with_flags S p command.0 command.1) c h in
      with_flags-profile_path command.0 command.1 f c rest

build_profile-unread :
    (read read' : Text → Result Text) (decode decode' : Text → Result ProfileByBinary) (c : Config)
    → c.profile_path ≡ []
    → build_profile read decode c ≡ build_profile read' decode' c
unfolding build_profile
build_profile-unread read read' decode decode' c e = ground arith

module _ (sys : System) (read : Text → Result Text) (decode : Text → Result ProfileByBinary) where
  -- The same system, with other files.
  abbrev pub with_files : System
  with_files = record sys { read = read; decode = decode }

  logger-unread :
      (c : Config) (o : Result LogHandler)
      → c.profile_path ≡ []
      → with_logger with_files c o ≡ with_logger sys c o
  logger-unread c (err e) unset = refl
  logger-unread c (ok handler) unset =
      ap (with_profile sys c) (build_profile-unread read sys.read decode sys.decode c unset)

  config-unread :
      (o : Result Config)
      → ((c : Config) → o ≡ ok c → c.profile_path ≡ [])
      → with_config with_files o ≡ with_config sys o
  config-unread (err e) unset = refl
  config-unread (ok c) unset =
      logger-unread c (setup_logger c.log_level c.log_format) (unset c refl)

  -- Run under a path that ends in the name `seal`, and without the variable that names a file, the
  -- seal makes the same calls whatever the files that it could read a profile from have, and whatever
  -- the decoder makes of them: also if it runs in the place of a binary of that name, the profile
  -- that the pod has for this binary does not matter. What else it asks the system for, as the kinds
  -- of files and the libraries of the binary, is taken to be the same.
  pub main-unread :
      (S : StringSets) (p : Process) (argv0 : Text) (args : List Text)
      → base argv0 ≡ codes "seal"
      → p.getenv profile_env_var ≡ []
      → main with_files S p argv0 args ≡ main sys S p argv0 args
  unfolding main parse_flags
  main-unread S p argv0 args named unset =
      let same : (base argv0 == codes "seal") ≡ true = ground arith in
      rw same (
        config-unread (native_mode S p args) (λ c h. native_mode-profile_path S p args c h ∙ unset))
