-- ===== src/OciHook/Entry.antt =====
-- main of the OCI hook, and the arguments that the plugin gives it.
use podlock.Prelude.{
  ◌≡◌, ◌≢◌, refl, sym, ap, ◌∙◌, false, ◌||◌, Option, none, some, List, [], ◌∷◌, Text, codes, ◌==◌,
  text_eq, arith, if◌then◌else◌,
}
use podlock.Io.{IoError, Io, raise, wrap, ◌>>◌}
use podlock.FilePath.Clean.{IsCleanAbs}
use podlock.Nri.Paths.{swapped_binary_path_inside_container}
use podlock.Nri.Paths.Layout.{swapped_binary_path_inside_container-eq}
use podlock.Nri.Adjustments.{binary_hook}
use podlock.Fallible.{Result, ok, err}
use podlock.Flags.{Flag, value_flag, parse, step, token}
use podlock.OciHook.{perform_over_mounts}
use podlock.OciHook.Syscalls.{Kernel}

-- The values of `-target` and `-backup`.
pub record Options : Type 0 where
  pub target : Text
  pub backup : Text

unfoldable pub hook_flags : Text → Option (Flag Options)
hook_flags name =
    if name == codes "target"
    then some (value_flag (λ v o. ok (record o { target = v })))
    else if name == codes "backup"
    then some (value_flag (λ v o. ok (record o { backup = v })))
    else none

abbrev pub no_options : Options
no_options = record { target = []; backup = [] }

abbrev exit_error : Text → IoError
exit_error message = record { message = message; not_exist = false }

module _ (K : Kernel) where
  abbrev pub run_options : Result Options → Io K.State (Unit {0})
  run_options (err e) = raise (exit_error e)
  run_options (ok o) =
      if o.target == [] || o.backup == []
      then raise (exit_error (codes "usage"))
      else wrap (codes "failed to chroot to container root") (K.chroot (codes "."))
        >> wrap (codes "failed to perform swap") (perform_over_mounts K o.target o.backup)

  -- main, of os.Args; an error stands for an exit with status 1 or 2.
  unfoldable pub main_of : List Text → Io K.State (Unit {0})
  main_of [] = run_options (parse hook_flags no_options none [])
  main_of (argv0 ∷ args) = run_options (parse hook_flags no_options none args)

  parse-binary_hook :
      (binary backup : Text)
      → parse hook_flags no_options none (codes "-target" ∷ binary ∷ codes "-backup" ∷ backup ∷ [])
        ≡ ok (record { target = binary; backup = backup })
  unfolding parse step hook_flags token text_eq podlock.Strings.cut_at
  parse-binary_hook binary backup = refl

  run_options-given :
      (target backup : Text)
      → target ≢ []
      → backup ≢ []
      → run_options (ok (record { target = target; backup = backup })) ≡ (
          wrap (codes "failed to chroot to container root") (K.chroot (codes "."))
          >> wrap (codes "failed to perform swap") (perform_over_mounts K target backup))
  run_options-given target backup ht hb = ground arith

  -- With the arguments that the plugin writes into the hook of a clean binary, the hook exchanges
  -- just that binary with its place below `/.podlock/swapped-binaries`.
  pub main_of-binary_hook :
      (binary : Text)
      → IsCleanAbs binary
      → main_of (binary_hook binary).args ≡ (
          wrap (codes "failed to chroot to container root") (K.chroot (codes "."))
          >> wrap
              (codes "failed to perform swap")
              (perform_over_mounts K binary (swapped_binary_path_inside_container binary)))
  unfolding main_of binary_hook
  main_of-binary_hook binary clean =
      let backup = swapped_binary_path_inside_container binary in
      let placed =
        ap swapped_binary_path_inside_container clean.shape
        ∙ swapped_binary_path_inside_container-eq clean.elements clean.names in
      ap run_options (parse-binary_hook binary backup)
      ∙ run_options-given binary backup (λ e. absurd (cc (sym clean.shape ∙ e)))
          (λ e. absurd (cc (sym placed ∙ e)))
