-- ===== src/Tests/Seal.antt =====
-- The seal: rules, environment and the discovery of libraries.
use podlock.Prelude.{
  ℕ, if◌then◌else◌, ◌≡◌, ◌⊎◌, refl, List, [], ◌∷◌, ◌&&◌, not, Bool, ◌==◌, arith, Text, codes,
  contains, text_eq, nat_eq, All, true, false,
}
use podlock.Fallible.{Result, ok}
use podlock.Strings.{has_prefix, split_on, trim_space, fields, is_space, contains_text, cut_arrow}
use podlock.Strings.Words.{IsWord, HasNoSpace}
use podlock.Seal.Access.{write_file, right_eq}
use podlock.Seal.Rules.{
  Stat, stat_failed, is_file, is_dir, profile_to_landlock_rules, rules_for_binary_to_run,
}
use podlock.Seal.Rules.Grants.{grants}
use podlock.Seal.Rules.LeastPrivilege.{
  meant, RunsUnder, grants-profile, rules_for_binary_to_run_lem,
}
use podlock.Seal.Env.{sealed_process_env}
use podlock.Seal.Env.Filter.{where_true, is_passed_on, sealed_process_env-eq}
use podlock.Seal.Ldd.{
  read, file_type_elf, detect_file_type, find, find_ld_so_bin, System, loader_argv, list_libraries,
  discover_by_type, discover_linked_libraries, parse_loader_output, class64, parse_line,
  parse_lines,
}
use podlock.Seal.Ldd.Output.{IsLibraryPath}
use podlock.Seal.Ldd.Entry.{
  Entry, resolved, virtual, missing, print_output, libraries_of, IsWellFormed, IsToken,
}
use podlock.Seal.Ldd.RoundTrip.{parse-print_output}
use podlock.Seal.Ldd.Libraries.{Listed, discover_linked_libraries_lem}
use podlock.Tests.Data.{nginx, curl}

abbrev stat : Text → Stat
stat p = if p == curl then is_file else if p == codes "/gone" then stat_failed else is_dir

grants-profile_example :
    grants (profile_to_landlock_rules stat nginx) (codes "/tmp") write_file
    ≡ meant is_dir write_file false true false false
unfolding text_eq
grants-profile_example = grants-profile stat nginx (codes "/tmp") write_file

abbrev pub libc : Text
libc = codes "/lib64/libc.so.6"

rules_for_binary_to_run_lem_example :
    RunsUnder stat curl true
      (λ b. ok (libc ∷ []))
      (rules_for_binary_to_run stat curl true (λ b. ok (libc ∷ [])))
rules_for_binary_to_run_lem_example =
    rules_for_binary_to_run_lem stat curl true (λ b. ok (libc ∷ []))

abbrev environ : List Text
environ = codes "PATH=/bin" ∷ codes "SEAL_LOG_LEVEL=debug" ∷ codes "odd" ∷ []

sealed_process_env-eq_example : sealed_process_env environ ≡ where_true is_passed_on environ
sealed_process_env-eq_example = sealed_process_env-eq environ

abbrev pub listed : List Entry
listed =
    virtual (codes "linux-vdso.so.1") (codes "0x7ffd")
    ∷ resolved (codes "libc.so.6") libc (codes "0x7f00")
    ∷ missing (codes "libx.so")
    ∷ []

abbrev has_no_space : Text → Bool
has_no_space [] = true
has_no_space (c ∷ w) = not (is_space c) && has_no_space w

has_no_space_sound : (w : Text) → has_no_space w ≡ true → HasNoSpace w
has_no_space_sound [] h = tt
has_no_space_sound (c ∷ w) h = (ground arith, has_no_space_sound w (ground arith))

word : (c : ℕ) (w : Text) → has_no_space (c ∷ w) ≡ true → IsWord (c ∷ w)
word c w h = record { no_space = has_no_space_sound (c ∷ w) h; not_empty = λ e. cc }

token :
    (c : ℕ) (w : Text)
    → has_no_space (c ∷ w) ≡ true
    → contains (c ∷ w) b'=' ≡ false
    → IsToken (c ∷ w)
token c w h l = record { word = word c w h; no_arrow = l }

pub listed-IsWellFormed : All IsWellFormed listed
unfolding is_space nat_eq has_prefix
listed-IsWellFormed = (
  (token _ _ refl refl, refl, token _ _ refl refl),
  ((token _ _ refl refl, word _ _ refl, refl, token _ _ refl refl), (token _ _ refl refl, tt)),
)

parse-print_output_example : parse_loader_output (print_output listed) ≡ libraries_of listed
parse-print_output_example = parse-print_output listed listed-IsWellFormed

abbrev pub elf_magic : List ℕ
elf_magic = 0x7F ∷ codes "ELF"

abbrev pub glob : Text → Result (List Text)
glob p = if p == codes "/lib64/ld-*.so.*" then ok (codes "/lib64/ld-linux.so.2" ∷ []) else ok []

abbrev patterns : List Text
patterns = codes "/lib32/ld-*.so.*" ∷ codes "/lib64/ld-*.so.*" ∷ []

abbrev pub sys : System
sys = record {
  magic = λ p. read elf_magic;
  elf_class = λ p. ok class64;
  imported_libraries = λ p. ok (codes "libc.so.6" ∷ []);
  glob = glob;
  run = λ p argv. ok (print_output listed);
}

discovered : discover_linked_libraries sys curl ≡ ok (libc ∷ [])
unfolding discover_linked_libraries discover_by_type detect_file_type list_libraries loader_argv
    find_ld_so_bin find parse_loader_output parse_lines parse_line split_on trim_space fields
    has_prefix contains_text text_eq cut_arrow is_space
discovered = refl

discover_linked_libraries_lem_example :
    (((libc ∷ [] ≡ [])
      ⊎ ((detect_file_type (read elf_magic) ≡ ok file_type_elf) × Listed sys curl (libc ∷ []))))
    × All IsLibraryPath (libc ∷ [])
discover_linked_libraries_lem_example =
    discover_linked_libraries_lem sys curl (libc ∷ []) discovered
