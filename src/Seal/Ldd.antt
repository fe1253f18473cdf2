-- ===== src/Seal/Ldd.antt =====
-- ldd.go: the type of a binary, its loader, and the libraries that the loader lists.
pub mod Output
pub mod Entry
pub mod RoundTrip
pub mod Discover
pub mod Libraries
use podlock.Prelude.{
  ℕ, zero, suc, Bool, true, false, ◌&&◌, Option, none, some, List, [], ◌∷◌, ◌++◌, map, Text, codes,
  length, ltb, ◌==◌, text_eq, nat_eq, if◌then◌else◌,
}
use podlock.Fallible.{◌>>=◌, Result, ok, err}
use podlock.Strings.{has_prefix, contains_text, trim_space, split_on, fields, cut_arrow}
use podlock.FilePath.{join}

abbrev pub file_type_unknown : Text
file_type_unknown = codes "unknown"

abbrev pub file_type_elf : Text
file_type_elf = codes "elf"

abbrev pub file_type_script : Text
file_type_script = codes "script"

-- parts[0], if it is there and starts with `/`
abbrev pub first_path : List Text → Option Text
first_path [] = none
first_path (w ∷ ws) = if has_prefix w (codes "/") then some w else none

abbrev pub after_arrow : Text → Option (Text × Text) → Option Text
after_arrow line (some (before, after)) = first_path (fields (trim_space after))
after_arrow line none = first_path (fields line)

-- One round of the loop of `parseLoaderOutput`: the path that it appends, if it appends one.
unfoldable pub parse_line : Text → Option Text
parse_line raw =
    let line = trim_space raw in if line == [] then none else after_arrow line (cut_arrow line)

abbrev pub cons_some : Option Text → List Text → List Text
cons_some none libs = libs
cons_some (some lib) libs = lib ∷ libs

unfoldable pub parse_lines : List Text → List Text
parse_lines [] = []
parse_lines (raw ∷ lines) = cons_some (parse_line raw) (parse_lines lines)

unfoldable pub parse_loader_output : Text → List Text
parse_loader_output output = parse_lines (split_on 10 output)

-- What os.Open and f.Read of four bytes give: the bytes that were read.
pub data Magic : Type 0 where
  open_failed : Magic
  read_failed : Magic
  read : List ℕ → Magic

-- magic[i] of a buffer of four zeroes that was read into
abbrev pub byte_at : ℕ → List ℕ → ℕ
byte_at i [] = 0
byte_at zero (b ∷ bs) = b
byte_at (suc i) (b ∷ bs) = byte_at i bs

unfoldable pub detect_file_type : Magic → Result Text
detect_file_type open_failed = err (codes "could not open file")
detect_file_type read_failed = err (codes "could not read magic bytes from file")
detect_file_type (read magic) =
    if ltb (length magic) 2
    then err (codes "could not read magic bytes from file")
    else if ltb 3 (length magic)
        && byte_at 0 magic == 0x7F
        && byte_at 1 magic == b'E'
        && byte_at 2 magic == b'L'
        && byte_at 3 magic == b'F'
    then ok file_type_elf
    else if byte_at 0 magic == b'#' && byte_at 1 magic == b'!'
    then ok file_type_script
    else ok file_type_unknown

-- FirstGlobber.Find with the field `searchPathPrefix`; `glob` is filepath.Glob.
abbrev pub under_prefix : Text → Text → Text
under_prefix prefix pattern_ = if prefix == [] then pattern_ else join (prefix ∷ pattern_ ∷ [])

unfoldable pub first_match : (Text → Result (List Text)) → List Text → Text
first_match glob [] = []
first_match glob (pattern_ ∷ patterns) = elim (glob pattern_) [
  | err e ↦ first_match glob patterns
  | ok [] ↦ first_match glob patterns
  | ok (found ∷ others) ↦ found
]

unfoldable pub find : Text → (Text → Result (List Text)) → List Text → Text
unfolding first_match
find prefix glob patterns = first_match glob (map (under_prefix prefix) patterns)

-- elf.Class; `other_class` stands for any value that the switch does not name.
pub data ElfClass : Type 0 where
  class_none class32 class64 other_class : ElfClass

abbrev pub class_patterns : ElfClass → List Text
class_patterns class32 = codes "/lib32/ld-*.so.*" ∷ []
class_patterns class64 = codes "/lib64/ld-*.so.*" ∷ []
class_patterns class_none = []
class_patterns other_class = []

-- findLdSoBin
unfoldable pub find_ld_so_bin : ElfClass → Text → (Text → Result (List Text)) → Text
find_ld_so_bin elf_class prefix glob =
    find prefix glob (class_patterns elf_class ++ codes "/lib/ld-*.so.*" ∷ [])

-- What the discovery asks of the system: the first bytes of a file, debug/elf, filepath.Glob, and
-- the combined output of a program run with the given argv.
pub record System : Type 0 where
  pub magic : Text → Magic
  pub elf_class : Text → Result ElfClass
  pub imported_libraries : Text → Result (List Text)
  pub glob : Text → Result (List Text)
  pub run : Text → List Text → Result Text

-- The arguments, argv[0] included, that list the libraries of a binary.
unfoldable pub loader_argv : Text → Text → List Text
loader_argv solver binary =
    if contains_text solver (codes "musl")
    then codes "ldd" ∷ binary ∷ []
    else solver ∷ codes "--list" ∷ binary ∷ []

-- What follows the import table: a static binary has none.
unfoldable pub list_libraries : System → Text → ElfClass → List Text → Result (List Text)
list_libraries sys binary elf_class [] = ok []
list_libraries sys binary elf_class (lib ∷ libs) =
    let solver = find_ld_so_bin elf_class [] sys.glob in
    do output ← sys.run solver (loader_argv solver binary); ok (parse_loader_output output)

-- What follows the detection of the file type: only an ELF binary is looked into.
unfoldable pub discover_by_type : System → Text → Text → Result (List Text)
discover_by_type sys binary file_type =
    if file_type == file_type_elf
    then (do
      elf_class ← sys.elf_class binary
      imported ← sys.imported_libraries binary
      list_libraries sys binary elf_class imported)
    else ok []

-- DiscoverLinkedLibraries; the texts that wrap an error are not modelled.
unfoldable pub discover_linked_libraries : System → Text → Result (List Text)
unfolding discover_by_type
discover_linked_libraries sys binary = do
  file_type ← detect_file_type (sys.magic binary)
  discover_by_type sys binary file_type
