-- ===== src/Seal/Ldd/Entry.antt =====
-- The lines that a dynamic loader prints, as data.
use podlock.Prelude.{
  ◌≡◌, true, false, Option, none, some, List, [], ◌∷◌, ◌++◌, Text, codes, text_eq, nat_eq,
}
use podlock.Strings.{has_prefix}
use podlock.Strings.Laws.{Lacks}
use podlock.Strings.Words.{IsWord}
use podlock.Seal.Ldd.{cons_some}

-- What the dynamic loaders of glibc and musl print for one library.
pub data Entry : Type 0 where
  -- name => path (address)
  resolved : Text → Text → Text → Entry
  -- path (address), for the loader itself
  loader : Text → Text → Entry
  -- name (address), for the library that the kernel provides
  virtual : Text → Text → Entry
  -- name => not found
  missing : Text → Entry

abbrev pub in_parentheses : Text → Text
in_parentheses address = b'(' ∷ (address ++ codes ")")

abbrev pub print_entry : Entry → Text
print_entry (resolved name path address) =
    9 ∷ (name ++ (codes " => " ++ (path ++ (b' ' ∷ in_parentheses address))))
print_entry (loader path address) = 9 ∷ (path ++ (b' ' ∷ in_parentheses address))
print_entry (virtual name address) = 9 ∷ (name ++ (b' ' ∷ in_parentheses address))
print_entry (missing name) = 9 ∷ (name ++ codes " => not found")

abbrev pub print_output : List Entry → Text
print_output [] = []
print_output (e ∷ es) = print_entry e ++ (10 ∷ print_output es)

abbrev pub library_of : Entry → Option Text
library_of (resolved name path address) = some path
library_of (loader path address) = some path
library_of (virtual name address) = none
library_of (missing name) = none

abbrev pub libraries_of : List Entry → List Text
libraries_of [] = []
libraries_of (e ∷ es) = cons_some (library_of e) (libraries_of es)

-- A name or an address: a word with no `=` in it.
pub record IsToken (w : Text) : Type 0 where
  pub word : IsWord w
  pub no_arrow : Lacks b'=' w

abbrev pub IsRooted : Text → Type 0
IsRooted p = has_prefix p (codes "/") ≡ true

abbrev pub IsWellFormed : Entry → Type 0
IsWellFormed (resolved name path address) =
    IsToken name × IsWord path × IsRooted path × IsToken address
IsWellFormed (loader path address) = IsToken path × IsRooted path × IsToken address
IsWellFormed (virtual name address) =
    IsToken name × (has_prefix name (codes "/") ≡ false) × IsToken address
IsWellFormed (missing name) = IsToken name
