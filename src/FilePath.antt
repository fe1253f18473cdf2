-- ===== src/FilePath.antt =====
-- The functions of Go's `path/filepath` that the program calls, as they are on Unix.
pub mod Components
pub mod Clean
use podlock.Prelude.{
  ℕ, Bool, true, false, ◌||◌, ◌&&◌, not, List, [], ◌∷◌, ◌++◌, foldl, reverse, Text, codes, contains,
  ◌==◌, text_eq, nat_eq, if◌then◌else◌,
}
use podlock.Strings.{has_prefix, split_on, join_with}

abbrev pub separator : ℕ
separator = b'/'

-- filepath.IsAbs
unfoldable pub is_abs : Text → Bool
is_abs [] = false
is_abs (c ∷ p) = c == separator

-- An element `..`: it takes the element before it away, and is dropped at the root.
abbrev pub pop : Bool → List Text → List Text
pop rooted [] = if rooted then [] else codes ".." ∷ []
pop rooted (t ∷ ts) = if t == codes ".." then codes ".." ∷ t ∷ ts else ts

-- One element of the path, over the elements so far, the last one first.
unfoldable pub clean_step : Bool → List Text → Text → List Text
clean_step rooted stack w =
    if w == [] || w == codes "."
    then stack
    else if w == codes ".."
    then pop rooted stack
    else w ∷ stack

abbrev pub or_dot : Text → Text
or_dot [] = codes "."
or_dot (c ∷ p) = c ∷ p

-- filepath.Clean
unfoldable pub clean : Text → Text
unfolding is_abs clean_step split_on join_with
clean p =
    let elements = reverse (foldl (clean_step (is_abs p)) [] (split_on separator p)) in
    if is_abs p
    then separator ∷ join_with separator elements
    else or_dot (join_with separator elements)

-- filepath.Join: leading empty elements are skipped, and none at all gives the empty path.
unfoldable pub join : List Text → Text
unfolding clean join_with
join [] = []
join ([] ∷ ws) = join ws
join ((c ∷ w) ∷ ws) = clean (join_with separator ((c ∷ w) ∷ ws))

-- filepath.Abs, in the working directory `cwd`
unfoldable pub abs : Text → Text → Text
unfolding clean join is_abs
abs cwd p = if is_abs p then clean p else join (cwd ∷ p ∷ [])

unfoldable pub trim_separators : Text → Text
trim_separators [] = []
trim_separators (c ∷ p) = let rest = trim_separators p in if c == separator then rest else c ∷ p

-- What stands before the first separator.
unfoldable pub until_separator : Text → Text
until_separator [] = []
until_separator (c ∷ p) = let rest = until_separator p in if c == separator then [] else c ∷ rest

-- What stands from the first separator on.
unfoldable pub from_separator : Text → Text
from_separator [] = []
from_separator (c ∷ p) = let rest = from_separator p in if c == separator then c ∷ p else rest

abbrev pub or_separator : Text → Text
or_separator [] = separator ∷ []
or_separator (c ∷ p) = c ∷ p

-- filepath.Base, read from the end of the path
unfoldable pub base : Text → Text
unfolding trim_separators until_separator
base [] = codes "."
base (c ∷ p) = or_separator (reverse (until_separator (trim_separators (reverse (c ∷ p)))))

-- filepath.Dir
unfoldable pub dir : Text → Text
unfolding clean from_separator
dir p = clean (reverse (from_separator (reverse p)))

-- filepath.IsLocal
unfoldable pub is_local : Text → Bool
unfolding is_abs clean has_prefix split_on
is_local p =
    let elements = split_on separator p in
    let q =
      if contains elements (codes ".") || contains elements (codes "..") then clean p else p in
    if is_abs p || p == [] then false else not (q == codes ".." || has_prefix q (codes "../"))
