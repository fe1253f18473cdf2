-- ===== src/Seal/Ldd/Output.antt =====
-- What the parser of the loader's output returns.
use podlock.Prelude.{
  ◌≡◌, true, Option, none, some, List, [], ◌∷◌, Text, All, codes, Bool-cases, inl, inr, text_eq,
  ◌==◌,
}
use podlock.Strings.{has_prefix, trim_space, split_on, fields, cut_arrow}
use podlock.Strings.Words.{IsWord, fields-IsWord}
use podlock.Seal.Ldd.{
  first_path, after_arrow, parse_line, cons_some, parse_lines, parse_loader_output,
}

-- A word that starts with `/`.
pub record IsLibraryPath (w : Text) : Type 0 where
  pub word : IsWord w
  pub rooted : has_prefix w (codes "/") ≡ true

abbrev Every : Option Text → Type 0
Every none = Unit
Every (some lib) = IsLibraryPath lib

first_path-IsLibraryPath : (ws : List Text) → All IsWord ws → Every (first_path ws)
first_path-IsLibraryPath [] h = tt
first_path-IsLibraryPath (w ∷ ws) h = elim (Bool-cases (has_prefix w (codes "/"))) [
  | inl rooted ↦ rw rooted (record { word = h.0; rooted = rooted })
  | inr relative ↦ rw relative tt
]

after_arrow-IsLibraryPath : (line : Text) (o : Option (Text × Text)) → Every (after_arrow line o)
after_arrow-IsLibraryPath line none = first_path-IsLibraryPath (fields line) (fields-IsWord line)
after_arrow-IsLibraryPath line (some (before, after)) =
    first_path-IsLibraryPath (fields (trim_space after)) (fields-IsWord (trim_space after))

parse_line-IsLibraryPath : (raw : Text) → Every (parse_line raw)
unfolding parse_line
parse_line-IsLibraryPath raw =
    let line = trim_space raw in
    elim (Bool-cases (line == [])) [
      | inl blank ↦ rw blank tt
      | inr full ↦ rw full (after_arrow-IsLibraryPath line (cut_arrow line))
    ]

cons_some-IsLibraryPath :
    (o : Option Text) (libs : List Text)
    → Every o
    → All IsLibraryPath libs
    → All IsLibraryPath (cons_some o libs)
cons_some-IsLibraryPath none libs h hs = hs
cons_some-IsLibraryPath (some lib) libs h hs = (h, hs)

parse_lines-IsLibraryPath : (lines : List Text) → All IsLibraryPath (parse_lines lines)
unfolding parse_lines
parse_lines-IsLibraryPath [] = tt
parse_lines-IsLibraryPath (raw ∷ lines) =
    cons_some-IsLibraryPath (parse_line raw) (parse_lines lines) (parse_line-IsLibraryPath raw)
      (parse_lines-IsLibraryPath lines)

-- Whatever the loader prints, each path returned is one word without white space that starts with
-- `/`.
pub parse_loader_output-IsLibraryPath :
    (output : Text) → All IsLibraryPath (parse_loader_output output)
unfolding parse_loader_output
parse_loader_output-IsLibraryPath output = parse_lines-IsLibraryPath (split_on 10 output)
