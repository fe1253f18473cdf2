-- ===== src/Seal/Ldd/RoundTrip.antt =====
-- What is read back from the lines that a loader prints.
use mathlib.Core.List.{append_assoc}
use mathlib.Core.Path.{ap₂}
use podlock.Prelude.{
  ℕ, ◌≡◌, refl, sym, ◌∙◌, ap, true, false, none, some, List, [], ◌∷◌, ◌++◌, Text, All, codes,
  contains-append, arith, text_eq, nat_eq, if◌then◌else◌,
}
use podlock.Strings.{has_prefix, is_space, trim_space, split_on, fields, cut_arrow}
use podlock.Strings.Laws.{Lacks, split_on-append, split_on-one}
use podlock.Strings.Words.{IsWord, HasNoSpace, fields-word, trim_space-edges}
use podlock.Seal.Ldd.{
  first_path, after_arrow, parse_line, cons_some, parse_lines, parse_loader_output,
}
use podlock.Seal.Ldd.Entry.{
  Entry, resolved, loader, virtual, missing, in_parentheses, print_entry, print_output, library_of,
  libraries_of, IsToken, IsWellFormed,
}

cut_arrow-found : (s t : Text) → Lacks b'=' s → cut_arrow (s ++ (b'=' ∷ b'>' ∷ t)) ≡ some (s, t)
unfolding cut_arrow nat_eq
cut_arrow-found [] t h = refl
cut_arrow-found (c ∷ []) t h = ground (arith, cut_arrow-found [] t)
cut_arrow-found (c ∷ d ∷ s) t h = ground (arith, cut_arrow-found (d ∷ s) t)

cut_arrow-none : (s : Text) → Lacks b'=' s → cut_arrow s ≡ none
unfolding cut_arrow
cut_arrow-none [] h = refl
cut_arrow-none (c ∷ []) h = refl
cut_arrow-none (c ∷ d ∷ s) h = ground (arith, cut_arrow-none (d ∷ s))

trim_space-word :
    (a : ℕ) (w mid : Text) (d : ℕ)
    → is_space a ≡ true
    → IsWord w
    → is_space d ≡ false
    → trim_space (a ∷ (w ++ (mid ++ d ∷ []))) ≡ w ++ (mid ++ d ∷ [])
trim_space-word a [] mid d ha h hd = absurd (h.not_empty refl)
trim_space-word a (c ∷ w) mid d ha h hd =
    rw (← append_assoc w mid (d ∷ [])) (trim_space-edges a c (w ++ mid) d ha h.no_space.0 hd)

parse_line-eq :
    (a : ℕ) (w mid : Text) (d : ℕ)
    → is_space a ≡ true
    → IsWord w
    → is_space d ≡ false
    → parse_line (a ∷ (w ++ (mid ++ d ∷ [])))
      ≡ after_arrow (w ++ (mid ++ d ∷ [])) (cut_arrow (w ++ (mid ++ d ∷ [])))
unfolding parse_line
parse_line-eq a [] mid d ha h hd = absurd (h.not_empty refl)
parse_line-eq a (c ∷ w) mid d ha h hd = rw (trim_space-word a (c ∷ w) mid d ha h hd) (ground arith)

blank :
    (is_space 9 ≡ true) × (is_space b' ' ≡ true) × (is_space b')' ≡ false) × (is_space b'd' ≡ false)
unfolding is_space nat_eq
blank = (refl, refl, refl, refl)

-- The first field of a word with an address behind it.
first_path-word :
    (w rest : Text)
    → IsWord w
    → first_path (fields (w ++ (b' ' ∷ rest))) ≡ (if has_prefix w (codes "/") then some w else none)
first_path-word w rest h = rw (fields-word w b' ' rest h blank.1)

line-Lacks :
    (w address : Text)
    → IsToken w
    → IsToken address
    → Lacks b'=' (w ++ (b' ' ∷ in_parentheses address))
line-Lacks w address hw ha = ground (
  arith,
  contains-append w (b' ' ∷ in_parentheses address) b'=',
  contains-append address (codes ")") b'=',
  hw.no_arrow,
  ha.no_arrow,
)

-- A line with an address and no arrow.
parse_line-address :
    (w address : Text)
    → IsToken w
    → IsToken address
    → parse_line (9 ∷ (w ++ (b' ' ∷ in_parentheses address)))
      ≡ (if has_prefix w (codes "/") then some w else none)
parse_line-address w address hw ha =
    parse_line-eq 9 w (b' ' ∷ b'(' ∷ address) b')' blank.0 hw.word blank.2
    ∙ ap (after_arrow (w ++ (b' ' ∷ in_parentheses address)))
        (cut_arrow-none (w ++ (b' ' ∷ in_parentheses address)) (line-Lacks w address hw ha))
    ∙ first_path-word w (in_parentheses address) hw.word

-- A line with an arrow: what stands behind it is trimmed and read.
parse_line-arrow :
    (name mid : Text) (d : ℕ)
    → IsToken name
    → is_space d ≡ false
    → parse_line (9 ∷ (name ++ (codes " =>" ++ (mid ++ d ∷ []))))
      ≡ first_path (fields (trim_space (mid ++ d ∷ [])))
parse_line-arrow name mid d h hd =
    let after : Text = mid ++ d ∷ [] in
    parse_line-eq 9 name (codes " =>" ++ mid) d blank.0 h.word hd
    ∙ ap (after_arrow (name ++ (codes " =>" ++ after))) (
        ap cut_arrow (sym (append_assoc name (codes " ") (codes "=>" ++ after)))
        ∙ cut_arrow-found (name ++ codes " ") after
            (ground (arith, contains-append name (codes " ") b'=', h.no_arrow)))

not_found : first_path (fields (trim_space (codes " not found"))) ≡ none
unfolding trim_space fields has_prefix nat_eq
not_found = refl

parse_line-resolved :
    (name path address : Text)
    → IsToken name
    → IsWord path
    → parse_line (print_entry (resolved name path address))
      ≡ (if has_prefix path (codes "/") then some path else none)
parse_line-resolved name path address hn hp =
    let opened : Text = b' ' ∷ b'(' ∷ address in
    let e = append_assoc path opened (codes ")") in
    ap (λ (t : Text). parse_line (9 ∷ (name ++ (codes " => " ++ t)))) (sym e)
    ∙ parse_line-arrow name (codes " " ++ (path ++ opened)) b')' hn blank.2
    ∙ ap (λ (t : Text). first_path (fields (trim_space (codes " " ++ t)))) e
    ∙ ap (λ (t : Text). first_path (fields t))
        (trim_space-word b' ' path opened b')' blank.1 hp blank.2)
    ∙ first_path-word path (in_parentheses address) hp

parse_line-print_entry : (e : Entry) → IsWellFormed e → parse_line (print_entry e) ≡ library_of e
parse_line-print_entry (resolved name path address) h =
    parse_line-resolved name path address h.0 h.1 ∙ rw h.2
parse_line-print_entry (loader path address) h = parse_line-address path address h.0 h.2 ∙ rw h.1
parse_line-print_entry (virtual name address) h = parse_line-address name address h.0 h.2 ∙ rw h.1
parse_line-print_entry (missing name) h =
    parse_line-arrow name (codes " not foun") b'd' h blank.3 ∙ not_found

word-Lacks : (w : Text) → HasNoSpace w → Lacks 10 w
unfolding is_space
word-Lacks [] h = refl
word-Lacks (c ∷ w) h = ground (arith, word-Lacks w)

address_line-Lacks :
    (w address : Text)
    → IsToken w
    → IsToken address
    → Lacks 10 (9 ∷ (w ++ (b' ' ∷ in_parentheses address)))
address_line-Lacks w address hw ha = ground (
  arith,
  contains-append w (b' ' ∷ in_parentheses address) 10,
  contains-append address (codes ")") 10,
  word-Lacks w hw.word.no_space,
  word-Lacks address ha.word.no_space,
)

-- The line of an entry holds no line break.
print_entry-Lacks : (e : Entry) → IsWellFormed e → Lacks 10 (print_entry e)
print_entry-Lacks (resolved name path address) h = ground (
  arith,
  contains-append name (codes " => " ++ (path ++ (b' ' ∷ in_parentheses address))) 10,
  contains-append path (b' ' ∷ in_parentheses address) 10,
  contains-append address (codes ")") 10,
  word-Lacks name h.0.word.no_space,
  word-Lacks path h.1.no_space,
  word-Lacks address h.3.word.no_space,
)
print_entry-Lacks (loader path address) h = address_line-Lacks path address h.0 h.2
print_entry-Lacks (virtual name address) h = address_line-Lacks name address h.0 h.2
print_entry-Lacks (missing name) h =
    ground (arith, contains-append name (codes " => not found") 10, word-Lacks name h.word.no_space)

parse_lines-cons :
    (raw : Text) (rest : List Text)
    → parse_lines (raw ∷ rest) ≡ cons_some (parse_line raw) (parse_lines rest)
unfolding parse_lines
parse_lines-cons raw rest = refl

parse_nothing : parse_loader_output [] ≡ []
unfolding parse_loader_output parse_lines parse_line split_on trim_space text_eq
parse_nothing = refl

-- If all parts of the entries are words without white space, with no `=` but in the path after an
-- arrow, and that path and the one of the loader start with `/`, and the name of a virtual library
-- does not, then the parser reads back, in order, exactly the paths that a loader has found: of
-- lines `name => path (address)` and `path (address)` the path, and nothing of `name (address)` or
-- `name => not found`.
pub parse-print_output :
    (es : List Entry)
    → All IsWellFormed es
    → parse_loader_output (print_output es) ≡ libraries_of es
unfolding parse_loader_output
parse-print_output [] h = parse_nothing
parse-print_output (e ∷ es) h =
    ap parse_lines (split_on-append 10 (print_entry e) (print_output es))
    ∙ ap (λ (ws : List Text). parse_lines (ws ++ split_on 10 (print_output es)))
        (split_on-one 10 (print_entry e) (print_entry-Lacks e h.0))
    ∙ parse_lines-cons (print_entry e) (split_on 10 (print_output es))
    ∙ ap₂ cons_some (parse_line-print_entry e h.0) (parse-print_output es h.1)
