-- ===== src/Seal/Ldd/Libraries.antt =====
-- What the discovery of the linked libraries returns.
use podlock.Prelude.{
  ◌≡◌, ◌⊎◌, inl, inr, sym, ap, ◌∙◌, List, [], ◌∷◌, Text, All, arith, text_eq, subst,
}
use podlock.Fallible.{>>=-eq-ok, ok, ◌>>=◌}
use podlock.Seal.Ldd.{
  detect_file_type, file_type_elf, ElfClass, System, find_ld_so_bin, loader_argv, list_libraries,
  discover_by_type, discover_linked_libraries, parse_loader_output,
}
use podlock.Seal.Ldd.Output.{IsLibraryPath, parse_loader_output-IsLibraryPath}

module _ (sys : System) (binary : Text) where
  -- The loader of the class was run on the binary, and printed these libraries.
  pub record Listed (libs : List Text) : Type 0 where
    pub elf_class : ElfClass
    pub output : Text
    pub class_read : sys.elf_class binary ≡ ok elf_class
    pub ran :
        let solver = find_ld_so_bin elf_class [] sys.glob in
        sys.run solver (loader_argv solver binary) ≡ ok output
    pub parsed : libs ≡ parse_loader_output output

  list_libraries-cases :
      (elf_class : ElfClass) (imported libs : List Text)
      → sys.elf_class binary ≡ ok elf_class
      → list_libraries sys binary elf_class imported ≡ ok libs
      → (libs ≡ []) ⊎ Listed libs
  unfolding list_libraries
  list_libraries-cases elf_class [] libs c h = inl (cc)
  list_libraries-cases elf_class (x ∷ xs) libs c h =
      let solver = find_ld_so_bin elf_class [] sys.glob in
      let (output, ran, parsed) =
        >>=-eq-ok (sys.run solver (loader_argv solver binary)) (λ o. ok (parse_loader_output o))
          libs h in
      inr
        (record { elf_class = elf_class; output = output; class_read = c; ran = ran; parsed = cc })

  discover_by_type-cases :
      (file_type : Text) (libs : List Text)
      → discover_by_type sys binary file_type ≡ ok libs
      → (libs ≡ []) ⊎ ((file_type ≡ file_type_elf) × Listed libs)
  unfolding discover_by_type
  discover_by_type-cases file_type libs h = elim (text_eq.dec file_type file_type_elf) [
    | no other ↦ inl (ground arith)
    | yes elf ↦
        let imports =
          λ (c : ElfClass). sys.imported_libraries binary >>= list_libraries sys binary c in
        let h' : (sys.elf_class binary >>= imports) ≡ ok libs = ground arith in
        let (c, class_read, rest) = >>=-eq-ok (sys.elf_class binary) imports libs h' in
        let (imported, _, listed) =
          >>=-eq-ok (sys.imported_libraries binary) (list_libraries sys binary c) libs rest in
        elim (list_libraries-cases c imported libs class_read listed) [
          | inl none_listed ↦ inl none_listed
          | inr l ↦ inr (elf, l)
        ]
  ]

  -- If the discovery succeeds, it returns no libraries, or the file is an ELF binary whose class was
  -- read, the loader found for that class was run on it without an error, and the result is what was
  -- parsed from its output. Each library is one word that starts with `/`.
  pub discover_linked_libraries_lem :
      (libs : List Text)
      → discover_linked_libraries sys binary ≡ ok libs
      → ((libs ≡ []) ⊎ ((detect_file_type (sys.magic binary) ≡ ok file_type_elf) × Listed libs))
        × All IsLibraryPath libs
  unfolding discover_linked_libraries
  discover_linked_libraries_lem libs h =
      let (file_type, detected, rest) =
        >>=-eq-ok (detect_file_type (sys.magic binary)) (discover_by_type sys binary) libs h in
      elim (discover_by_type-cases file_type libs rest) [
        | inl e ↦ (inl e, subst (All IsLibraryPath) (sym e) tt)
        | inr (elf, l) ↦ (
          inr (detected ∙ ap ok elf, l),
          subst (All IsLibraryPath) (sym l.parsed) (parse_loader_output-IsLibraryPath l.output),
        )
      ]
