-- ===== src/Seal/Ldd/Discover.antt =====
-- When the loader is run, and which loader.
use podlock.Prelude.{
  ℕ, ◌≡◌, ◌⊎◌, inl, inr, ◌↔◌, refl, ap, sym, subst, true, List, [], ◌∷◌, ◌++◌, Text, All, codes,
  arith, text_eq, nat_eq,
}
use podlock.Fallible.{Result, ok, err}
use podlock.Strings.{has_prefix}
use podlock.Seal.Ldd.{read, file_type_elf, file_type_script, detect_file_type, first_match}

-- A file is found to be an ELF binary exactly if its first bytes start with the four bytes of the
-- magic number, and a script exactly if they start with `#!`.
pub detect_file_type_lem :
    (magic : List ℕ)
    → ((detect_file_type (read magic) ≡ ok file_type_elf)
        ↔ (has_prefix magic (0x7F ∷ codes "ELF") ≡ true))
      × ((detect_file_type (read magic) ≡ ok file_type_script)
          ↔ (has_prefix magic (codes "#!") ≡ true))
unfolding detect_file_type has_prefix
detect_file_type_lem [] = ground arith
detect_file_type_lem (a ∷ []) = ground arith
detect_file_type_lem (a ∷ b ∷ []) = ground arith
detect_file_type_lem (a ∷ b ∷ c ∷ []) = ground arith
detect_file_type_lem (a ∷ b ∷ c ∷ d ∷ rest) = ground arith

module _ (glob : Text → Result (List Text)) where
  -- A pattern that matches no file, or that cannot be read.
  abbrev pub MatchesNone : Text → Type 0
  MatchesNone p = (glob p ≡ ok []) ⊎ ((e : Text) × (glob p ≡ err e))

  pub record FirstMatch (patterns : List Text) (file : Text) : Type 0 where
    pub before : List Text
    pub pattern_ : Text
    pub after : List Text
    pub others : List Text
    pub whole : patterns ≡ before ++ (pattern_ ∷ after)
    pub skipped : All MatchesNone before
    pub found : glob pattern_ ≡ ok (file ∷ others)

  later-FirstMatch :
      (p : Text) (ps : List Text) (file : Text)
      → MatchesNone p
      → FirstMatch ps file
      → FirstMatch (p ∷ ps) file
  later-FirstMatch p ps file h m = record {
    before = p ∷ m.before;
    pattern_ = m.pattern_;
    after = m.after;
    others = m.others;
    whole = ap (λ (xs : List Text). p ∷ xs) m.whole;
    skipped = (h, m.skipped);
    found = m.found;
  }

  abbrev pub Finds : List Text → Text → Type 0
  Finds ps file = (All MatchesNone ps × (file ≡ [])) ⊎ FirstMatch ps file

  later :
      (p : Text) (ps : List Text) (file : Text)
      → MatchesNone p
      → Finds ps file
      → Finds (p ∷ ps) file
  later p ps file h (inl (skipped, e)) = inl ((h, skipped), e)
  later p ps file h (inr m) = inr (later-FirstMatch p ps file h m)

  first_match-skip :
      (p : Text) (ps : List Text) → MatchesNone p → first_match glob (p ∷ ps) ≡ first_match glob ps
  unfolding first_match
  first_match-skip p ps (inl h) = ground arith
  first_match-skip p ps (inr (e, h)) = ground arith

  first_match-take :
      (p : Text) (ps : List Text) (f : Text) (fs : List Text)
      → glob p ≡ ok (f ∷ fs)
      → first_match glob (p ∷ ps) ≡ f
  unfolding first_match
  first_match-take p ps f fs h = ground arith

  first_match-Finds :
      (p : Text) (ps : List Text) (o : Result (List Text))
      → glob p ≡ o
      → Finds ps (first_match glob ps)
      → Finds (p ∷ ps) (first_match glob (p ∷ ps))
  first_match-Finds p ps (err e) h m =
      subst (λ (f : Text). Finds (p ∷ ps) f) (sym (first_match-skip p ps (inr (e, h))))
        (later p ps (first_match glob ps) (inr (e, h)) m)
  first_match-Finds p ps (ok []) h m =
      subst (λ (f : Text). Finds (p ∷ ps) f) (sym (first_match-skip p ps (inl h)))
        (later p ps (first_match glob ps) (inl h) m)
  first_match-Finds p ps (ok (f ∷ fs)) h m =
      subst (λ (x : Text). Finds (p ∷ ps) x) (sym (first_match-take p ps f fs h))
        (inr (record {
          before = [];
          pattern_ = p;
          after = ps;
          others = fs;
          whole = refl;
          skipped = tt;
          found = h;
        }))

  -- The file found is the first one of the first pattern that matches anything; it is empty if no
  -- pattern does.
  pub first_match_lem : (ps : List Text) → Finds ps (first_match glob ps)
  first_match_lem [] = inl (tt, unfold first_match in refl)
  first_match_lem (p ∷ ps) = first_match-Finds p ps (glob p) refl (first_match_lem ps)
