-- ===== src/Nri/Shared.antt =====
-- The host while others act on it: before each call of ours that changes the file system, other
-- programs and other handlers do something.
use podlock.Prelude.{
  ℕ, ◌+◌, ◌≡◌, ◌⊎◌, inl, inr, refl, sym, ◌∙◌, ap, Bool, true, false, Option, none, some, [], Text,
  if◌then◌else◌,
}
use podlock.Io.{Io}
use podlock.Nri.HostFs.{HostFs, Contents, IsLawful, IsLawfulFor}

module _ (H : HostFs) (acts : ℕ → H.State → H.State) where
  abbrev turn : {A : Type 0} → Io H.State A → Io (H.State × ℕ) A
  turn m s = let (r, t) = m (acts s.1 s.0) in (r, (t, s.1 + 1))

  -- The state counts the calls, and `acts` has what happens before each of them.
  abbrev pub shared : HostFs
  shared = record {
    State = H.State × ℕ;
    open_file = λ p s. H.open_file p s.0;
    read = λ p s. H.read p s.0;
    mkdir_all = λ d mode. turn (H.mkdir_all d mode);
    open_create = λ p mode. turn (H.open_create p mode);
    open_truncate = λ p mode. turn (H.open_truncate p mode);
    write = λ p c. turn (H.write p c);
    close = λ p. turn (H.close p);
    remove_all = λ d. turn (H.remove_all d);
  }

abbrev pub view : Bool → Option Text → Option Text
view own c = if own then c else none

view-own : (own : Bool) (c : Option Text) → own ≡ true → view own c ≡ c
view-own true c h = refl
view-own false c h = absurd (cc)

view-none : (own : Bool) → view own none ≡ none
view-none true = refl
view-none false = refl

view-some : (own : Bool) (c : Option Text) (d : Text) → view own c ≡ some d → c ≡ some d
view-some true c d h = h
view-some false c d h = absurd (cc)

view-same : (own : Bool) (c d : Option Text) → (own ≡ true → c ≡ d) → view own c ≡ view own d
view-same true c d h = h refl
view-same false c d h = refl

view-created :
    (own : Bool) (c d : Option Text) {P : Type 0}
    → (own ≡ true → (d ≡ c) ⊎ (P × (c ≡ none) × (d ≡ some [])))
    → (view own d ≡ view own c) ⊎ (P × (view own c ≡ none) × (view own d ≡ some []))
view-created true c d h = h refl
view-created false c d h = inl refl

module _ (H : HostFs) (V : Contents H) (L : IsLawful H V) (own : Text → Bool)
    (acts : ℕ → H.State → H.State)
    (spare : (n : ℕ) (s : H.State) (x : Text)
      → own x ≡ true
      → V.file (acts n s) x ≡ V.file s x) where
  -- The files that the others leave alone; the rest is not known.
  abbrev pub own_contents : Contents (shared H acts)
  own_contents = record { file = λ s x. view (own x) (V.file s.0 x) }

  -- For these the calls do what they do without the others.
  pub shared-IsLawful : IsLawfulFor (shared H acts) own_contents (λ x. own x ≡ true)
  shared-IsLawful = record {
    read-ok = λ p s c known h. view-own _ _ known ∙ L.read-ok p s.0 c tt h;
    file-mkdir_all = λ d mode s p.
        view-same _ _ _ (λ e. L.file-mkdir_all d mode (acts s.1 s.0) p ∙ spare s.1 s.0 p e);
    file-open_create = λ p mode s q. view-created _ _ _ (λ e.
        elim (L.file-open_create p mode (acts s.1 s.0) q) [
          | inl same ↦ inl (same ∙ spare s.1 s.0 q e)
          | inr (at, absent, new) ↦ inr (at, sym (spare s.1 s.0 q e) ∙ absent, new)
        ]);
    open_create-ok = λ p mode s known h gone.
        L.open_create-ok p mode (acts s.1 s.0) tt h (sym (view-own _ _ known) ∙ gone);
    open_truncate-ok =
        λ p mode s known h. view-own _ _ known ∙ L.open_truncate-ok p mode (acts s.1 s.0) tt h;
    file-open_truncate_ne = λ p mode s q other.
        view-same _ _ _
          (λ e. L.file-open_truncate_ne p mode (acts s.1 s.0) q other ∙ spare s.1 s.0 q e);
    file-write_ne = λ p c s q other.
        view-same _ _ _ (λ e. L.file-write_ne p c (acts s.1 s.0) q other ∙ spare s.1 s.0 q e);
    file-write = λ p c s known empty h.
        view-own _ _ known
        ∙ L.file-write p c (acts s.1 s.0) tt
            (spare s.1 s.0 p known ∙ sym (view-own _ _ known) ∙ empty) h;
    file-close =
        λ p s q. view-same _ _ _ (λ e. L.file-close p (acts s.1 s.0) q ∙ spare s.1 s.0 q e);
    file-remove_all = λ d s p h below.
        view-same _ _ none (λ e. L.file-remove_all d (acts s.1 s.0) p h below) ∙ view-none _;
    file-remove_all_ne = λ d s p apart.
        view-same _ _ _ (λ e. L.file-remove_all_ne d (acts s.1 s.0) p apart ∙ spare s.1 s.0 p e);
  }

  -- What is known of a file of ours holds on the host.
  pub own_contents-there :
      (s : H.State × ℕ) (x c : Text) → own_contents.file s x ≡ some c → V.file s.0 x ≡ some c
  own_contents-there s x c h = view-some (own x) (V.file s.0 x) c h

  pub own_contents-none :
      (s : H.State × ℕ) (x : Text) → V.file s.0 x ≡ none → own_contents.file s x ≡ none
  own_contents-none s x h = ap (view (own x)) h ∙ view-none (own x)
