-- ===== src/Nri/Filesystem/Frames.antt =====
-- Which files the writes leave alone.
use podlock.Prelude.{ℕ, ◌≡◌, ◌≢◌, ◌⊎◌, inl, inr, refl, sym, ◌∙◌, subst, none, some, [], Text}
use podlock.FilePath.{dir}
use podlock.Api.{ProfileByBinary}
use podlock.Io.{Result, Io, Frame, Frame-bind, lift, ◌>>=◌}
use podlock.Nri.HostFs.{HostFs, Contents, IsLawfulFor}
use podlock.Nri.Filesystem.{reserve_path, write_profile, copy_file}

module _ (H : HostFs) (V : Contents H) where
  -- Files outside of `P` are as they were.
  abbrev pub Only : (Text → Type 0) → H.State → H.State → Type 0
  Only P s t = (q : Text) → ¬ P q → V.file t q ≡ V.file s q

  -- Files that were there are as they were, and new ones are empty.
  abbrev pub Grows : H.State → H.State → Type 0
  Grows s t =
      (q : Text) → (V.file t q ≡ V.file s q) ⊎ ((V.file s q ≡ none) × (V.file t q ≡ some []))

  pub Only-refl : (P : Text → Type 0) (s : H.State) → Only P s s
  Only-refl P s q h = refl

  pub Only-trans : (P : Text → Type 0) (s t u : H.State) → Only P s t → Only P t u → Only P s u
  Only-trans P s t u f g q h = g q h ∙ f q h

  pub Grows-refl : (s : H.State) → Grows s s
  Grows-refl s q = inl refl

  pub Grows-trans : (s t u : H.State) → Grows s t → Grows t u → Grows s u
  Grows-trans s t u f g q = elim (g q) [
    | inl same ↦ elim (f q) [
      | inl before ↦ inl (same ∙ before)
      | inr (absent, new) ↦ inr (absent, same ∙ new)
    ]
    | inr (absent, new) ↦ elim (f q) [
      | inl before ↦ inr (sym before ∙ absent, new)
      | inr (absent', new') ↦ inr (absent', new)
    ]
  ]

  module _ {Known : Text → Type 0} (L : IsLawfulFor H V Known) (P : Text → Type 0) where
    not_in : (p q : Text) → P p → ¬ P q → q ≢ p
    not_in p q h n e = n (subst P (sym e) h)

    mkdir_all-Only : (d : Text) (mode : ℕ) → Frame (Only P) (H.mkdir_all d mode)
    mkdir_all-Only d mode s q h = L.file-mkdir_all d mode s q

    open_create-Only : (p : Text) (mode : ℕ) → P p → Frame (Only P) (H.open_create p mode)
    open_create-Only p mode hp s q h = elim (L.file-open_create p mode s q) [
      | inl same ↦ same
      | inr (e, _, _) ↦ absurd (not_in p q hp h e)
    ]

    open_truncate-Only : (p : Text) (mode : ℕ) → P p → Frame (Only P) (H.open_truncate p mode)
    open_truncate-Only p mode hp s q h = L.file-open_truncate_ne p mode s q (not_in p q hp h)

    write-Only : (p c : Text) → P p → Frame (Only P) (H.write p c)
    write-Only p c hp s q h = L.file-write_ne p c s q (not_in p q hp h)

    pub bind-Only :
        {A B : Type 0} (m : Io H.State A) (f : A → Io H.State B)
        → Frame (Only P) m
        → ((a : A) → Frame (Only P) (f a))
        → Frame (Only P) (m >>= f)
    bind-Only = Frame-bind (Only P) (Only-refl P) (Only-trans P)

    -- Only the path that is reserved may change.
    pub reserve_path-Only : (p : Text) → P p → Frame (Only P) (reserve_path H p)
    unfolding reserve_path
    reserve_path-Only p h =
        bind-Only _ _
          (bind-Only _ _ (mkdir_all-Only (dir p) 0o750) (λ _. open_create-Only p 0o755 h))
          (λ _ s q n. L.file-close p s q)

    pub write_profile-Only :
        (p : Text) (encode : ProfileByBinary → Result Text) (m : ProfileByBinary)
        → P p
        → Frame (Only P) (write_profile H p encode m)
    unfolding write_profile
    write_profile-Only p encode m h =
        bind-Only _ _
          (bind-Only _ _ (mkdir_all-Only (dir p) 0o750) (λ _. open_truncate-Only p 0o644 h))
          (λ _.
            bind-Only (lift (encode m)) (H.write p) (λ s. Only-refl P s) (λ c. write-Only p c h))

    pub copy_file-Only : (src dst : Text) → P dst → Frame (Only P) (copy_file H src dst)
    unfolding copy_file
    copy_file-Only src dst h =
        bind-Only _ _ (bind-Only _ _ (mkdir_all-Only (dir dst) 0o750) (λ _ s. Only-refl P s)) (λ _.
          bind-Only _ _ (open_truncate-Only dst 0o755 h) (λ _.
            bind-Only (λ s. (H.read src s, s)) (H.write dst) (λ s. Only-refl P s)
              (λ c. write-Only dst c h)))

  -- A reservation leaves all contents as they are, and creates empty files at most.
  pub reserve_path-Grows :
      {Known : Text → Type 0} → IsLawfulFor H V Known → (p : Text) → Frame Grows (reserve_path H p)
  unfolding reserve_path
  reserve_path-Grows L p =
      Frame-bind Grows Grows-refl Grows-trans _ _
        (Frame-bind Grows Grows-refl Grows-trans _ _
          (λ s q. inl (L.file-mkdir_all (dir p) 0o750 s q))
          (λ _ s q. elim (L.file-open_create p 0o755 s q) [
            | inl same ↦ inl same
            | inr (_, absent, new) ↦ inr (absent, new)
          ]))
        (λ _ s q. inl (L.file-close p s q))
