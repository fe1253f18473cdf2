-- ===== src/Nri/Filesystem/Reserve.antt =====
-- A successful reservation has a file for each binary, and a profile that was written is there.
use podlock.Prelude.{◌≡◌, ◌≢◌, inl, inr, sym, ◌∙◌, ap, subst, none, some, [], ◌∷◌, Text, codes, All}
use podlock.FilePath.{dir}
use podlock.Api.{ProfileByBinary}
pub use podlock.Io.{wrap_result-ok}
use podlock.Io.{Result, ok, Frame, Frame-bind, bind-Ran, lift}
use podlock.Nri.HostFs.{HostFs, Contents, IsLawfulFor}
use podlock.Nri.Paths.{swapped_binary_path_on_host}
use podlock.Nri.Filesystem.{at_path, reserve_path, reserve_swapped_binaries, write_profile}
use podlock.Nri.Filesystem.Frames.{Grows, Grows-refl, Grows-trans, reserve_path-Grows}

module _ (H : HostFs) (V : Contents H) {Known : Text → Type 0} (L : IsLawfulFor H V Known) where
  there-Grows : (s t : H.State) (p : Text) → Grows H V s t → V.file s p ≢ none → V.file t p ≢ none
  there-Grows s t p g h e = elim (g p) [
    | inl same ↦ h (sym same ∙ e)
    | inr (absent, new) ↦ h absent
  ]

  reserve_path-there :
      (p : Text) (s : H.State)
      → Known p
      → (reserve_path H p s).0 ≡ ok tt
      → V.file (reserve_path H p s).1 p ≢ none
  unfolding reserve_path
  reserve_path-there p s known h =
      let closed = bind-Ran _ _ s tt h in
      let opened = bind-Ran _ _ s tt closed.first in
      let made = (H.mkdir_all (dir p) 0o750 s).1 in
      let there = L.open_create-ok p 0o755 made known (
        wrap_result-ok (at_path (codes "failed to create empty file for swapped binary") p) _ tt
          opened.second) in
      subst (λ (t : H.State). V.file t p ≢ none) (sym closed.last)
        (λ e.
          there (ap (λ (t : H.State). V.file t p) (sym opened.last) ∙ sym (L.file-close p _ p) ∙ e))

  -- The files that the loop reserves.
  abbrev pub AreReserved : H.State → Text → Text → ProfileByBinary → Type 0
  AreReserved t pod_id container_name =
      All (λ e. V.file t (swapped_binary_path_on_host pod_id container_name e.0) ≢ none)

  -- Whether it succeeds or not, a reservation leaves the contents of all files as they are and
  -- creates empty ones at most.
  pub reserve_swapped_binaries-Grows :
      (pod_id container_name : Text) (m : ProfileByBinary)
      → Frame (Grows H V) (reserve_swapped_binaries H pod_id container_name m)
  unfolding reserve_swapped_binaries
  reserve_swapped_binaries-Grows p c [] = Grows-refl H V
  reserve_swapped_binaries-Grows p c ((b, _) ∷ m) =
      Frame-bind (Grows H V) (Grows-refl H V) (Grows-trans H V) _ _
        (reserve_path-Grows H V L (swapped_binary_path_on_host p c b))
        (λ _. reserve_swapped_binaries-Grows p c m)

  -- The contents of these files are known.
  abbrev pub AreKnown : Text → Text → ProfileByBinary → Type 0
  AreKnown pod_id container_name =
      All (λ e. Known (swapped_binary_path_on_host pod_id container_name e.0))

  -- If the reservation succeeds, each binary of the profile has its file.
  pub reserve_swapped_binaries-AreReserved :
      (pod_id container_name : Text) (m : ProfileByBinary) (s : H.State)
      → AreKnown pod_id container_name m
      → (reserve_swapped_binaries H pod_id container_name m s).0 ≡ ok tt
      → AreReserved (reserve_swapped_binaries H pod_id container_name m s).1 pod_id container_name m
  unfolding reserve_swapped_binaries
  reserve_swapped_binaries-AreReserved p c [] s known h = tt
  reserve_swapped_binaries-AreReserved p c ((b, profile) ∷ m) s known h =
      let path = swapped_binary_path_on_host p c b in
      let ran = bind-Ran (reserve_path H path) _ s tt h in
      let t = (reserve_path H path s).1 in
      subst (λ (u : H.State). AreReserved u p c ((b, profile) ∷ m)) (sym ran.last)
        (
          there-Grows t _ path (reserve_swapped_binaries-Grows p c m t)
              (reserve_path-there path s known.0 ran.first),
          reserve_swapped_binaries-AreReserved p c m t known.1 ran.second,
        )

  pub write_profile-ok :
      (p : Text) (encode : ProfileByBinary → Result Text) (m : ProfileByBinary) (s : H.State)
      → Known p
      → (write_profile H p encode m s).0 ≡ ok tt
      → (c : Text) × (encode m ≡ ok c) × (V.file (write_profile H p encode m s).1 p ≡ some c)
  unfolding write_profile
  write_profile-ok p encode m s known h =
      let done = bind-Ran _ _ s tt h in
      let opened = bind-Ran _ _ s tt done.first in
      let wrote = bind-Ran (lift (encode m)) (H.write p) _ tt (
        wrap_result-ok (at_path (codes "failed to write landlock profile JSON to file") p) _ tt
          done.second) in
      let made = (H.mkdir_all (dir p) 0o750 s).1 in
      let truncated = L.open_truncate-ok p 0o644 made known (
        wrap_result-ok (at_path (codes "failed to create landlock profile file") p) _ tt
          opened.second) in
      let written =
        subst (λ (t : H.State). (H.write p wrote.value t).0 ≡ ok tt) opened.last wrote.second in
      (
        wrote.value,
        wrote.first,
        ap (λ (t : H.State). V.file t p)
              (done.last
                ∙ wrote.last
                ∙ ap (λ (t : H.State). (H.write p wrote.value t).1) opened.last)
            ∙ L.file-write p wrote.value _ known truncated written,
      )
