-- ===== src/OciHook/Mounts.antt =====
-- What the binary and its backup are after performOverMounts.
use podlock.Prelude.{◌≡◌, ◌≢◌, refl, sym, ◌∙◌, ap, some, Text, codes}
use podlock.Io.{
  Result, ok, err, Io, continue, Frame, Frame-bind, bind-Ran, wrap, wrap_result, wrap_result-ok,
  ◌>>=◌,
}
use podlock.OciHook.{deferred, move_mounts, swap_target, perform_over_mounts}
use podlock.OciHook.Syscalls.{Kernel, View, IsLawful}
use podlock.Nri.Paths.{seal_binary_path_container}

module _ (K : Kernel) (V : View K) (L : IsLawful K V) where
  -- Both mounts are made: what was below the two descriptors is at the two paths.
  move_mounts-ok :
      (seal_fd target_fd : K.Fd) (target backup : Text) (s : K.State)
      → target ≢ backup
      → (move_mounts K seal_fd target_fd target backup s).0 ≡ ok tt
      → let t = (move_mounts K seal_fd target_fd target backup s).1 in
        (V.at t target ≡ V.tree s seal_fd) × (V.at t backup ≡ V.tree s target_fd)
  unfolding move_mounts
  move_mounts-ok seal_fd target_fd target backup s apart h =
      let ran = bind-Ran _ _ s tt h in
      let first = wrap_result-ok (codes "move_mount failed for backup") _ tt ran.first in
      let second = wrap_result-ok (codes "move_mount failed for target") _ tt ran.second in
      let between = (K.move_mount target_fd backup s).1 in
      (
        ap (λ (t : K.State). V.at t target) ran.last
            ∙ L.at-move_mount seal_fd target between second
            ∙ L.tree-move_mount target_fd backup s seal_fd,
        ap (λ (t : K.State). V.at t backup) ran.last
            ∙ L.at-move_mount_ne seal_fd target between backup (λ e. apart (sym e))
            ∙ L.at-move_mount target_fd backup s first,
      )

  -- The binary is where the hook was told to keep it, and the seal is in its place.
  pub record IsSwapped (s t : K.State) (target backup : Text) : Type 0 where
    pub original : V.File
    pub there : V.at s target ≡ some original
    pub kept : V.at t backup ≡ some original
    pub sealed : V.at t target ≡ V.at s seal_binary_path_container

  -- If the target and the backup differ and the hook succeeds, the backup is the binary that the
  -- target was, and the target is the seal.
  pub perform_over_mounts-IsSwapped :
      (target backup : Text) (s : K.State)
      → target ≢ backup
      → (perform_over_mounts K target backup s).0 ≡ ok tt
      → IsSwapped s (perform_over_mounts K target backup s).1 target backup
  unfolding perform_over_mounts swap_target
  perform_over_mounts-IsSwapped target backup s apart h =
      let outer = bind-Ran _ _ s tt h in
      let seal_fd = outer.value in
      let opened = (K.open_tree seal_binary_path_container s).1 in
      let seal_open =
        wrap_result-ok (codes "open_tree failed for seal binary") _ seal_fd outer.first in
      let inner =
        bind-Ran (wrap (codes "open_tree failed for target") (K.open_tree target))
          (λ fd. deferred K fd (move_mounts K seal_fd fd target backup)) opened tt outer.second in
      let target_fd = inner.value in
      let target_open =
        wrap_result-ok (codes "open_tree failed for target") _ target_fd inner.first in
      let both = (K.open_tree target opened).1 in
      let mounted = move_mounts-ok seal_fd target_fd target backup both apart inner.second in
      let at_end = λ (q : Text).
        ap (λ (t : K.State). V.at t q) outer.last
        ∙ L.at-close seal_fd _ q
        ∙ ap (λ (t : K.State). V.at t q) inner.last
        ∙ L.at-close target_fd _ q in
      let (original, at_original) = L.open_tree-there target opened target_fd target_open in
      let (seal, at_seal) = L.open_tree-there seal_binary_path_container s seal_fd seal_open in
      record {
        original = original;
        there = sym (L.at-open_tree seal_binary_path_container s target) ∙ at_original;
        kept =
            at_end backup
            ∙ mounted.1
            ∙ L.tree-open_tree target opened target_fd target_open
            ∙ at_original;
        sealed =
            at_end target
            ∙ mounted.0
            ∙ L.tree-open_tree_ne target opened seal_fd seal
                (L.tree-open_tree seal_binary_path_container s seal_fd seal_open ∙ at_seal)
            ∙ sym at_seal;
      }

  -- All paths but the two are as they were.
  abbrev pub Elsewhere : Text → Text → K.State → K.State → Type 0
  Elsewhere target backup s t = (q : Text) → q ≢ target → q ≢ backup → V.at t q ≡ V.at s q

  Elsewhere-bind :
      (target backup : Text) {A B : Type 0} (m : Io K.State A) (f : A → Io K.State B)
      → Frame (Elsewhere target backup) m
      → ((a : A) → Frame (Elsewhere target backup) (f a))
      → Frame (Elsewhere target backup) (m >>= f)
  Elsewhere-bind target backup =
      Frame-bind (Elsewhere target backup) (λ s q n k. refl) (λ s t u h k q n m. k q n m ∙ h q n m)

  Elsewhere-deferred :
      (target backup : Text) {A : Type 0} (fd : K.Fd) (m : Io K.State A)
      → Frame (Elsewhere target backup) m
      → Frame (Elsewhere target backup) (deferred K fd m)
  Elsewhere-deferred target backup fd m h s q n k = L.at-close fd _ q ∙ h s q n k

  move_mounts-Elsewhere :
      (seal_fd target_fd : K.Fd) (target backup : Text)
      → Frame (Elsewhere target backup) (move_mounts K seal_fd target_fd target backup)
  unfolding move_mounts
  move_mounts-Elsewhere seal_fd target_fd target backup =
      Elsewhere-bind target backup _ _ (λ s q n k. L.at-move_mount_ne target_fd backup s q k)
        (λ _ s q n k. L.at-move_mount_ne seal_fd target s q n)

  swap_target-Elsewhere :
      (seal_fd : K.Fd) (target backup : Text)
      → Frame (Elsewhere target backup) (swap_target K seal_fd target backup)
  unfolding swap_target
  swap_target-Elsewhere seal_fd target backup =
      Elsewhere-bind target backup _ _ (λ s q n k. L.at-open_tree target s q)
        (λ target_fd.
          Elsewhere-deferred target backup target_fd (move_mounts K seal_fd target_fd target backup)
            (move_mounts-Elsewhere seal_fd target_fd target backup))

  -- Whether the hook succeeds or not, it changes no path but the target and the backup.
  pub perform_over_mounts-Elsewhere :
      (target backup : Text) → Frame (Elsewhere target backup) (perform_over_mounts K target backup)
  unfolding perform_over_mounts
  perform_over_mounts-Elsewhere target backup =
      Elsewhere-bind target backup _ _ (λ s q n k. L.at-open_tree seal_binary_path_container s q)
        (λ seal_fd.
          Elsewhere-deferred target backup seal_fd (swap_target K seal_fd target backup)
            (swap_target-Elsewhere seal_fd target backup))

  -- If there is an error, the file at the path is the one that it was.
  abbrev pub KeptOnError : {A : Type 0} → Text → K.State → Result A → K.State → Type 0
  KeptOnError p s (ok a) t = Unit
  KeptOnError p s (err e) t = V.at t p ≡ V.at s p

  abbrev Keeps : {A : Type 0} → Text → Io K.State A → Type 0
  Keeps p m = (s : K.State) → KeptOnError p s (m s).0 (m s).1

  KeptOnError-before :
      (p : Text) {A : Type 0} (s t : K.State) (r : Result A) (u : K.State)
      → V.at t p ≡ V.at s p
      → KeptOnError p t r u
      → KeptOnError p s r u
  KeptOnError-before p s t (ok a) u same h = tt
  KeptOnError-before p s t (err e) u same h = h ∙ same

  continue-Keeps :
      (p : Text) {A B : Type 0} (r : Result A) (f : A → Io K.State B) (s t : K.State)
      → V.at t p ≡ V.at s p
      → ((a : A) → Keeps p (f a))
      → KeptOnError p s (continue r f t).0 (continue r f t).1
  continue-Keeps p (err e) f s t same h = same
  continue-Keeps p (ok a) f s t same h = KeptOnError-before p s t (f a t).0 (f a t).1 same (h a t)

  Keeps-bind :
      (p : Text) {A B : Type 0} (m : Io K.State A) (f : A → Io K.State B)
      → ((s : K.State) → V.at (m s).1 p ≡ V.at s p)
      → ((a : A) → Keeps p (f a))
      → Keeps p (m >>= f)
  unfolding ◌>>=◌
  Keeps-bind p m f same h s = continue-Keeps p (m s).0 f s (m s).1 (same s) h

  KeptOnError-close :
      (p : Text) {A : Type 0} (s t : K.State) (fd : K.Fd) (r : Result A)
      → KeptOnError p s r t
      → KeptOnError p s r (K.close fd t)
  KeptOnError-close p s t fd (ok a) h = tt
  KeptOnError-close p s t fd (err e) h = L.at-close fd t p ∙ h

  Keeps-deferred :
      (p : Text) {A : Type 0} (fd : K.Fd) (m : Io K.State A) → Keeps p m → Keeps p (deferred K fd m)
  Keeps-deferred p fd m h s = KeptOnError-close p s (m s).1 fd (m s).0 (h s)

  move_mount-Keeps :
      (fd : K.Fd) (p : Text) (message : Text) (s : K.State) (r : Result (Unit {0}))
      → (K.move_mount fd p s).0 ≡ r
      → KeptOnError p s (wrap_result message r) (K.move_mount fd p s).1
  move_mount-Keeps fd p message s (ok _) h = tt
  move_mount-Keeps fd p message s (err e) h = L.at-move_mount_err fd p s e p h

  -- If the target and the backup differ, then whenever the hook fails, whichever call failed, the
  -- target is still what it was.
  pub perform_over_mounts-KeptOnError :
      (target backup : Text) (s : K.State)
      → target ≢ backup
      → KeptOnError target s
          (perform_over_mounts K target backup s).0
          (perform_over_mounts K target backup s).1
  unfolding perform_over_mounts swap_target move_mounts
  perform_over_mounts-KeptOnError target backup s apart =
      Keeps-bind target _ _ (λ t. L.at-open_tree seal_binary_path_container t target)
        (λ seal_fd. Keeps-deferred target seal_fd _ (
          Keeps-bind target _ _ (λ t. L.at-open_tree target t target)
            (λ target_fd. Keeps-deferred target target_fd _ (
              Keeps-bind target _ _ (λ t. L.at-move_mount_ne target_fd backup t target apart)
                (λ _ t.
                  move_mount-Keeps seal_fd target (codes "move_mount failed for target") t _
                    refl)))))
        s
