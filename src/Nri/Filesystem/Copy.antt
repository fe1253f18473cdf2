-- ===== src/Nri/Filesystem/Copy.antt =====
-- CopyFileIfDifferent leaves the contents of the source at the destination.
use podlock.Prelude.{
  ◌≡◌, ◌≢◌, ◌⊎◌, refl, sym, ◌∙◌, ap, Bool, true, false, some, [], Text, codes, ◌==◌, text_eq, arith,
  inl, inr, if◌then◌else◌,
}
use podlock.FilePath.{dir}
use podlock.Io.{Result, ok, err, Frame, bind-Ran, pure}
use podlock.Nri.HostFs.{HostFs, Contents, IsLawful}
use podlock.Nri.Filesystem.{
  at_path, file_sha256, digest_of, or_missing, write_copy, copy_file, copy_file_if_different,
}
use podlock.Nri.Filesystem.Frames.{Only, Only-refl, bind-Only, copy_file-Only}
use podlock.Nri.Filesystem.Reserve.{wrap_result-ok}

module _ (H : HostFs) (V : Contents H) (L : IsLawful H V) (sha256 : Text → Text) where
  -- The sum of a file is that of its contents.
  digest_of-ok :
      (p : Text) (s : H.State) (o : Result (Unit {0})) (r : Result Text) (sum : Text)
      → H.read p s ≡ r
      → digest_of sha256 p o r ≡ ok sum
      → (c : Text) × (V.file s p ≡ some c) × (sha256 c ≡ sum)
  digest_of-ok p s (ok _) (ok c) sum e h = (c, L.read-ok p s c tt e, cc)
  digest_of-ok p s (ok _) (err x) sum e h = absurd (cc)
  digest_of-ok p s (err x) r sum e h = absurd (cc)

  or_missing-ok : (r : Result Text) (sum : Text) → or_missing r ≡ ok sum → sum ≢ [] → r ≡ ok sum
  or_missing-ok (ok a) sum h n = h
  or_missing-ok (err e) sum h n = absurd (ground arith)

  file_sha256-ok :
      (p : Text) (s : H.State) (sum : Text)
      → file_sha256 H sha256 p s ≡ ok sum
      → (c : Text) × (V.file s p ≡ some c) × (sha256 c ≡ sum)
  unfolding file_sha256
  file_sha256-ok p s sum h = digest_of-ok p s (H.open_file p s) (H.read p s) sum refl h

  write_copy-ok :
      (src dst : Text) (s : H.State)
      → src ≢ dst
      → (write_copy H src dst s).0 ≡ ok tt
      → (c : Text) × (V.file s src ≡ some c) × (V.file (write_copy H src dst s).1 dst ≡ some c)
  unfolding write_copy
  write_copy-ok src dst s apart h =
      let ran = bind-Ran _ _ s tt h in
      let opened = (H.open_truncate dst 0o755 s).1 in
      let copied =
        bind-Ran (λ t. (H.read src t, t)) (H.write dst) opened tt
          (wrap_result-ok (codes "failed to copy file to destination") _ tt ran.second) in
      (
        copied.value,
        sym (L.file-open_truncate_ne dst 0o755 s src apart)
            ∙ L.read-ok src opened copied.value tt copied.first,
        ap (λ (t : H.State). V.file t dst) (ran.last ∙ copied.last)
            ∙ L.file-write dst copied.value opened tt
                (L.open_truncate-ok dst 0o755 s tt (
                  wrap_result-ok (at_path (codes "failed to create destination file") dst) _ tt
                    ran.first))
                copied.second,
      )

  copy_file-ok :
      (src dst : Text) (s : H.State)
      → src ≢ dst
      → (copy_file H src dst s).0 ≡ ok tt
      → (c : Text) × (V.file s src ≡ some c) × (V.file (copy_file H src dst s).1 dst ≡ some c)
  unfolding copy_file
  copy_file-ok src dst s apart h =
      let ran = bind-Ran _ (λ _. write_copy H src dst) s tt h in
      let opened = bind-Ran _ _ s tt ran.first in
      let made = (H.mkdir_all (dir dst) 0o750 s).1 in
      let (c, from, to) = write_copy-ok src dst _ apart ran.second in
      (
        c,
        sym (L.file-mkdir_all (dir dst) 0o750 s src)
            ∙ ap (λ (t : H.State). V.file t src) (sym opened.last)
            ∙ from,
        ap (λ (t : H.State). V.file t dst) ran.last ∙ to,
      )

  copy_unless-cases :
      (same : Bool) (src dst : Text) (s : H.State)
      → src ≢ dst
      → let m = if same then pure tt else copy_file H src dst in
        (m s).0 ≡ ok tt
        → ((same ≡ true) × ((m s).1 ≡ s))
          ⊎ ((c : Text) × (V.file s src ≡ some c) × (V.file (m s).1 dst ≡ some c))
  copy_unless-cases true src dst s apart h = inl (refl, refl)
  copy_unless-cases false src dst s apart h = inr (copy_file-ok src dst s apart h)

  copy_unless-Only :
      (same : Bool) (src dst : Text)
      → Frame (Only H V (λ q. q ≡ dst)) (if same then pure tt else copy_file H src dst)
  copy_unless-Only true src dst = Only-refl H V (λ q. q ≡ dst)
  copy_unless-Only false src dst = copy_file-Only H V L (λ q. q ≡ dst) src dst refl

  -- If the copying succeeds, the destination holds the contents of the source, another file,
  -- provided that no digest is empty and the contents of the two files do not collide.
  pub copy_file_if_different-ok :
      (src dst : Text) (s : H.State)
      → src ≢ dst
      → ((c : Text) → sha256 c ≢ [])
      → ((c d : Text) → V.file s src ≡ some c → V.file s dst ≡ some d → sha256 c ≡ sha256 d → c ≡ d)
      → (copy_file_if_different H sha256 src dst s).0 ≡ ok tt
      → (c : Text) × (V.file s src ≡ some c)
        × (V.file (copy_file_if_different H sha256 src dst s).1 dst ≡ some c)
  unfolding copy_file_if_different
  copy_file_if_different-ok src dst s apart full no_collision h =
      let first = bind-Ran _ _ s tt h in
      let second = bind-Ran _ _ s tt first.second in
      let (c, at_src, sum_src) = file_sha256-ok src s first.value (
        wrap_result-ok (at_path (codes "failed to compute SHA256 of source file") src) _ first.value
          first.first) in
      let same = first.value == second.value in
      elim (copy_unless-cases same src dst s apart second.second) [
        | inr (x, from, to) ↦
            (x, from, ap (λ (t : H.State). V.file t dst) (first.last ∙ second.last) ∙ to)
        | inl (equal, unchanged) ↦
            let sums : first.value ≡ second.value = ground arith in
            let dst_sum =
              or_missing-ok (file_sha256 H sha256 dst s) second.value
                (wrap_result-ok (at_path (codes "failed to compute SHA256 of destination file") dst)
                  _ second.value second.first)
                (λ e. full c (sum_src ∙ sums ∙ e)) in
            let (d, at_dst, sum_dst) = file_sha256-ok dst s second.value dst_sum in
            (
              c,
              at_src,
              ap (λ (t : H.State). V.file t dst) (first.last ∙ second.last ∙ unchanged)
                  ∙ at_dst
                  ∙ ap some (sym (no_collision c d at_src at_dst (sum_src ∙ sums ∙ sym sum_dst))),
            )
      ]

  -- Whether the copying succeeds or not, no file but the destination is changed.
  pub copy_file_if_different-Only :
      (src dst : Text) → Frame (Only H V (λ q. q ≡ dst)) (copy_file_if_different H sha256 src dst)
  unfolding copy_file_if_different
  copy_file_if_different-Only src dst =
      bind-Only H V L (λ q. q ≡ dst) _ _ (Only-refl H V (λ q. q ≡ dst))
        (λ x.
          bind-Only H V L (λ q. q ≡ dst) _ _ (Only-refl H V (λ q. q ≡ dst))
            (λ y. copy_unless-Only (x == y) src dst))
