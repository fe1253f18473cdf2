-- ===== src/Nri/Main/Copied.antt =====
-- The stub of NRI runs only when the host has the binaries that the plugin mounts into containers.
use podlock.Prelude.{apart, ◌≡◌, ◌≢◌, refl, sym, ap, ◌∙◌, some, List, [], ◌∷◌, Text, codes, text_eq}
use podlock.FilePath.{join, clean}
use podlock.Io.{IoError, Result, ok, err, Io, bind-Ran, wrap_result-ok, continue}
use podlock.Io
use podlock.Nri.HostFs.{HostFs, Contents, IsLawful}
use podlock.Nri.Paths.{
  seal_binary_path_host, swap_oci_hook_binary_path_container, swap_oci_hook_binary_path_host,
}
use podlock.Nri.Filesystem.{copy_binaries, copy_file_if_different}
use podlock.Nri.Filesystem.Copy.{copy_file_if_different-ok, copy_file_if_different-Only}
use podlock.Nri.Node.Client.{NodeClient}
use podlock.Api.Scheme.{Schemes}
use podlock.Nri.Main.{StubOption, Options, Services, World, stub_options, start_plugin_mode}

abbrev pub seal_on_host : Text
seal_on_host = codes "/host/opt/podlock/bin/seal"

abbrev pub hook_on_host : Text
hook_on_host = codes "/host/opt/podlock/bin/swap-oci-hook"

seal_on_host-eq : join (codes "/host" ∷ seal_binary_path_host ∷ []) ≡ seal_on_host
unfolding join clean text_eq
seal_on_host-eq = refl

hook_on_host-eq : join (codes "/host" ∷ swap_oci_hook_binary_path_host ∷ []) ≡ hook_on_host
unfolding join clean text_eq
hook_on_host-eq = refl

seal_apart : codes "/seal" ≢ seal_on_host
unfolding text_eq
seal_apart = apart (codes "/seal") (seal_on_host) refl

hook_apart : swap_oci_hook_binary_path_container ≢ hook_on_host
unfolding text_eq
hook_apart = apart (swap_oci_hook_binary_path_container) (hook_on_host) refl

hook_ne_seal : swap_oci_hook_binary_path_container ≢ seal_on_host
unfolding text_eq
hook_ne_seal = apart (swap_oci_hook_binary_path_container) (seal_on_host) refl

on_host_apart : hook_on_host ≢ seal_on_host
unfolding text_eq
on_host_apart = apart (hook_on_host) (seal_on_host) refl

module _ (H : HostFs) (V : Contents H) (L : IsLawful H V) (sha256 : Text → Text) where
  -- The contents of the two files do not collide.
  abbrev pub Distinguishes : H.State → Text → Text → Type 0
  Distinguishes s src dst =
      (c d : Text) → V.file s src ≡ some c → V.file s dst ≡ some d → sha256 c ≡ sha256 d → c ≡ d

  -- What was at `src` in `s` is at `dst` in `t`.
  abbrev pub IsCopied : H.State → H.State → Text → Text → Type 0
  IsCopied s t src dst = (c : Text) × (V.file s src ≡ some c) × (V.file t dst ≡ some c)

  abbrev pub BothCopied : H.State → H.State → Type 0
  BothCopied s t =
      IsCopied s t (codes "/seal") seal_on_host
      × IsCopied s t swap_oci_hook_binary_path_container hook_on_host

  abbrev copy_two : Io H.State (Unit {0})
  copy_two =
      podlock.Io.◌>>◌
        (podlock.Io.wrap (codes "failed to copy seal binary to host")
          (copy_file_if_different H sha256 (codes "/seal") seal_on_host))
        (podlock.Io.wrap (codes "failed to copy swap-oci-hook binary to host")
          (copy_file_if_different H sha256 swap_oci_hook_binary_path_container hook_on_host))

  copy_two-ok :
      (s : H.State)
      → ((c : Text) → sha256 c ≢ [])
      → Distinguishes s (codes "/seal") seal_on_host
      → Distinguishes s swap_oci_hook_binary_path_container hook_on_host
      → (copy_two s).0 ≡ ok tt
      → BothCopied s (copy_two s).1
  copy_two-ok s full seal_differs hook_differs h =
      let ran = bind-Ran _ _ s tt h in
      let t = (copy_file_if_different H sha256 (codes "/seal") seal_on_host s).1 in
      let kept = copy_file_if_different-Only H V L sha256 (codes "/seal") seal_on_host s in
      let hook_kept = kept swap_oci_hook_binary_path_container hook_ne_seal in
      let (c, at_src, at_dst) =
        copy_file_if_different-ok H V L sha256 (codes "/seal") seal_on_host s seal_apart full
          seal_differs
          (wrap_result-ok (codes "failed to copy seal binary to host") _ tt ran.first) in
      let (d, from, to) =
        copy_file_if_different-ok H V L sha256 swap_oci_hook_binary_path_container hook_on_host t
          hook_apart full
          (λ a b at_a at_b.
            hook_differs a b (sym hook_kept ∙ at_a) (sym (kept hook_on_host on_host_apart) ∙ at_b))
          (wrap_result-ok (codes "failed to copy swap-oci-hook binary to host") _ tt ran.second) in
      let later =
        copy_file_if_different-Only H V L sha256 swap_oci_hook_binary_path_container hook_on_host t
          seal_on_host (λ e. on_host_apart (sym e)) in
      (
        (c, at_src, ap (λ (u : H.State). V.file u seal_on_host) ran.last ∙ later ∙ at_dst),
        (d, sym hook_kept ∙ from, ap (λ (u : H.State). V.file u hook_on_host) ran.last ∙ to),
      )

  -- If both copies succeed, the host has the seal and the hook of the plugin's image, provided that
  -- no digest is empty and that of neither binary collides with that of the file in its place.
  pub copy_binaries-ok :
      (s : H.State)
      → ((c : Text) → sha256 c ≢ [])
      → Distinguishes s (codes "/seal") seal_on_host
      → Distinguishes s swap_oci_hook_binary_path_container hook_on_host
      → (copy_binaries H sha256 s).0 ≡ ok tt
      → BothCopied s (copy_binaries H sha256 s).1
  unfolding copy_binaries
  copy_binaries-ok s full seal_differs hook_differs =
      rw (seal_on_host-eq, hook_on_host-eq) (copy_two-ok s full seal_differs hook_differs)

  module _ (C : NodeClient) {X : Schemes} (S : Services X (World H C)) (o : Options) where
    abbrev options : List StubOption
    options = stub_options o.plugin_name o.plugin_idx

    abbrev copied : World H C → World H C
    copied (s, c) = ((copy_binaries H sha256 s).1, c)

    -- The state in which the stub is made.
    abbrev registered : World H C → World H C
    registered w = (S.new_stub o.log_level options (copied w)).1

    -- How the plugin mode may end: the stub runs only in the last case.
    pub data Ends (w : World H C) : Result (Unit {0}) × World H C → Type 0 where
      not_copied : (e : IoError) → (copy_binaries H sha256 w.0).0 ≡ err e → Ends w (err e, copied w)
      no_stub :
          (e : IoError)
          → (S.new_stub o.log_level options (copied w)).0 ≡ err e
          → Ends w (err e, registered w)
      runs :
          (stub : S.Stub)
          → (S.new_stub o.log_level options (copied w)).0 ≡ ok stub
          → BothCopied w.0 (registered w).0
          → Ends w (S.run_stub stub (registered w))

    module _
        (new_stub_keeps : (w : World H C) (p : Text)
          → V.file (S.new_stub o.log_level options w).1.0 p ≡ V.file w.0 p) where
      new_stub-Ends :
          (w : World H C) (r : Result S.Stub)
          → BothCopied w.0 (copied w).0
          → (S.new_stub o.log_level options (copied w)).0 ≡ r
          → Ends w (continue r S.run_stub (registered w))
      new_stub-Ends w (err e) both h = no_stub e h
      new_stub-Ends w (ok stub) ((c, at_seal, seal), (d, at_hook, hook)) h = runs stub h (
        (c, at_seal, new_stub_keeps (copied w) seal_on_host ∙ seal),
        (d, at_hook, new_stub_keeps (copied w) hook_on_host ∙ hook),
      )

      copied-Ends :
          (w : World H C) (r : Result (Unit {0}))
          → ((copy_binaries H sha256 w.0).0 ≡ ok tt → BothCopied w.0 (copied w).0)
          → (copy_binaries H sha256 w.0).0 ≡ r
          → Ends w (
              continue r
                (λ _. podlock.Io.◌>>=◌ (S.new_stub o.log_level options) S.run_stub)
                (copied w))
      unfolding podlock.Io.◌>>=◌
      copied-Ends w (err e) both h = not_copied e h
      copied-Ends w (ok _) both h =
          new_stub-Ends w (S.new_stub o.log_level options (copied w)).0 (both h) refl

      -- The plugin mode ends when a binary cannot be copied or the stub cannot be made; otherwise
      -- the stub runs, and then the host has the seal and the hook of the plugin's image. It is
      -- assumed that no digest is empty, that those of the binaries do not collide with those of
      -- the files in their places, and that the stub changes none of these files when it is made.
      pub start_plugin_mode-Ends :
          (w : World H C)
          → ((c : Text) → sha256 c ≢ [])
          → Distinguishes w.0 (codes "/seal") seal_on_host
          → Distinguishes w.0 swap_oci_hook_binary_path_container hook_on_host
          → Ends w (start_plugin_mode H C S sha256 o w)
      unfolding start_plugin_mode podlock.Io.◌>>=◌
      start_plugin_mode-Ends w full seal_differs hook_differs =
          copied-Ends w (copy_binaries H sha256 w.0).0
            (copy_binaries-ok w.0 full seal_differs hook_differs) refl
