-- ===== src/Pipeline/Hooks.antt =====
-- The hooks of an adjustment, run one after the other when the container is created.
use podlock.Prelude.{
  ◌≡◌, ◌≢◌, refl, sym, ap, ◌∙◌, subst, map, List, [], ◌∷◌, Text, codes, All, text_eq,
}
use podlock.Io.{ok, Io, pure, wrap, bind-Ran, wrap_result-ok, ◌>>◌}
use podlock.FilePath.Clean.{IsCleanAbs}
use podlock.Api.{Profile, ProfileByBinary}
use podlock.Nri.Paths.{seal_binary_path_container, swapped_binary_path_inside_container}
use podlock.Nri.Paths.Distinct.{
  swapped_binary_path_inside_container-injective, swapped_binary_path_inside_container_ne,
}
use podlock.Nri.Adjustments.{Hook, binary_hook, create_container_adjustment}
use podlock.Nri.Adjustments.Wiring.{create_container_adjustment-hooks}
use podlock.OciHook.{perform_over_mounts}
use podlock.OciHook.Syscalls.{Kernel, View, IsLawful}
use podlock.OciHook.Entry.{main_of, main_of-binary_hook}
use podlock.OciHook.Mounts.{perform_over_mounts-IsSwapped, perform_over_mounts-Elsewhere}

-- Where the hook keeps a binary.
abbrev pub kept : Text → Text
kept = swapped_binary_path_inside_container

-- The two paths that the hook of a binary changes are none of these.
abbrev pub Avoids : Text → Text → Type 0
Avoids q binary = (q ≢ binary) × (q ≢ kept binary)

-- The binaries are clean paths, none is listed twice, and none is the seal or lies in a place where
-- another one is kept.
abbrev pub AreApart : ProfileByBinary → Type 0
AreApart [] = Unit
AreApart ((binary, profile) ∷ m) =
    IsCleanAbs binary
    × (Avoids seal_binary_path_container binary
        × (All (λ (e : Text × Profile). Avoids binary e.0 × Avoids e.0 binary) m × AreApart m))

-- Neither do the hooks of the others change the place where a binary is kept.
kept-Avoids :
    (binary : Text) (m : ProfileByBinary)
    → IsCleanAbs binary
    → AreApart m
    → All (λ (e : Text × Profile). Avoids binary e.0 × Avoids e.0 binary) m
    → All (λ (e : Text × Profile). Avoids (kept binary) e.0) m
kept-Avoids binary [] clean apart h = tt
kept-Avoids binary ((other, profile) ∷ m) clean (other_clean, (_, (_, rest)))
      (((ne, _), (_, not_kept)), hs) =
    (
      (
        (λ e. not_kept (sym e)),
        (λ e. ne (swapped_binary_path_inside_container-injective binary other clean other_clean e)),
      ),
      kept-Avoids binary m clean rest hs,
    )

binary-Avoids :
    (binary : Text) (m : ProfileByBinary)
    → All (λ (e : Text × Profile). Avoids binary e.0 × Avoids e.0 binary) m
    → All (λ (e : Text × Profile). Avoids binary e.0) m
binary-Avoids binary [] h = tt
binary-Avoids binary (e ∷ m) ((avoids, _), hs) = (avoids, binary-Avoids binary m hs)

module _ (K : Kernel) where
  -- The runtime ends the creation of the container when a hook fails.
  unfoldable pub run_hooks : List Hook → Io K.State (Unit {0})
  run_hooks [] = pure tt
  run_hooks (hook ∷ hooks) = main_of K hook.args >> run_hooks hooks

module _ (K : Kernel) (V : View K) (L : IsLawful K V) where
  -- The binary became the seal, and what it was is where the hook keeps it.
  pub record IsExchanged (s t : K.State) (binary : Text) : Type 0 where
    pub kept_there : V.at t (kept binary) ≡ V.at s binary
    pub sealed : V.at t binary ≡ V.at s seal_binary_path_container

  -- What holds of each binary, after all hooks.
  abbrev pub AllExchanged : K.State → K.State → ProfileByBinary → Type 0
  AllExchanged s t m = All (λ (e : Text × Profile). IsExchanged s t e.0) m

  module _
      (at-chroot : (path : Text) (s : K.State) (q : Text)
        → V.at (K.chroot path s).1 q ≡ V.at s q) where
    abbrev exchange : Text → Io K.State (Unit {0})
    exchange binary =
        wrap (codes "failed to chroot to container root") (K.chroot (codes "."))
        >> wrap (codes "failed to perform swap") (perform_over_mounts K binary (kept binary))

    -- What the hook of a binary does, when it succeeds.
    abbrev pub Exchanges : Text → K.State → K.State → Type 0
    Exchanges binary s t =
        IsExchanged s t binary × ((q : Text) → Avoids q binary → V.at t q ≡ V.at s q)

    exchange-Exchanges :
        (binary : Text) (s : K.State)
        → IsCleanAbs binary
        → (exchange binary s).0 ≡ ok tt
        → Exchanges binary s (exchange binary s).1
    exchange-Exchanges binary s clean h =
        let ran =
          bind-Ran (wrap (codes "failed to chroot to container root") (K.chroot (codes ".")))
            (λ _.
              wrap (codes "failed to perform swap") (perform_over_mounts K binary (kept binary)))
            s tt h in
        let r = (K.chroot (codes ".") s).1 in
        let rooted = at-chroot (codes ".") s in
        let swapped =
          perform_over_mounts-IsSwapped K V L binary (kept binary) r
            (swapped_binary_path_inside_container_ne binary clean)
            (wrap_result-ok (codes "failed to perform swap") _ tt ran.second) in
        let elsewhere = perform_over_mounts-Elsewhere K V L binary (kept binary) r in
        (
          record {
            kept_there =
                ap (λ (t : K.State). V.at t (kept binary)) ran.last
                ∙ swapped.kept
                ∙ sym swapped.there
                ∙ rooted binary;
            sealed =
                ap (λ (t : K.State). V.at t binary) ran.last
                ∙ swapped.sealed
                ∙ rooted seal_binary_path_container;
          },
          λ q avoids.
              ap (λ (t : K.State). V.at t q) ran.last ∙ elsewhere q avoids.0 avoids.1 ∙ rooted q,
        )

    pub hook-Exchanges :
        (binary : Text) (s : K.State)
        → IsCleanAbs binary
        → (main_of K (binary_hook binary).args s).0 ≡ ok tt
        → Exchanges binary s (main_of K (binary_hook binary).args s).1
    hook-Exchanges binary s clean =
        subst (λ (m : Io K.State (Unit {0})). (m s).0 ≡ ok tt → Exchanges binary s (m s).1)
          (sym (main_of-binary_hook K binary clean)) (exchange-Exchanges binary s clean)

    -- The hooks of these binaries leave a path alone that they avoid.
    abbrev hooks_of : ProfileByBinary → List Hook
    hooks_of m = map (λ (e : Text × Profile). binary_hook e.0) m

    hooks-kept :
        (m : ProfileByBinary) (s : K.State) (q : Text)
        → AreApart m
        → All (λ (e : Text × Profile). Avoids q e.0) m
        → (run_hooks K (hooks_of m) s).0 ≡ ok tt
        → V.at (run_hooks K (hooks_of m) s).1 q ≡ V.at s q
    unfolding run_hooks
    hooks-kept [] s q apart avoids h = refl
    hooks-kept ((binary, profile) ∷ m) s q (clean, (_, (_, rest))) (avoid, avoids) h =
        let ran =
          bind-Ran (main_of K (binary_hook binary).args) (λ _. run_hooks K (hooks_of m)) s tt h in
        let (_, elsewhere) = hook-Exchanges binary s clean ran.first in
        ap (λ (t : K.State). V.at t q) ran.last
        ∙ hooks-kept m _ q rest avoids ran.second
        ∙ elsewhere q avoid

    -- What the hooks do from the state that the hook of another binary leaves.
    AllExchanged-before :
        (binary : Text) (s u t : K.State) (m : ProfileByBinary)
        → Avoids seal_binary_path_container binary
        → ((q : Text) → Avoids q binary → V.at u q ≡ V.at s q)
        → All (λ (e : Text × Profile). Avoids binary e.0 × Avoids e.0 binary) m
        → AllExchanged u t m
        → AllExchanged s t m
    AllExchanged-before binary s u t [] seal elsewhere avoids h = tt
    AllExchanged-before binary s u t ((other, profile) ∷ m) seal elsewhere ((_, avoids), rest)
          (h, hs) =
        (
          record {
            kept_there = h.kept_there ∙ elsewhere other avoids;
            sealed = h.sealed ∙ elsewhere seal_binary_path_container seal;
          },
          AllExchanged-before binary s u t m seal elsewhere rest hs,
        )

    hooks-AllExchanged :
        (m : ProfileByBinary) (s : K.State)
        → AreApart m
        → (run_hooks K (hooks_of m) s).0 ≡ ok tt
        → AllExchanged s (run_hooks K (hooks_of m) s).1 m
    unfolding run_hooks
    hooks-AllExchanged [] s apart h = tt
    hooks-AllExchanged ((binary, profile) ∷ m) s (clean, (seal, (avoids, rest))) h =
        let ran =
          bind-Ran (main_of K (binary_hook binary).args) (λ _. run_hooks K (hooks_of m)) s tt h in
        let u = (main_of K (binary_hook binary).args s).1 in
        let (first, elsewhere) = hook-Exchanges binary s clean ran.first in
        let stays = λ (q : Text) (h : All (λ (e : Text × Profile). Avoids q e.0) m).
          hooks-kept m u q rest h ran.second in
        let later : IsExchanged s (run_hooks K (hooks_of m) u).1 binary = record {
          kept_there =
              stays (kept binary) (kept-Avoids binary m clean rest avoids) ∙ first.kept_there;
          sealed = stays binary (binary-Avoids binary m avoids) ∙ first.sealed;
        } in
        subst (λ (t : K.State). AllExchanged s t ((binary, profile) ∷ m)) (sym ran.last)
          (
            later,
            AllExchanged-before binary s u (run_hooks K (hooks_of m) u).1 m seal elsewhere avoids
                (hooks-AllExchanged m u rest ran.second),
          )

    -- If all hooks of an adjustment succeed, one after the other, then every binary is the seal, and
    -- what it was is in the place where the seal looks for it. It is assumed that the binaries are
    -- clean paths that are apart from each other, from the seal and from the places where the
    -- others are kept, and that the change of the root changes no path.
    pub run_hooks-AllExchanged :
        (pod_id container_name log_level : Text) (m : ProfileByBinary) (s : K.State)
        → AreApart m
        → let hooks = (create_container_adjustment pod_id container_name m log_level).hooks in
          (run_hooks K hooks s).0 ≡ ok tt → AllExchanged s (run_hooks K hooks s).1 m
    run_hooks-AllExchanged pod_id container_name log_level m s apart =
        subst
          (λ (hooks : List Hook).
            (run_hooks K hooks s).0 ≡ ok tt → AllExchanged s (run_hooks K hooks s).1 m)
          (sym (create_container_adjustment-hooks pod_id container_name m log_level))
          (hooks-AllExchanged m s apart)
