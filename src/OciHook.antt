-- ===== src/OciHook.antt =====
-- The OCI hook that puts the seal in the place of a binary (cmd/swap-oci-hook/main.go).
pub mod Syscalls
pub mod Mounts
pub mod Entry
pub mod Memory
use podlock.Prelude.{Text, codes}
use podlock.Io.{Io, wrap, ◌>>=◌, ◌>>◌}
use podlock.OciHook.Syscalls.{Kernel}
use podlock.Nri.Paths.{seal_binary_path_container}

module _ (K : Kernel) where
  -- defer unix.Close(fd), for what follows it; the result of the call is not looked at.
  abbrev pub deferred : {A : Type 0} → K.Fd → Io K.State A → Io K.State A
  deferred fd m s = let (r, t) = m s in (r, K.close fd t)

  -- The two calls of move_mount, when both trees are open.
  unfoldable pub move_mounts : K.Fd → K.Fd → Text → Text → Io K.State (Unit {0})
  move_mounts seal_fd target_fd target backup =
      wrap (codes "move_mount failed for backup") (K.move_mount target_fd backup)
      >> wrap (codes "move_mount failed for target") (K.move_mount seal_fd target)

  -- What follows when the tree of the seal is open.
  unfoldable pub swap_target : K.Fd → Text → Text → Io K.State (Unit {0})
  swap_target seal_fd target backup =
      wrap (codes "open_tree failed for target") (K.open_tree target) >>= λ target_fd.
      deferred target_fd (move_mounts seal_fd target_fd target backup)

  -- performOverMounts
  unfoldable pub perform_over_mounts : Text → Text → Io K.State (Unit {0})
  perform_over_mounts target backup =
      wrap (codes "open_tree failed for seal binary") (K.open_tree seal_binary_path_container)
      >>= λ seal_fd. deferred seal_fd (swap_target seal_fd target backup)
