-- ===== src/OciHook/Syscalls.antt =====
-- The system calls of the OCI hook, as an interface, and what their documentation says. Paths are
-- compared by their text: links inside the container are not modelled.
use podlock.Prelude.{◌≡◌, ◌≢◌, Option, some, Text}
use podlock.Io.{ok, err, IoError, Io}

pub record Kernel : Type 1 where
  pub State : Type 0
  pub Fd : Type 0
  -- open_tree(AT_FDCWD, path, OPEN_TREE_CLONE)
  pub open_tree : Text → Io State Fd
  -- move_mount(fd, "", AT_FDCWD, path, MOVE_MOUNT_F_EMPTY_PATH)
  pub move_mount : Fd → Text → Io State (Unit {0})
  pub close : Fd → State → State
  pub chroot : Text → Io State (Unit {0})

-- What a path leads to, and what an open descriptor of a tree stands for.
pub record View (K : Kernel) : Type 1 where
  pub File : Type 0
  pub at : K.State → Text → Option File
  pub tree : K.State → K.Fd → Option File

pub record IsLawful (K : Kernel) (V : View K) : Type 0 where
  -- A clone stands for what was at the path, and an open descriptor keeps what it stands for.
  pub tree-open_tree :
      (p : Text) (s : K.State) (fd : K.Fd)
      → (K.open_tree p s).0 ≡ ok fd
      → V.tree (K.open_tree p s).1 fd ≡ V.at s p
  pub tree-open_tree_ne :
      (p : Text) (s : K.State) (fd : K.Fd) (f : V.File)
      → V.tree s fd ≡ some f
      → V.tree (K.open_tree p s).1 fd ≡ some f
  pub at-open_tree : (p : Text) (s : K.State) (q : Text) → V.at (K.open_tree p s).1 q ≡ V.at s q
  -- Only a path that leads to something can be cloned.
  pub open_tree-there :
      (p : Text) (s : K.State) (fd : K.Fd)
      → (K.open_tree p s).0 ≡ ok fd
      → (f : V.File) × (V.at s p ≡ some f)
  -- A mount covers its path and no other, and a call that fails mounts nothing.
  pub at-move_mount :
      (fd : K.Fd) (p : Text) (s : K.State)
      → (K.move_mount fd p s).0 ≡ ok tt
      → V.at (K.move_mount fd p s).1 p ≡ V.tree s fd
  pub at-move_mount_ne :
      (fd : K.Fd) (p : Text) (s : K.State) (q : Text)
      → q ≢ p
      → V.at (K.move_mount fd p s).1 q ≡ V.at s q
  pub at-move_mount_err :
      (fd : K.Fd) (p : Text) (s : K.State) (e : IoError) (q : Text)
      → (K.move_mount fd p s).0 ≡ err e
      → V.at (K.move_mount fd p s).1 q ≡ V.at s q
  pub tree-move_mount :
      (fd : K.Fd) (p : Text) (s : K.State) (g : K.Fd)
      → V.tree (K.move_mount fd p s).1 g ≡ V.tree s g
  pub at-close : (fd : K.Fd) (s : K.State) (q : Text) → V.at (K.close fd s) q ≡ V.at s q
