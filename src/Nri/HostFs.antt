-- ===== src/Nri/HostFs.antt =====
-- The calls of Go's `os` and `io` that the plugin makes on the file system of the host, as an
-- interface, and what their documentation says. Paths are compared by their text: links on the host
-- are not modelled. A file that is open is named by its path.
use podlock.Prelude.{ℕ, ◌≡◌, ◌≢◌, ◌⊎◌, Option, none, some, [], Text}
use podlock.Io.{Result, ok, Io}
use podlock.Nri.Paths.Distinct.{IsBelow}

pub record HostFs : Type 1 where
  pub State : Type 0
  -- os.Open(path)
  pub open_file : Text → State → Result (Unit {0})
  -- all bytes of a file that is open for reading
  pub read : Text → State → Result Text
  -- os.MkdirAll(dir, mode)
  pub mkdir_all : Text → ℕ → Io State (Unit {0})
  -- os.OpenFile(path, os.O_CREATE, mode)
  pub open_create : Text → ℕ → Io State (Unit {0})
  -- os.OpenFile(path, os.O_CREATE|os.O_WRONLY|os.O_TRUNC, mode)
  pub open_truncate : Text → ℕ → Io State (Unit {0})
  -- all bytes into the file that was opened and truncated
  pub write : Text → Text → Io State (Unit {0})
  pub close : Text → Io State (Unit {0})
  -- os.RemoveAll(dir)
  pub remove_all : Text → Io State (Unit {0})

-- The contents of the regular file at a path, if one is there.
pub record Contents (H : HostFs) : Type 0 where
  pub file : H.State → Text → Option Text

-- What the calls do to the files whose contents are known.
pub record IsLawfulFor (H : HostFs) (V : Contents H) (Known : Text → Type 0) : Type 0 where
  pub read-ok :
      (p : Text) (s : H.State) (c : Text) → Known p → H.read p s ≡ ok c → V.file s p ≡ some c
  pub file-mkdir_all :
      (d : Text) (mode : ℕ) (s : H.State) (p : Text)
      → V.file (H.mkdir_all d mode s).1 p ≡ V.file s p
  -- A file that is there is left as it is, and one that is not is created empty; no other changes.
  pub file-open_create :
      (p : Text) (mode : ℕ) (s : H.State) (q : Text)
      → (V.file (H.open_create p mode s).1 q ≡ V.file s q)
        ⊎ ((q ≡ p) × (V.file s q ≡ none) × (V.file (H.open_create p mode s).1 q ≡ some []))
  pub open_create-ok :
      (p : Text) (mode : ℕ) (s : H.State)
      → Known p
      → (H.open_create p mode s).0 ≡ ok tt
      → V.file (H.open_create p mode s).1 p ≢ none
  pub open_truncate-ok :
      (p : Text) (mode : ℕ) (s : H.State)
      → Known p
      → (H.open_truncate p mode s).0 ≡ ok tt
      → V.file (H.open_truncate p mode s).1 p ≡ some []
  pub file-open_truncate_ne :
      (p : Text) (mode : ℕ) (s : H.State) (q : Text)
      → q ≢ p
      → V.file (H.open_truncate p mode s).1 q ≡ V.file s q
  pub file-write_ne :
      (p c : Text) (s : H.State) (q : Text) → q ≢ p → V.file (H.write p c s).1 q ≡ V.file s q
  -- A file that is empty and written to without an error holds what was written.
  pub file-write :
      (p c : Text) (s : H.State)
      → Known p
      → V.file s p ≡ some []
      → (H.write p c s).0 ≡ ok tt
      → V.file (H.write p c s).1 p ≡ some c
  pub file-close : (p : Text) (s : H.State) (q : Text) → V.file (H.close p s).1 q ≡ V.file s q
  pub file-remove_all :
      (d : Text) (s : H.State) (p : Text)
      → (H.remove_all d s).0 ≡ ok tt
      → IsBelow d p
      → V.file (H.remove_all d s).1 p ≡ none
  pub file-remove_all_ne :
      (d : Text) (s : H.State) (p : Text)
      → ¬ IsBelow d p
      → V.file (H.remove_all d s).1 p ≡ V.file s p

-- The same of all files.
abbrev pub IsLawful : (H : HostFs) → Contents H → Type 0
IsLawful H V = IsLawfulFor H V (λ _. Unit)
