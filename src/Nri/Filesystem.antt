-- ===== src/Nri/Filesystem.antt =====
-- filesystem.go: what the plugin writes on the host.
pub mod Frames
pub mod Reserve
pub mod Copy
use podlock.Prelude.{
  ℕ, Bool, true, false, ◌&&◌, not, Option, none, some, List, [], ◌∷◌, ◌++◌, Text, codes, ◌==◌,
  text_eq, if◌then◌else◌,
}
use podlock.FilePath.{dir, join}
use podlock.Api.{Profile, ProfileByBinary}
pub use podlock.Io.{wrap_error, wrap_result, wrap}
use podlock.Io.{IoError, Result, ok, err, Io, pure, raise, lift, ◌>>=◌, ◌>>◌}
use podlock.Nri.HostFs.{HostFs}
use podlock.Nri.Paths.{
  swapped_binary_path_on_host, landlock_profile_path_on_host, seal_binary_path_host,
  swap_oci_hook_binary_path_container, swap_oci_hook_binary_path_host,
}

abbrev pub at_path : Text → Text → Text
at_path message path = message ++ (codes " '" ++ (path ++ codes "'"))

-- What fileSha256 makes of the opening and the reading of a file.
abbrev pub digest_of : (Text → Text) → Text → Result (Unit {0}) → Result Text → Result Text
digest_of sha256 path (err e) contents =
    err (wrap_error (at_path (codes "failed to open file") path) e)
digest_of sha256 path (ok _) (err e) =
    err (wrap_error (at_path (codes "failed to compute SHA256 of file") path) e)
digest_of sha256 path (ok _) (ok contents) = ok (sha256 contents)

-- The empty sum stands for a missing file.
abbrev pub or_missing : Result Text → Result Text
or_missing (ok sum) = ok sum
or_missing (err e) = if e.not_exist then ok [] else err e

module _ (H : HostFs) where
  -- One round of the loop of `reserveSwappedBinaries`, for the path of the swapped binary.
  unfoldable pub reserve_path : Text → Io H.State (Unit {0})
  reserve_path swapped_bin =
      wrap (at_path (codes "failed to create runtime dir for swapped binary") swapped_bin)
        (H.mkdir_all (dir swapped_bin) 0o750)
      >> wrap (at_path (codes "failed to create empty file for swapped binary") swapped_bin)
          (H.open_create swapped_bin 0o755)
      >> wrap (at_path (codes "failed to close file for swapped binary") swapped_bin)
          (H.close swapped_bin)

  unfoldable pub reserve_swapped_binaries : Text → Text → ProfileByBinary → Io H.State (Unit {0})
  reserve_swapped_binaries pod_id container_name [] = pure tt
  reserve_swapped_binaries pod_id container_name ((binary, profile) ∷ m) =
      reserve_path (swapped_binary_path_on_host pod_id container_name binary)
      >> reserve_swapped_binaries pod_id container_name m

  -- `encode` is the JSON encoder with its indentation, which writes nothing if it fails.
  unfoldable pub write_profile :
      Text → (ProfileByBinary → Result Text) → ProfileByBinary → Io H.State (Unit {0})
  write_profile path encode m =
      wrap (at_path (codes "failed to create runtime dir for landlock profile") path)
        (H.mkdir_all (dir path) 0o750)
      >> wrap (at_path (codes "failed to create landlock profile file") path)
          (H.open_truncate path 0o644)
      >> wrap (at_path (codes "failed to write landlock profile JSON to file") path)
          (lift (encode m) >>= H.write path)

  unfoldable pub write_landlock_profile_to_host_filesystem :
      (ProfileByBinary → Result Text) → Text → Text → ProfileByBinary → Io H.State (Unit {0})
  write_landlock_profile_to_host_filesystem encode pod_id container_name m =
      write_profile (landlock_profile_path_on_host pod_id container_name) encode m

  -- fileSha256, where `sha256` gives the hexadecimal digest
  unfoldable pub file_sha256 : (Text → Text) → Text → H.State → Result Text
  file_sha256 sha256 path s = digest_of sha256 path (H.open_file path s) (H.read path s)

  -- The destination is opened and written. A reading that fails writes nothing here.
  unfoldable pub write_copy : Text → Text → Io H.State (Unit {0})
  write_copy src dst =
      wrap (at_path (codes "failed to create destination file") dst) (H.open_truncate dst 0o755)
      >> wrap (codes "failed to copy file to destination")
          ((λ s. (H.read src s, s)) >>= H.write dst)

  -- What follows the sums: the copy, if they differ.
  unfoldable pub copy_file : Text → Text → Io H.State (Unit {0})
  unfolding write_copy
  copy_file src dst =
      wrap (codes "failed to create " ++ (dir dst ++ codes " directory"))
        (H.mkdir_all (dir dst) 0o750)
      >> wrap (codes "failed to open source file") (λ s. (H.open_file src s, s))
      >> write_copy src dst

  unfoldable pub copy_file_if_different : (Text → Text) → Text → Text → Io H.State (Unit {0})
  copy_file_if_different sha256 src dst =
      wrap (at_path (codes "failed to compute SHA256 of source file") src)
        (λ s. (file_sha256 sha256 src s, s))
      >>= λ src_sum.
          wrap (at_path (codes "failed to compute SHA256 of destination file") dst)
            (λ s. (or_missing (file_sha256 sha256 dst s), s))
          >>= λ dst_sum. if src_sum == dst_sum then pure tt else copy_file src dst

  -- copyBinaries
  unfoldable pub copy_binaries : (Text → Text) → Io H.State (Unit {0})
  copy_binaries sha256 =
      wrap (codes "failed to copy seal binary to host") (
        copy_file_if_different sha256 (codes "/seal")
          (join (codes "/host" ∷ seal_binary_path_host ∷ [])))
      >> wrap (codes "failed to copy swap-oci-hook binary to host") (
          copy_file_if_different sha256 swap_oci_hook_binary_path_container
            (join (codes "/host" ∷ swap_oci_hook_binary_path_host ∷ [])))
