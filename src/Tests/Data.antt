-- ===== src/Tests/Data.antt =====
-- Objects that the tests share.
use podlock.Prelude.{refl, Option, none, some, [], ◌∷◌, Text, codes, text_eq, nat_eq}
use podlock.Map.{Map}
use podlock.FilePath.Components.{IsName}
use podlock.FilePath.Clean.{IsCleanAbs}
use podlock.Api.{Profile, ProfileByBinary, LandlockProfile, landlock_profile_finalizer}

abbrev pub nginx : Profile
nginx = record {
  read_only = codes "/usr/share/nginx" ∷ [];
  read_write = codes "/tmp" ∷ [];
  read_exec = codes "/lib" ∷ codes "/lib64" ∷ [];
  read_write_exec = [];
}

abbrev pub nginx_binaries : ProfileByBinary
nginx_binaries = (codes "/usr/sbin/nginx", nginx) ∷ (codes "/bin/sh", nginx) ∷ []

abbrev pub nginx_profile : Option (Map ProfileByBinary) → LandlockProfile
nginx_profile containers = record {
  metadata = record {
    name = codes "nginx";
    namespace = codes "default";
    deletion_timestamp = none;
    finalizers = landlock_profile_finalizer ∷ [];
  };
  spec = record { profiles_by_container = containers };
}

abbrev pub good : LandlockProfile
good = nginx_profile (some ((codes "nginx", nginx_binaries) ∷ []))

-- `/lib` at two levels, and a path that is not clean.
abbrev pub bad : LandlockProfile
bad = nginx_profile (
    some (
      (
        codes "nginx",
        (
          codes "/bin/sh",
          record nginx { read_only = codes "/lib" ∷ []; read_write = codes "/tmp/../etc" ∷ [] },
        )
            ∷ [],
      )
      ∷ []))

abbrev pub pod_uid : Text
pod_uid = codes "pod123"

abbrev pub ctr_name : Text
ctr_name = codes "ctr1"

pub IsName-pod_uid : IsName pod_uid
unfolding nat_eq
IsName-pod_uid = (refl, λ e. cc, λ e. cc, λ e. cc)

pub IsName-ctr_name : IsName ctr_name
unfolding nat_eq
IsName-ctr_name = (refl, λ e. cc, λ e. cc, λ e. cc)

abbrev pub curl : Text
curl = codes "/usr/bin/curl"

abbrev pub sh : Text
sh = codes "/bin/sh"

pub IsCleanAbs-curl : IsCleanAbs curl
unfolding nat_eq podlock.Strings.join_with
IsCleanAbs-curl = record {
  elements = codes "usr" ∷ codes "bin" ∷ codes "curl" ∷ [];
  names = (
    (refl, λ e. cc, λ e. cc, λ e. cc),
    ((refl, λ e. cc, λ e. cc, λ e. cc), ((refl, λ e. cc, λ e. cc, λ e. cc), tt)),
  );
  shape = refl;
}
