-- ===== src/Tests/Served.antt =====
-- A shell that is run at last, after a user has sent the profile to the cluster.
use podlock.Prelude.{some, codes, nat_eq}
use podlock.Io.{Result}
use podlock.Nri.Memory.{Files}
use podlock.Nri.Plugin.{create_container}
use podlock.Tests.Codec.{encode}
use podlock.Tests.Pipeline.{pod, web, no_files}
use podlock.Controller.Memory
use podlock.Tests.Admission.{cached}
use podlock.Tests.Lifecycle.{crowd}

abbrev amid : Files
amid = (create_container crowd encode cached (codes "info") (some pod) (some web) (no_files, 0)).1.0
