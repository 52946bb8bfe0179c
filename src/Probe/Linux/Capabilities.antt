-- ===== src/Probe/Linux/Capabilities.antt =====
-- The other capabilities, and the environment that they make
-- (crates/probe/fidelity-probe-linux/src: tracer.rs, injection.rs, image_catalog.rs, baseline.rs,
-- dispatch.rs, identity.rs and lib.rs).
use fidelity.Common.{ℕ, Option, none, some, List, [], ◌∷◌, ◌++◌, map, is_empty, if◌then◌else◌, ◌==◌}
use fidelity.Common.Text.{Text, literal, decimal}
use fidelity.Common.Chars.{Chars}
use fidelity.Types.Evidence
use fidelity.Types.Identity.{ExpectedIdentity, Choice, value, accept_unsupported}
use fidelity.Cipher.Sha256.{sha256}
use fidelity.Core.Facts
use fidelity.Core.Facts.{
  Observation, TracerState, CodeOrigin, ImageCatalogState, PlatformTrust, CodeIdentity,
  IdentityMatch,
}
use fidelity.Core.Regions
use fidelity.Core.Regions.{Region, CodeRegions}
use fidelity.Core.Targets
use fidelity.Core.Targets.{DispatchTargets}
use fidelity.Core.Environment.{Environment, returned}
use fidelity.Formats.Bytes.{same_bytes}
use fidelity.Formats.Procfs.Status.{TracerPid, no_tracer, traced_by, tracer_pid}
use fidelity.Formats.Procfs.Maps
use fidelity.Formats.Procfs.Maps.{
  Mapping, Unaccounted, CatalogGap, no_gap, all_accounted, executable_mappings, outside_loader,
}
use fidelity.Probe.Linux.System.{System}
use fidelity.Probe.Linux.Loader.{Catalog, ranges, invalid, take_ranges, RawTargets, raw_targets}
use fidelity.Probe.Linux.Firmware.{machine_host}

abbrev pub failed_with : {A : Type 0} → Text → Observation A
failed_with detail = Facts.failed (Evidence.new detail)

unfoldable pub tracer_of_field : Option TracerPid → Observation TracerState
tracer_of_field (some no_tracer) = Facts.fact Facts.no_tracer
tracer_of_field (some (traced_by pid)) =
    Facts.fact (
      Facts.tracer_present
        (Evidence.new (literal "the kernel reports a TracerPid on this process")))
tracer_of_field none = failed_with (literal "the process status file named no readable TracerPid")

unfoldable pub tracer_of_status : Option Chars → Observation TracerState
unfolding tracer_of_field
tracer_of_status none = failed_with (literal "the process status file did not open")
tracer_of_status (some text) = tracer_of_field (tracer_pid text)

unfoldable pub tracer_state : System → Observation TracerState
tracer_state system = tracer_of_status system.status

-- The details of both counts of regions.
abbrev counted : Text → ℕ → ℕ → Text
counted what bytes regions =
    what ++ (decimal bytes ++ (literal " bytes, region count " ++ decimal regions))

unfoldable pub origin_of : Unaccounted → Observation CodeOrigin
origin_of found =
    if all_accounted found
    then Facts.fact Facts.accounted
    else Facts.fact (
        Facts.unaccounted found.regions (
          Evidence.new
            (counted (literal "unaccounted executable memory: ") found.bytes found.regions)))

unfoldable pub origin_of_maps : Option Chars → Observation CodeOrigin
unfolding origin_of
origin_of_maps none = failed_with (literal "the process mapping table did not open")
origin_of_maps (some text) = origin_of (Maps.unaccounted text)

unfoldable pub code_origin : System → Observation CodeOrigin
code_origin system = origin_of_maps system.maps

unfoldable pub catalog_state : CatalogGap → Observation ImageCatalogState
catalog_state found =
    if no_gap found
    then Facts.fact Facts.catalogued
    else Facts.fact (
        Facts.unregistered found.regions (
          Evidence.new
            (counted (literal "unregistered executable image: ") found.bytes found.regions)))

-- What `sys::catalog::read` makes of the catalog.
unfoldable pub catalog_of : Chars → Catalog → Observation ImageCatalogState
unfolding catalog_state
catalog_of text invalid =
    failed_with (literal "the dynamic-loader catalog is invalid or reached its bound")
catalog_of text (ranges []) =
    failed_with (literal "the dynamic-loader catalog reported no load range")
catalog_of text (ranges (range ∷ found)) = catalog_state (outside_loader text (range ∷ found))

unfoldable pub catalog_of_maps : Option Chars → Catalog → Observation ImageCatalogState
unfolding catalog_of
catalog_of_maps none catalog = failed_with (literal "the process mapping table did not open")
catalog_of_maps (some text) catalog = catalog_of text catalog

unfoldable pub image_catalog_state : System → Observation ImageCatalogState
image_catalog_state system = catalog_of_maps system.maps (take_ranges system.images [])

abbrev pub region_of : Mapping → Region
region_of m = record { start = m.start; end = m.end; writable = m.writable }

unfoldable pub regions_of_maps : Option Chars → Observation CodeRegions
regions_of_maps none = failed_with (literal "the process mapping table did not open")
regions_of_maps (some text) =
    let regions = map region_of (executable_mappings text) in
    if is_empty regions
    then failed_with (literal "the mapping table named no executable region")
    else Facts.fact (Regions.new regions)

unfoldable pub code_regions : System → Observation CodeRegions
code_regions system = regions_of_maps system.maps

targets_of : Option RawTargets → Observation DispatchTargets
targets_of none = Facts.unsupported "the image of the host holds no dispatch table"
targets_of (some raw) = Facts.fact (Targets.new raw.targets raw.bound)

unfoldable pub dispatch_targets : System → Observation DispatchTargets
unfolding targets_of
dispatch_targets system = targets_of (raw_targets system)

-- `FS_VERITY_HASH_ALG_SHA256`
abbrev pub hash_sha256 : ℕ
hash_sha256 = 1

trust_of : Option ℕ → PlatformTrust
trust_of none =
    Facts.unavailable
      "Linux anchors no signer for a running image, and this deployment enables no fs-verity"
trust_of (some algorithm) =
    if algorithm == hash_sha256
    then Facts.accepted
    else Facts.unavailable "fs-verity is enabled with a hash that this probe does not read"

unfoldable pub code_identity : System → Observation CodeIdentity
unfolding trust_of
code_identity system = Facts.fact (record { trust = trust_of system.verity; signer = none })

unfoldable pub compare : List ℕ → List ℕ → IdentityMatch
compare found pinned =
    if same_bytes found pinned
    then Facts.same
    else Facts.different
        (Evidence.new (literal "the running image holds other content than the host pinned"))

unfoldable pub match_of : Option (List ℕ) → List ℕ → Observation IdentityMatch
match_of none pinned = failed_with (literal "the running image did not open")
match_of (some bytes) pinned = Facts.fact (compare (sha256 bytes) pinned)

unfoldable pub by_choice : Option (List ℕ) → Option (Choice (List ℕ)) → Observation IdentityMatch
unfolding match_of
by_choice exe (some (value pinned)) = match_of exe pinned
by_choice exe (some accept_unsupported) =
    Facts.unsupported "the host accepted no identity check on Linux"
by_choice exe none = Facts.unsupported "the host stated no identity value for Linux"

unfoldable pub identity_match : System → ExpectedIdentity → Observation IdentityMatch
unfolding by_choice
identity_match system expected = by_choice system.exe expected.linux_choice

-- The environment of the probe. Two capabilities have no probe, and none of its calls unwinds.
abbrev pub environment : System → Environment
environment system = record {
  code_identity = returned (code_identity system);
  identity_match = λ expected. returned (identity_match system expected);
  tracer_state = returned (tracer_state system);
  code_origin = returned (code_origin system);
  image_catalog_state = returned (image_catalog_state system);
  dispatch_targets = returned (dispatch_targets system);
  code_regions = returned (code_regions system);
  system_build = returned (Facts.unsupported "this build ships no probe for this fact");
  boot_verification = returned (Facts.unsupported "this build ships no probe for this fact");
  machine_host = returned (machine_host system);
  local_agent_state = returned system.agent;
}
