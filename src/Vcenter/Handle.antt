-- ===== src/Vcenter/Handle.antt =====
-- The volume handles of pkg/vsphere/fcd.go.
use Prim.Native.String.{len, slice}
use text.Mathlib.TextPositions.{len-append, slice-append_right, starts_with-append}
use openshift_vsphere_migrat.Base.{String, ◌<>◌, ◌≡◌, ap, ◌∙◌, ok, if◌then◌else◌}
use openshift_vsphere_migrat.Vcenter.{scheme, parse_csi_volume_handle, build_csi_volume_handle}

-- Parsing the handle that is built for a disk gives back the disk's identifier.
pub parse-build : (id : String) → parse_csi_volume_handle (build_csi_volume_handle id) ≡ ok id
unfolding parse_csi_volume_handle build_csi_volume_handle
parse-build id =
    ap
      (λ b.
        if b
        then ok (slice (scheme <> id) (len scheme) (len (scheme <> id)))
        else ok (scheme <> id))
      (starts_with-append scheme id)
    ∙ ap (λ n. ok (slice (scheme <> id) (len scheme) n)) (len-append scheme id)
    ∙ ap ok (slice-append_right scheme id)
