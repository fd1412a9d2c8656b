-- ===== src/CsiMigration/Preflight.antt =====
-- `preflightCheck` of the CSI volume phase.
use openshift_vsphere_migrat.Base.{
  string_eq, nat_eq, List, [], ◌∷◌, msg, lit, number, duration, Result, ok, err, length,
}
use openshift_vsphere_migrat.Api.{LogLevel}
use openshift_vsphere_migrat.Attachments.{VolumeAttachmentIssue, diagnose_stuck_attachments}
use openshift_vsphere_migrat.CsiMigration.Environment.{Environment}
use openshift_vsphere_migrat.CsiMigration.Pipeline.{Progress, log}

module _ {S : Type 0} (env : Environment S) where
  log_issues : List VolumeAttachmentIssue → Progress S → Progress S
  log_issues [] p = p
  log_issues (i ∷ is) p = log_issues is (
      log env LogLevel.warning
        (lit "Found stuck VolumeAttachment: "
          ∷ lit i.va_name
          ∷ lit " (PV: "
          ∷ lit i.pv_name
          ∷ lit ", stuck for: "
          ∷ duration i.stuck_duration
          ∷ lit ")"
          ∷ [])
        p)

  preflight_found : Result (List VolumeAttachmentIssue) → Progress S → Progress S
  unfolding log_issues
  preflight_found (err e) p = p
  preflight_found (ok []) p =
      log env LogLevel.info (msg "Preflight check passed: no stuck VolumeAttachments detected") p
  preflight_found (ok (i ∷ is)) p =
      log env LogLevel.info
        (lit "Preflight detected "
          ∷ number (length (i ∷ is))
          ∷ lit " stuck VolumeAttachments - automatic remediation enabled"
          ∷ [])
        (log_issues (i ∷ is) p)

  -- `preflightCheck`. Its error is logged by the caller only.
  unfoldable pub preflight_check : Progress S → Progress S
  unfolding preflight_found
  preflight_check p =
      let (r, s) = diagnose_stuck_attachments env.client 300000000000 p.world in
      preflight_found r (record p { world = s })
