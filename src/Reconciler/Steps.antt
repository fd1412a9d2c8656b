-- ===== src/Reconciler/Steps.antt =====
-- Every reconciliation takes one of the steps of Reconciler/Outcomes.antt.
use openshift_vsphere_migrat.Api.{phase_eq}
