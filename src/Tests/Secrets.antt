-- ===== src/Tests/Secrets.antt =====
-- The credentials of two vCenters on a server of one secret.
use openshift_vsphere_migrat.Base.{
  String, true, ◌≡◌, refl, [], ◌∷◌, none, some, GoError, ok, err, if◌then◌else◌, ◌==◌, string_eq,
}
use openshift_vsphere_migrat.Base.Exec.{pure, ◌>>=◌}
use openshift_vsphere_migrat.Base.Maps.{ne_of_beq}
use openshift_vsphere_migrat.Api.{FailureDomain, Migration}
use openshift_vsphere_migrat.Secrets.{
  Secret, SecretClient, creds_name, username_key, password_key, add_target_vcenter_creds,
  remove_source_vcenter_creds, get_credentials, get_vcenter_creds_from_secret,
}
use openshift_vsphere_migrat.Secrets.Credentials.{
  stamp, LockedSecret, stored_creds, credentials_moved,
}
use openshift_vsphere_migrat.Phases.Flow.{run}
use openshift_vsphere_migrat.Phases.Failing.{Failed}
use openshift_vsphere_migrat.Phases.UpdateSecrets.{execute, target_servers}
use openshift_vsphere_migrat.Phases.UpdateSecrets.Conflict.{HasCredsFor, second_target_fails}
use openshift_vsphere_migrat.Tests.World.{fresh, domain}
use openshift_vsphere_migrat.Tests.Cell.{read, write, write-Locked}

abbrev version : Secret → String
version secret = secret.resource_version

abbrev pub stored : Secret
stored = record {
  name = "vsphere-creds";
  namespace = "kube-system";
  resource_version = "1";
  entries = some (("vcenter-1.username", "admin") ∷ ("vcenter-1.password", "secret") ∷ []);
}

-- The migration's secret, with the credentials of two targets.
abbrev targets : Secret
targets = record {
  name = "creds";
  namespace = "kube-system";
  resource_version = "7";
  entries = some (
      ("vcenter-2.username", "root")
      ∷ ("vcenter-2.password", "word")
      ∷ ("vcenter-3.username", "root")
      ∷ ("vcenter-3.password", "word")
      ∷ []);
}

abbrev secret_client : SecretClient Secret
secret_client = record {
  get = λ namespace name. if name == creds_name then read version stamp else pure targets;
  update = λ namespace. write version stamp;
}

locked : LockedSecret secret_client (λ s. s)
locked = write-Locked version stamp

credentials_moved_example :
    (s₁ : Secret) × (s₂ : Secret) × (add_target_vcenter_creds secret_client stored "vcenter-2"
        "root" "word" stored
      ≡ (ok s₁, s₁))
    × (remove_source_vcenter_creds secret_client s₁ "vcenter-1" s₁ ≡ (ok s₂, s₂))
    × (get_credentials secret_client "vcenter-2" s₂ ≡ (ok ("root", "word"), s₂))
    × ((e : GoError) × (get_credentials secret_client "vcenter-1" s₂ ≡ (err e, s₂)))
    × (stored_creds secret_client (λ s. s) locked "vcenter-3" s₂ ≡ (none, none))
unfolding username_key password_key
credentials_moved_example =
    credentials_moved secret_client (λ s. s) locked "vcenter-1" "vcenter-2" "vcenter-3" "root"
      "word" stored (ne_of_beq "vcenter-1" "vcenter-2" refl)
      (ne_of_beq "vcenter-1" "vcenter-3" refl) (ne_of_beq "vcenter-2" "vcenter-3" refl) refl

abbrev second_domain : FailureDomain
second_domain = record domain { server = "vcenter-3" }

abbrev two_targets : Migration
two_targets = record fresh {
  spec = record fresh.spec { failure_domains = domain ∷ second_domain ∷ [] };
}

has_creds :
    (server : String)
    → ((s : Secret)
        → get_vcenter_creds_from_secret secret_client "kube-system" "creds" server s
          ≡ (ok ("root", "word"), s))
    → HasCredsFor (λ s. 0) secret_client (λ servers. servers) (λ s. s) locked two_targets server
has_creds server found s = ("root", "word", s, found s, refl)

second_target_fails_example :
    Failed
      (run (execute (λ s. 0) secret_client (λ servers. servers) two_targets) two_targets stored)
unfolding username_key password_key get_vcenter_creds_from_secret ◌>>=◌ target_servers
second_target_fails_example =
    second_target_fails (λ s. 0) secret_client (λ servers. servers) (λ s. s) locked two_targets
      "vcenter-2" "vcenter-3" (has_creds "vcenter-2" (λ s. refl))
      (has_creds "vcenter-3" (λ s. refl)) true true [] stored refl
      (ne_of_beq "vcenter-2" "vcenter-3" refl) refl refl
