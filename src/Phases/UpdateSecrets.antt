-- ===== src/Phases/UpdateSecrets.antt =====
-- pkg/controller/phases/update_secrets.go.
pub mod Conflict
use openshift_vsphere_migrat.Base.{
  String, Bool, true, false, List, [], ◌∷◌, Option, none, some, Message, msg, lit, errorf, map,
  length, nat_eq, string_eq, if◌then◌else◌, ◌==◌,
}
use openshift_vsphere_migrat.Base.Exec.{Exec, pure as pure_exec, raise}
use openshift_vsphere_migrat.Base.Maps.{insert}
use openshift_vsphere_migrat.Api.{
  Time, update_secrets, PhaseStatus, LogLevel, FailureDomain, Migration,
}
use openshift_vsphere_migrat.Reconciler.Phases.{PhaseBody}
use openshift_vsphere_migrat.Secrets.{
  Secret, SecretClient, caller_secret, get_vsphere_creds_secret, get_vcenter_creds_from_secret,
  add_target_vcenter_creds,
}
use openshift_vsphere_migrat.Phases.Flow.{
  PhaseEnd, Step, pure, finish, call, log, run, roll_back, ◌>>=◌, ◌>>◌,
}

-- `targetVCenters`
unfoldable pub target_servers : List FailureDomain → List (String × Bool) → List (String × Bool)
target_servers [] m = m
target_servers (fd ∷ fds) m = target_servers fds (insert fd.server true m)

abbrev pub creds_secret_namespace : String → String
creds_secret_namespace namespace = if namespace == "" then "kube-system" else namespace

-- `range` is the order in which Go visits the map of the servers.
module _ {S : Type 0} (now : S → Time) (client : SecretClient S)
    (range : List (String × Bool) → List (String × Bool)) where
  abbrev info : Message → Step S (Unit {0})
  info = log now update_secrets LogLevel.info

  -- The loop over the servers. `secret` is the object that was read before the loop: each round
  -- writes into its map, and the object that the server returned is dropped.
  unfoldable pub add_all : String → String → Secret → List (String × Bool) → Step S (Unit {0})
  unfolding caller_secret
  add_all namespace name secret [] = pure tt
  add_all namespace name secret ((server, t) ∷ servers) = do
    creds ←
        call (get_vcenter_creds_from_secret client namespace name server)
          (lit "Failed to get credentials for " ∷ lit server ∷ lit ": " ∷ [])
    call (add_target_vcenter_creds client secret server creds.0 creds.1)
        (msg "Failed to add target vCenter credentials: ")
    info (lit "Added credentials for target vCenter: " ∷ lit server ∷ [])
    add_all namespace name (caller_secret secret server creds.0 creds.1) servers

  unfoldable pub execute : Migration → Step S PhaseEnd
  unfolding add_all target_servers
  execute m = do
    let ref = m.spec.target_vcenter_credentials_secret
    let namespace = creds_secret_namespace ref.namespace
    info (msg "Adding target vCenter credentials")
    secret ← call (get_vsphere_creds_secret client) (msg "Failed to get vsphere-creds secret: ")
    info (msg "Retrieved vsphere-creds secret")
    info (
        lit "Reading target vCenter credentials from secret "
        ∷ lit namespace
        ∷ lit "/"
        ∷ lit ref.name
        ∷ [])
    add_all namespace ref.name secret (range (target_servers m.spec.failure_domains []))
    finish PhaseStatus.completed (msg "Successfully added target vCenter credentials") 100 0 none

  unfoldable pub validate : Migration → Exec S (Unit {0})
  validate m =
      if m.spec.target_vcenter_credentials_secret.name == ""
      then raise (errorf (msg "target vCenter credentials secret name is empty"))
      else if length m.spec.failure_domains == 0
      then raise (errorf (msg "no failure domains specified"))
      else pure_exec tt

  unfoldable pub update_secrets_body : PhaseBody S
  unfolding execute validate run roll_back
  update_secrets_body = record {
    validate = validate;
    execute = λ m. run (execute m) m;
    rollback = roll_back (pure_exec tt);
  }
