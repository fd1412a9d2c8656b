-- ===== src/Phases/UpdateSecrets/Conflict.antt =====
-- `Execute` of pkg/controller/phases/update_secrets.go with more than one new target.
use openshift_vsphere_migrat.Base.{
  String, Bool, ◌≡◌, ◌≢◌, refl, sym, ap, ◌∙◌, List, [], ◌∷◌, none, ok,
}
use openshift_vsphere_migrat.Base.Maps.{lookup}
use openshift_vsphere_migrat.Api.{Time, Migration}
use openshift_vsphere_migrat.Secrets.{
  Secret, SecretClient, username_key, entries_of, caller_secret, get_vcenter_creds_from_secret,
  get_vsphere_creds_secret,
}
use openshift_vsphere_migrat.Secrets.Credentials.{
  LockedSecret, add_current, add_stale, caller_secret-missing,
}
use openshift_vsphere_migrat.Phases.Flow.{run}
use openshift_vsphere_migrat.Phases.Failing.{
  Failed, FailsAt, FailsAt-bind, FailsAt-log, FailsAt-call, FailsAt-refused, run-Failed,
}
use openshift_vsphere_migrat.Phases.UpdateSecrets.{
  add_all, execute, target_servers, creds_secret_namespace,
}

module _ {S : Type 0} (now : S → Time) (client : SecretClient S)
    (range : List (String × Bool) → List (String × Bool)) (stored : S → Secret)
    (locked : LockedSecret client stored) where
  -- The migration's secret has credentials of the server, and reading it leaves the other alone.
  abbrev pub HasCreds : String → String → String → Type 0
  HasCreds namespace name server =
      (s : S)
      → (u : String) × (p : String) × (s' : S) × (get_vcenter_creds_from_secret client namespace
            name server s
          ≡ (ok (u, p), s'))
        × (stored s' ≡ stored s)

  abbrev pub HasCredsFor : Migration → String → Type 0
  HasCredsFor m server =
      HasCreds (creds_secret_namespace m.spec.target_vcenter_credentials_secret.namespace)
        m.spec.target_vcenter_credentials_secret.name server

  stale_fails :
      (namespace name : String)
      → (secret : Secret) (b : String) → HasCreds namespace name b
      → (t : Bool) (servers : List (String × Bool)) (s : S)
      → lookup (username_key b) (entries_of secret.entries) ≡ none
      → secret.resource_version ≢ (stored s).resource_version
      → FailsAt (add_all now client range namespace name secret ((b, t) ∷ servers)) s
  unfolding add_all
  stale_fails namespace name secret b has t servers s missing stale =
      let (u, p, s', q, same) = has s in
      let (e, refused) =
        add_stale client stored locked secret b u p s' missing
          (λ h. stale (h ∙ ap (λ (x : Secret). x.resource_version) same)) in
      FailsAt-call _ _ _ s (u, p) s' q (FailsAt-refused _ _ _ s' e s' refused)

  second_fails :
      (namespace name : String)
      → (secret : Secret) (a b : String) → HasCreds namespace name a
      → HasCreds namespace name b
      → (t t' : Bool) (servers : List (String × Bool)) (s : S) → a ≢ b
      → secret.resource_version ≡ (stored s).resource_version
      → lookup (username_key a) (entries_of secret.entries) ≡ none
      → lookup (username_key b) (entries_of secret.entries) ≡ none
      → FailsAt (add_all now client range namespace name secret ((a, t) ∷ (b, t') ∷ servers)) s
  unfolding add_all
  second_fails namespace name secret a b has_a has_b t t' servers s apart current none_a none_b =
      let (u, p, s', q, same) = has_a s in
      let (s₁, written, version) =
        add_current client stored locked secret a u p s' none_a
          (current ∙ sym (ap (λ (x : Secret). x.resource_version) same)) in
      let (kept, old) = caller_secret-missing a b u p secret none_a apart in
      FailsAt-call _ _ _ s (u, p) s' q
        (FailsAt-call _ _ _ s' (stored s₁) s₁ written (
          FailsAt-log _ _ _ _ _ s₁ (
            stale_fails namespace name (caller_secret secret a u p) b has_b t' servers s₁
              (kept ∙ none_b)
              (λ e. locked.next-ne secret.resource_version (sym old ∙ e ∙ version)))))

  -- If the server of the vSphere credentials refuses stale updates, and the first two servers
  -- that the phase visits are different, have credentials and are both new to the secret, then the phase
  -- fails with an error: the second addition carries the resource version from before the first.
  pub second_target_fails :
      (m : Migration) (a b : String)
      → HasCredsFor m a
      → HasCredsFor m b
      → (t t' : Bool) (servers : List (String × Bool)) (s : S)
      → range (target_servers m.spec.failure_domains []) ≡ (a, t) ∷ (b, t') ∷ servers
      → a ≢ b
      → lookup (username_key a) (entries_of (stored s).entries) ≡ none
      → lookup (username_key b) (entries_of (stored s).entries) ≡ none
      → Failed (run (execute now client range m) m s)
  unfolding execute get_vsphere_creds_secret
  second_target_fails m a b has_a has_b t t' servers s order apart none_a none_b =
      let ref = m.spec.target_vcenter_credentials_secret in
      run-Failed (execute now client range m) m s (
        FailsAt-log _ _ _ _ _ s (
          FailsAt-call _ _ _ s (stored s) s (locked.get_stored s) (
            FailsAt-log _ _ _ _ _ s (
              FailsAt-log _ _ _ _ _ s (
                FailsAt-bind _ _ s (
                  rw order (
                    second_fails (creds_secret_namespace ref.namespace) ref.name (stored s) a b
                      has_a has_b t t' servers s apart refl none_a none_b)))))))
