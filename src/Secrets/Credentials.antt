-- ===== src/Secrets/Credentials.antt =====
-- What is read back of the credentials that pkg/openshift/secrets.go writes.
use openshift_vsphere_migrat.Base.{
  String, ◌≡◌, ◌≢◌, refl, sym, ap, ◌∙◌, List, [], ◌∷◌, Option, none, some, lit, msg, errorf,
  wrapped, GoError, Result, ok, err,
}
use openshift_vsphere_migrat.Base.Exec.{◌>>=◌}
use openshift_vsphere_migrat.Base.Maps.{
  lookup, insert, remove, lookup-insert_self, lookup-insert_other, lookup-remove_self,
  lookup-remove_other,
}
use openshift_vsphere_migrat.Kube.Locking.{Locked}
use openshift_vsphere_migrat.Secrets.{
  Secret, SecretClient, creds_namespace, creds_name, username_key, password_key, entries_of,
  with_creds, caller_secret, add_missing, add_target_vcenter_creds, remove_source_vcenter_creds,
  remove_present, get_vsphere_creds_secret, get_credentials,
}
use openshift_vsphere_migrat.Secrets.Keys.{username_key-ne, password_key-ne, username-ne-password}

-- The credentials that a map has for a server.
abbrev pub creds_in : String → List (String × String) → Option String × Option String
creds_in server m = (lookup (username_key server) m, lookup (password_key server) m)

abbrev both : Option String → Option String → (e₁ e₂ : GoError) → Result (String × String)
both none p e₁ e₂ = err e₁
both (some u) none e₁ e₂ = err e₂
both (some u) (some p) e₁ e₂ = ok (u, p)

creds_in-with_creds :
    (server u p : String) (secret : Secret)
    → creds_in server (entries_of (with_creds server u p secret).entries) ≡ (some u, some p)
unfolding with_creds
creds_in-with_creds server u p secret = λ i. (
  (lookup-insert_other (password_key server) (username_key server) p
          (insert (username_key server) u (entries_of secret.entries))
          (λ e. username-ne-password server server (sym e))
        ∙ lookup-insert_self (username_key server) u (entries_of secret.entries))
      i,
  lookup-insert_self (password_key server) p
      (insert (username_key server) u (entries_of secret.entries)) i,
)

-- Another server's credentials are as they were.
creds_in-with_creds_other :
    (server other u p : String) (secret : Secret)
    → server ≢ other
    → creds_in other (entries_of (with_creds server u p secret).entries)
      ≡ creds_in other (entries_of secret.entries)
unfolding with_creds
creds_in-with_creds_other server other u p secret h = λ i. (
  (lookup-insert_other (password_key server) (username_key other) p
          (insert (username_key server) u (entries_of secret.entries))
          (λ e. username-ne-password other server (sym e))
        ∙ lookup-insert_other (username_key server) (username_key other) u
            (entries_of secret.entries) (username_key-ne server other h))
      i,
  (lookup-insert_other (password_key server) (password_key other) p
          (insert (username_key server) u (entries_of secret.entries))
          (password_key-ne server other h)
        ∙ lookup-insert_other (username_key server) (password_key other) u
            (entries_of secret.entries) (username-ne-password server other))
      i,
)

abbrev added : String → String → String → List (String × String) → List (String × String)
added server u p m = insert (password_key server) p (insert (username_key server) u m)

abbrev without_creds : String → List (String × String) → List (String × String)
without_creds server m = remove (password_key server) (remove (username_key server) m)

creds_in-without_creds :
    (server : String) (m : List (String × String))
    → creds_in server (without_creds server m) ≡ (none, none)
creds_in-without_creds server m = λ i. (
  (lookup-remove_other (password_key server) (username_key server) (remove (username_key server) m)
          (λ e. username-ne-password server server (sym e))
        ∙ lookup-remove_self (username_key server) m)
      i,
  lookup-remove_self (password_key server) (remove (username_key server) m) i,
)

creds_in-without_creds_other :
    (server other : String) (m : List (String × String))
    → server ≢ other
    → creds_in other (without_creds server m) ≡ creds_in other m
creds_in-without_creds_other server other m h = λ i. (
  (lookup-remove_other (password_key server) (username_key other) (remove (username_key server) m)
          (λ e. username-ne-password other server (sym e))
        ∙ lookup-remove_other (username_key server) (username_key other) m
            (username_key-ne server other h))
      i,
  (lookup-remove_other (password_key server) (password_key other) (remove (username_key server) m)
          (password_key-ne server other h)
        ∙ lookup-remove_other (username_key server) (password_key other) m
            (username-ne-password server other))
      i,
)

abbrev pub stamp : String → Secret → Secret
stamp v secret = record secret { resource_version = v }

-- The secret of the vSphere credentials under the server's locking.
abbrev pub LockedSecret : {S : Type 0} → SecretClient S → (S → Secret) → Type 0
LockedSecret client stored =
    Locked (client.get creds_namespace creds_name) (client.update creds_namespace)
      (λ secret. secret.resource_version) stamp stored

-- The caller's object after an add that found no user name.
pub caller_secret-missing :
    (server other u p : String) (secret : Secret)
    → lookup (username_key server) (entries_of secret.entries) ≡ none
    → server ≢ other
    → (lookup (username_key other) (entries_of (caller_secret secret server u p).entries)
        ≡ lookup (username_key other) (entries_of secret.entries))
      × ((caller_secret secret server u p).resource_version ≡ secret.resource_version)
unfolding caller_secret with_creds
caller_secret-missing server other u p secret missing h =
    rw missing (ap (λ x. x.0) (creds_in-with_creds_other server other u p secret h), refl)

module _ {S : Type 0} (client : SecretClient S) (stored : S → Secret)
    (locked : LockedSecret client stored) where
  abbrev pub stored_creds : String → S → Option String × Option String
  stored_creds server s = creds_in server (entries_of (stored s).entries)

  get_credentials-found :
      (server u p : String) (s : S)
      → stored_creds server s ≡ (some u, some p)
      → get_credentials client server s ≡ (ok (u, p), s)
  unfolding get_credentials get_vsphere_creds_secret ◌>>=◌
  get_credentials-found server u p s q =
      rw (locked.get_stored s) (rw (ap (λ x. x.0) q) (rw (ap (λ x. x.1) q) refl))

  get_credentials-missing :
      (server : String) (s : S)
      → stored_creds server s ≡ (none, none)
      → (e : GoError) × (get_credentials client server s ≡ (err e, s))
  unfolding get_credentials get_vsphere_creds_secret ◌>>=◌
  get_credentials-missing server s q = (
    errorf (lit "username not found for server " ∷ lit server ∷ []),
    rw (locked.get_stored s) (rw (ap (λ x. x.0) q) refl),
  )

  -- An add to the object that was read before is written if nothing was stored since, and refused
  -- otherwise.
  pub add_current :
      (secret : Secret) (server u p : String) (s : S)
      → lookup (username_key server) (entries_of secret.entries) ≡ none
      → secret.resource_version ≡ (stored s).resource_version
      → (s' : S) × (add_target_vcenter_creds client secret server u p s ≡ (ok (stored s'), s'))
        × ((stored s').resource_version ≡ locked.next secret.resource_version)
  unfolding add_target_vcenter_creds add_missing with_creds
  add_current secret server u p s missing same =
      let (s', q, w) = locked.update_current (with_creds server u p secret) s same in
      (s', rw missing (rw q refl), ap (λ (x : Secret). x.resource_version) w)

  pub add_stale :
      (secret : Secret) (server u p : String) (s : S)
      → lookup (username_key server) (entries_of secret.entries) ≡ none
      → secret.resource_version ≢ (stored s).resource_version
      → (e : GoError) × (add_target_vcenter_creds client secret server u p s ≡ (err e, s))
  unfolding add_target_vcenter_creds add_missing with_creds
  add_stale secret server u p s missing stale =
      let (e, q) = locked.update_stale (with_creds server u p secret) s stale in
      (wrapped (msg "failed to update secret") e, rw missing (rw q refl))

  -- A write of the secret that was just read is stored.
  add_lem :
      (server u p : String) (s : S)
      → lookup (username_key server) (entries_of (stored s).entries) ≡ none
      → (s' : S) × (add_target_vcenter_creds client (stored s) server u p s ≡ (ok (stored s'), s'))
        × ((stored s').entries ≡ (with_creds server u p (stored s)).entries)
  unfolding add_target_vcenter_creds add_missing with_creds
  add_lem server u p s missing =
      let (s', q, w) = locked.update_current (with_creds server u p (stored s)) s refl in
      (s', rw missing (rw q refl), ap (λ (x : Secret). x.entries) w)

  remove_lem :
      (server : String) (m : List (String × String)) (s : S)
      → (stored s).entries ≡ some m
      → (s' : S) × (remove_source_vcenter_creds client (stored s) server s ≡ (ok (stored s'), s'))
        × (entries_of (stored s').entries ≡ without_creds server m)
  unfolding remove_source_vcenter_creds remove_present
  remove_lem server m s present =
      let (s', q, w) =
        locked.update_current (record (stored s) { entries = some (without_creds server m) }) s
          refl in
      (s', rw present (rw q refl), ap (λ (x : Secret). entries_of x.entries) w)

  -- The secret's API server refuses stale updates. If the secret has no user name of the target, and
  -- target and source are different servers, then adding the target's credentials to the secret that
  -- is stored and then removing the source's from what is then stored succeeds; afterwards the target's
  -- credentials are those that were added, there are none of the source, and any other server has those
  -- that it had.
  pub credentials_moved :
      (source target other u p : String) (s : S)
      → source ≢ target
      → source ≢ other
      → target ≢ other
      → lookup (username_key target) (entries_of (stored s).entries) ≡ none
      → (s₁ : S) × (s₂ : S) × (add_target_vcenter_creds client (stored s) target u p s
          ≡ (ok (stored s₁), s₁))
        × (remove_source_vcenter_creds client (stored s₁) source s₁ ≡ (ok (stored s₂), s₂))
        × (get_credentials client target s₂ ≡ (ok (u, p), s₂))
        × ((e : GoError) × (get_credentials client source s₂ ≡ (err e, s₂)))
        × (stored_creds other s₂ ≡ stored_creds other s)
  unfolding with_creds
  credentials_moved source target other u p s apart h k missing =
      let m = added target u p (entries_of (stored s).entries) in
      let (s₁, q₁, w₁) = add_lem target u p s missing in
      let (s₂, q₂, w₂) = remove_lem source m s₁ w₁ in
      (
        s₁,
        s₂,
        q₁,
        q₂,
        get_credentials-found target u p s₂ (
            ap (creds_in target) w₂
            ∙ creds_in-without_creds_other source target m apart
            ∙ creds_in-with_creds target u p (stored s)),
        get_credentials-missing source s₂
            (ap (creds_in source) w₂ ∙ creds_in-without_creds source m),
        ap (creds_in other) w₂
            ∙ creds_in-without_creds_other source other m h
            ∙ creds_in-with_creds_other target other u p (stored s) k,
      )
