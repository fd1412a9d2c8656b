-- ===== src/Kube/Locking.antt =====
-- An API server's optimistic locking, as Kubernetes documents it: an update must carry the resource
-- version that is stored, and gets a new one.
use openshift_vsphere_migrat.Base.{String, ◌≡◌, ◌≢◌, GoError, ok, err}
use openshift_vsphere_migrat.Base.Exec.{Exec}

-- One stored object. `version` reads its resource version, `stamp` sets it.
pub record Locked {S A : Type 0} (get : Exec S A) (update : A → Exec S A) (version : A → String)
    (stamp : String → A → A) (stored : S → A) : Type 0 where
  pub next : String → String
  pub next-ne : (v : String) → v ≢ next v
  pub get_stored : (s : S) → get s ≡ (ok (stored s), s)
  -- An update of the stored version is written.
  pub update_current :
      (a : A) (s : S)
      → version a ≡ version (stored s)
      → (s' : S) × (update a s ≡ (ok (stored s'), s')) × (stored s' ≡ stamp (next (version a)) a)
  -- An update of another version is refused.
  pub update_stale :
      (a : A) (s : S) → version a ≢ version (stored s) → (e : GoError) × (update a s ≡ (err e, s))
