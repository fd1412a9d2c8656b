-- ===== src/Tests/Cell.antt =====
-- An API server with one stored object, which refuses stale updates.
use Prim.Native.String.{count}
use text.Mathlib.TextLemmas.{length-append}
use openshift_vsphere_migrat.Base.{
  String, ◌<>◌, ◌≢◌, refl, ap, GoError, api, Reason, ok, err, ◌==◌, string_eq, if◌then◌else◌, arith,
}
use openshift_vsphere_migrat.Base.Exec.{Exec}
use openshift_vsphere_migrat.Base.Maps.{beq_of_ne}
use openshift_vsphere_migrat.Kube.Locking.{Locked}

abbrev conflict : GoError
conflict = api Reason.other "the object has been modified"

abbrev next : String → String
next v = v <> "+"

pub next-ne : (v : String) → v ≢ next v
next-ne v e = omega (arith, length-append v "+", ap count e)

-- The world is the object.
module _ {A : Type 0} (version : A → String) (stamp : String → A → A) where
  abbrev pub read : Exec A A
  read s = (ok s, s)

  abbrev pub write : A → Exec A A
  write a s =
      let fresh = stamp (next (version a)) a in
      if version a == version s then (ok fresh, fresh) else (err conflict, s)

  unfoldable pub write-Locked : Locked read write version stamp (λ s. s)
  write-Locked = record {
    next = next;
    next-ne = next-ne;
    get_stored = λ s. refl;
    update_current = λ a s e. (
      stamp (next (version a)) a,
      rw ((string_eq.beq_iff (version a) (version s)).1 e) refl,
      refl,
    );
    update_stale = λ a s h. (conflict, rw (beq_of_ne (version a) (version s) h) refl);
  }
