-- ===== src/Secrets/Keys.antt =====
-- The keys of two servers in a secret of pkg/openshift/secrets.go do not clash.
use Prim.Native.String.{count}
use text.Mathlib.TextLemmas.{append_cancel_right, append_inj, length-append}
use openshift_vsphere_migrat.Base.{String, Bool, true, false, ◌≡◌, ◌≢◌, ap, arith, eq_iff}
use openshift_vsphere_migrat.Secrets.{username_key, password_key}

pub username_key-ne : (s t : String) → s ≢ t → username_key s ≢ username_key t
unfolding username_key
username_key-ne s t h e = h (append_cancel_right s t ".username" e)

pub password_key-ne : (s t : String) → s ≢ t → password_key s ≢ password_key t
unfolding password_key
password_key-ne s t h e = h (append_cancel_right s t ".password" e)

-- Both keys end in a text of nine characters, and these differ.
pub username-ne-password : (s t : String) → username_key s ≢ password_key t
unfolding username_key password_key
username-ne-password s t e = endings (
    (append_inj e
      (omega (arith, length-append s ".username", length-append t ".password", ap count e))).1)
  where
    endings : ◌≢◌ {A = String} ".username" ".password"
    endings e = let h : ◌≡◌ {A = Bool} false true = (eq_iff ".username" ".password").1 e in cc
