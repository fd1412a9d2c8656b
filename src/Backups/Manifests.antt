-- ===== src/Backups/Manifests.antt =====
-- The list of manifests that pkg/backup/backup.go keeps in the status.
use openshift_vsphere_migrat.Base.{
  String, ◌≡◌, ◌≢◌, refl, sym, ap, ◌∙◌, inl, inr, Bool, true, false, ◌&&◌, List, [], ◌∷◌, Option,
  some, ok, if◌then◌else◌, ◌==◌, string_eq, find, Bool-cases, arith,
}
use openshift_vsphere_migrat.Api.{BackupManifest}
use openshift_vsphere_migrat.Backups.{is_backup_of, add_backup, get_backup, found}

-- The key of a manifest.
abbrev pub has_key : BackupManifest → BackupManifest → Bool
has_key b x = is_backup_of b.resource_type b.name b.namespace x

three :
    (t t' n n' ns ns' : String)
    → (t == t' && (n == n' && ns == ns')) ≡ true
    → (t ≡ t') × (n ≡ n') × (ns ≡ ns')
three t t' n n' ns ns' h =
    let ((e₁, e₂), e₃) = split (t == t') (n == n') (ns == ns') h in
    ((string_eq.beq_iff t t').0 e₁, (string_eq.beq_iff n n').0 e₂, (string_eq.beq_iff ns ns').0 e₃)
  where
    split : (a b c : Bool) → (a && (b && c)) ≡ true → ((a ≡ true) × (b ≡ true)) × (c ≡ true)
    split true true c h = ((refl, refl), h)
    split true false c h = cc
    split false b c h = cc

-- A manifest of the key that another has: both are found by the same keys.
is_backup_of-key :
    (t n ns : String) (b x : BackupManifest)
    → has_key b x ≡ true
    → is_backup_of t n ns x ≡ is_backup_of t n ns b
unfolding is_backup_of
is_backup_of-key t n ns b x h =
    let (e₁, e₂, e₃) =
      three x.resource_type b.resource_type x.name b.name x.namespace b.namespace h in
    λ i. e₁ i == t && (e₂ i == n && e₃ i == ns)

key_of_both :
    (t n ns : String) (b x : BackupManifest)
    → is_backup_of t n ns x ≡ true
    → is_backup_of t n ns b ≡ true
    → has_key b x ≡ true
unfolding is_backup_of
key_of_both t n ns b x h k =
    let (e₁, e₂, e₃) = three x.resource_type t x.name n x.namespace ns h in
    let (f₁, f₂, f₃) = three b.resource_type t b.name n b.namespace ns k in
    ap (λ w. w && (x.name == b.name && x.namespace == b.namespace))
      ((string_eq.beq_iff x.resource_type b.resource_type).1 (e₁ ∙ sym f₁))
    ∙ ap (λ w. w && x.namespace == b.namespace) ((string_eq.beq_iff x.name b.name).1 (e₂ ∙ sym f₂))
    ∙ (string_eq.beq_iff x.namespace b.namespace).1 (e₃ ∙ sym f₃)

find-add_backup :
    (t n ns : String) (b : BackupManifest) (xs : List BackupManifest)
    → find (is_backup_of t n ns) (add_backup b xs)
      ≡ (if is_backup_of t n ns b then some b else find (is_backup_of t n ns) xs)
unfolding add_backup
find-add_backup t n ns b [] = refl
find-add_backup t n ns b (x ∷ xs) = elim (Bool-cases (has_key b x)) [
  | inl h ↦ rw h (
      replaced (is_backup_of t n ns x) (is_backup_of t n ns b) (find (is_backup_of t n ns) xs)
        (is_backup_of-key t n ns b x h))
  | inr h ↦ rw h (
      kept (is_backup_of t n ns x) (is_backup_of t n ns b) (find (is_backup_of t n ns) xs) _
        (find-add_backup t n ns b xs)
        (λ e e'. absurd (false_true (sym h ∙ key_of_both t n ns b x e e'))))
]
  where
    false_true : ◌≢◌ {A = Bool} false true
    false_true e = cc

    replaced :
        (p q : Bool) (o : Option BackupManifest)
        → p ≡ q
        → (if q then some b else o) ≡ (if q then some b else if p then some x else o)
    replaced p q o e = ground arith

    kept :
        (p q : Bool) (o o' : Option BackupManifest)
        → o' ≡ (if q then some b else o)
        → (p ≡ true → q ≡ true → ⊥)
        → (if p then some x else o') ≡ (if q then some b else if p then some x else o)
    kept true true o o' e h = absurd (h refl refl)
    kept true false o o' e h = refl
    kept false q o o' e h = e

-- Reading a manifest after a write: the written one under its key, the old ones under any other.
pub get_backup-add_backup :
    (t n ns : String) (b : BackupManifest) (xs : List BackupManifest)
    → get_backup (add_backup b xs) t n ns
      ≡ (if is_backup_of t n ns b then ok b else get_backup xs t n ns)
unfolding get_backup
get_backup-add_backup t n ns b xs =
    ap (λ o. found o t n ns) (find-add_backup t n ns b xs)
    ∙ found_if (is_backup_of t n ns b) (find (is_backup_of t n ns) xs)
  where
    found_if :
        (c : Bool) (o : Option BackupManifest)
        → found (if c then some b else o) t n ns ≡ (if c then ok b else found o t n ns)
    found_if true o = refl
    found_if false o = refl
