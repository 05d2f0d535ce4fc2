-- ===== src/Scorer/Startup/Vouched.antt =====
-- When the resolver of a started scorer lets an evaluation pass (`resolver_from_env` of
-- core/scorer/src/scorer/__main__.py and `from_paths` of resolver.py).
use treasury_intent_controll.Base.{
  String, Bool, true, false, not, ◌&&◌, ◌||◌, if◌then◌else◌, arith, Option, none, some, ◌≡◌, refl,
  sym, ◌∙◌, ap, subst, ◌⊎◌, ◌↔◌, inl, inr,
}
use treasury_intent_controll.Scorer.{
  returned, is_given, basis_text, Boot, no_resolver, incomplete, configured, resolver_from_env,
}
use treasury_intent_controll.Scorer.Verdicts.{IsAllowed, resolver_from_env_iff}
use treasury_intent_controll.Scorer.Startup.{
  started, or_fail, bind_started, started_injective, or_fail-some, KeArtifactResolver, Host,
  import_wheel, from_paths, boot_resolver, verify_with, artifact_resolver,
}

same_value {ℓ} : {A : Type ℓ} (o : Option A) (a b : A) → o ≡ some a → o ≡ some b → a ≡ b
same_value o a b h k = cc

module _ {I : Type 0} (host : Host I) where
  -- The resolver holds the evidence that the settings name.
  pub record IsBuilt (artifact_dir inputs_dir exported_at : String) (r : KeArtifactResolver I)
      : Type 0 where
    pub same_dir : r.artifact_dir ≡ artifact_dir
    pub keydir : host.read_text inputs_dir "keydir.json" ≡ some r.keydir_json
    pub context : host.read_text inputs_dir "context.json" ≡ some r.context_json
    pub policy : host.read_text inputs_dir "policy.json" ≡ some r.policy_json
    pub registry : host.read_text inputs_dir "registry.json" ≡ some r.registry_json
    pub instant : host.int exported_at ≡ some r.exported_at

  IsBuilt-unique :
      (dir inputs at : String) (r s : KeArtifactResolver I)
      → IsBuilt dir inputs at r
      → IsBuilt dir inputs at s
      → r ≡ s
  IsBuilt-unique dir inputs at r s b c =
      let d = b.same_dir ∙ sym c.same_dir in
      let k = same_value _ _ _ b.keydir c.keydir in
      let x = same_value _ _ _ b.context c.context in
      let p = same_value _ _ _ b.policy c.policy in
      let g = same_value _ _ _ b.registry c.registry in
      let e = same_value _ _ _ b.instant c.instant in
      λ i. record {
        artifact_dir = d i;
        keydir_json = k i;
        context_json = x i;
        policy_json = p i;
        registry_json = g i;
        exported_at = e i;
      }

  from_paths-IsBuilt :
      (dir inputs at : String) (instant : I) (r : KeArtifactResolver I)
      → host.int at ≡ some instant
      → from_paths host dir inputs instant ≡ started r
      → IsBuilt dir inputs at r
  unfolding from_paths
  from_paths-IsBuilt dir inputs at instant r e h =
      let k = bind_started (or_fail (host.read_text inputs "keydir.json")) _ h in
      let x = bind_started (or_fail (host.read_text inputs "context.json")) _ k.2 in
      let p = bind_started (or_fail (host.read_text inputs "policy.json")) _ x.2 in
      let g = bind_started (or_fail (host.read_text inputs "registry.json")) _ p.2 in
      let w = bind_started (import_wheel host.has_wheel) _ g.2 in
      subst (λ s. IsBuilt dir inputs at s) (started_injective _ r w.2)
        (record {
          same_dir = refl;
          keydir = or_fail-some _ k.0 k.1;
          context = or_fail-some _ x.0 x.1;
          policy = or_fail-some _ p.0 p.1;
          registry = or_fail-some _ g.0 g.1;
          instant = e;
        })

  -- All three settings are given, and the resolver that they describe answers True.
  pub record Vouches (dir inputs at rule spec : Option String) : Type 0 where
    pub dir_given : is_given dir ≡ true
    pub inputs_given : is_given inputs ≡ true
    pub at_given : is_given at ≡ true
    pub resolver : KeArtifactResolver I
    pub is_built : IsBuilt (basis_text dir) (basis_text inputs) (basis_text at) resolver
    pub verifies : verify_with host resolver rule spec ≡ returned true

  -- None of the settings is given, or the request carries no hash, or its hashes verify.
  abbrev pub IsVouched :
      Option String → Option String → Option String → Option String → Option String → Type 0
  IsVouched dir inputs at rule spec =
      ((is_given dir ≡ false) × (is_given inputs ≡ false) × (is_given at ≡ false))
      ⊎ (((is_given rule || is_given spec) ≡ false) ⊎ Vouches dir inputs at rule spec)

  boot_cases :
      (dir inputs at : Option String)
      → (resolver_from_env dir inputs at ≡ no_resolver)
        ⊎ ((resolver_from_env dir inputs at ≡ incomplete)
            ⊎ (resolver_from_env dir inputs at
                ≡ configured (basis_text dir) (basis_text inputs) (basis_text at)))
  unfolding resolver_from_env
  boot_cases dir inputs at = by_tests (is_given dir) (is_given inputs) (is_given at)
    where
      by_tests :
          (a b c : Bool) {t : Boot}
          → ((if not (a || b || c)
                then no_resolver
                else if not (a && b && c)
                then incomplete
                else t)
              ≡ no_resolver)
            ⊎ (((if not (a || b || c)
                    then no_resolver
                    else if not (a && b && c)
                    then incomplete
                    else t)
                  ≡ incomplete)
                ⊎ ((if not (a || b || c)
                      then no_resolver
                      else if not (a && b && c)
                      then incomplete
                      else t)
                    ≡ t))
      by_tests a b c = ground arith

  configured-IsVouched :
      (dir inputs at rule spec : Option String) (o : Option (KeArtifactResolver I))
      → resolver_from_env dir inputs at
        ≡ configured (basis_text dir) (basis_text inputs) (basis_text at)
      → boot_resolver host (configured (basis_text dir) (basis_text inputs) (basis_text at))
        ≡ started o
      → IsAllowed (artifact_resolver host o) rule spec ↔ IsVouched dir inputs at rule spec
  unfolding boot_resolver
  configured-IsVouched dir inputs at rule spec o e h =
      let i = bind_started (or_fail (host.int (basis_text at))) _ h in
      let r = bind_started (from_paths host (basis_text dir) (basis_text inputs) i.0) _ i.2 in
      let given = (resolver_from_env_iff dir inputs at).0.0 e in
      let built = from_paths-IsBuilt _ _ _ i.0 r.0 (or_fail-some _ i.0 i.1) r.1 in
      subst
        (λ q. IsAllowed (artifact_resolver host q) rule spec ↔ IsVouched dir inputs at rule spec)
        (started_injective (some r.0) o r.2)
        (
          λ a. inr (elim a [
            | inl n ↦ inl n
            | inr v ↦ inr (record {
              dir_given = given.0;
              inputs_given = given.1;
              at_given = given.2;
              resolver = r.0;
              is_built = built;
              verifies = v;
            })
          ]),
          λ v. elim v [
            | inl none_given ↦ cc (none_given.0, given.0)
            | inr w ↦ elim w [
              | inl n ↦ inl n
              | inr x ↦ inr (
                  ap (λ s. verify_with host s rule spec)
                    (IsBuilt-unique _ _ _ r.0 x.resolver built x.is_built)
                  ∙ x.verifies)
            ]
          ],
        )

  -- What the resolver of a started scorer lets pass.
  pub boot_resolver-IsVouched :
      (dir inputs at : Option String) (o : Option (KeArtifactResolver I))
      → boot_resolver host (resolver_from_env dir inputs at) ≡ started o
      → (rule spec : Option String)
      → IsAllowed (artifact_resolver host o) rule spec ↔ IsVouched dir inputs at rule spec
  unfolding boot_resolver
  boot_resolver-IsVouched dir inputs at o h rule spec = elim (boot_cases dir inputs at) [
    | inl n ↦
        subst
          (λ q. IsAllowed (artifact_resolver host q) rule spec ↔ IsVouched dir inputs at rule spec)
          (started_injective none o (ap (λ b. boot_resolver host b) (sym n) ∙ h))
          (λ a. inl ((resolver_from_env_iff dir inputs at).1.0 n), λ v. tt)
    | inr rest ↦ elim rest [
      | inl n ↦ absurd (stopped (ap (λ b. boot_resolver host b) (sym n) ∙ h))
      | inr e ↦
          configured-IsVouched dir inputs at rule spec o e
            (ap (λ b. boot_resolver host b) (sym e) ∙ h)
    ]
  ]
    where
      stopped : boot_resolver host incomplete ≡ started o → ⊥
      stopped e = cc e
