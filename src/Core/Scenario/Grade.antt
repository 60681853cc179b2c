-- ===== src/Core/Scenario/Grade.antt =====
-- core/provider.go: the grades and the refusals of Compile.
use fraglands.Prelude.{
  ℕ, ◌≤◌, String, ◌≡◌, ◌≢◌, ◌↔◌, ◌⊎◌, inl, inr, refl, Bool, true, false, none, some, List, [], ◌∷◌,
  ◌++◌, nat_eq, string_eq, arith, eq_iff, Option-cases, All,
}
use fraglands.Prelude.Dict.{get}
use fraglands.Core.Scenario.{
  Omission, Capability, supported, complete, Revision, Reading, Hero, Facts, Floats, Capabilities,
  field_omission, hero_fields, field_omissions, hero_omissions, heroes_omissions,
  eligibility_omissions, collect_omissions, granted_fidelity, Outcome, compiled, refused, compile,
}

-- The field can be reconstructed: it was observed, lately enough, and the runtime supports it.
abbrev pub Usable : Capabilities → ℕ → String × Reading → Type 0
Usable caps max_freshness (name, r) =
    (r.present ≡ true)
    × (max_freshness ≢ 0)
    × (r.freshness_ticks ≤ max_freshness)
    × ((c : Capability) × (get caps name ≡ some c) × (supported c ≡ true))

-- The replay is eligible, and every kinematic field of every hero can be reconstructed.
abbrev pub Reconstructible : Capabilities → ℕ → Facts → Type 0
Reconstructible caps max_freshness f =
    (f.is_ineligible ≡ false) × All (λ h. All (Usable caps max_freshness) (hero_fields h)) f.heroes

field_omission-Usable :
    (caps : Capabilities) (max slot : ℕ) (name : String) (r : Reading)
    → (field_omission caps max slot name r ≡ none) ↔ Usable caps max (name, r)
unfolding field_omission
field_omission-Usable caps max slot name r = elim (Option-cases (get caps name)) [
  | inl e ↦ ((λ h. absurd (ground arith)), λ u. absurd (ground arith))
  | inr (c, e) ↦
      ((λ h. (ground arith, ground arith, ground arith, (c, e, ground arith))), λ u. ground arith)
]

append-eq-nil {ℓ} : {A : Type ℓ} (xs ys : List A) → ((xs ++ ys) ≡ []) ↔ ((xs ≡ []) × (ys ≡ []))
append-eq-nil [] ys = ((λ h. (refl, h)), λ h. h.1)
append-eq-nil (x ∷ xs) ys = ((λ h. cc), λ h. cc (h.0))

fields-Usable :
    (caps : Capabilities) (max slot : ℕ) (fs : List (String × Reading))
    → (field_omissions caps max slot fs ≡ []) ↔ All (Usable caps max) fs
unfolding field_omissions
fields-Usable caps max slot [] = ((λ _. tt), λ _. refl)
fields-Usable caps max slot ((name, r) ∷ fs) =
    let head = field_omission-Usable caps max slot name r in
    let rest = fields-Usable caps max slot fs in
    elim (Option-cases (field_omission caps max slot name r)) [
      | inl e ↦ ((λ h. (head.0 e, rest.0 (ground arith))), λ u. rw e (rest.1 u.1))
      | inr (o, e) ↦ ((λ h. absurd (ground arith)), λ u. absurd (ground (arith, head.1 u.0)))
    ]

heroes-Usable :
    (caps : Capabilities) (max : ℕ) (hs : List Hero)
    → (heroes_omissions hs caps max ≡ []) ↔ All (λ h. All (Usable caps max) (hero_fields h)) hs
unfolding heroes_omissions hero_omissions
heroes-Usable caps max [] = ((λ _. tt), λ _. refl)
heroes-Usable caps max (h ∷ hs) =
    let split = append-eq-nil (hero_omissions h caps max) (heroes_omissions hs caps max) in
    let head = fields-Usable caps max h.player_slot (hero_fields h) in
    let rest = heroes-Usable caps max hs in
    ((λ e. let (x, y) = split.0 e in (head.0 x, rest.0 y)), (λ u. split.1 (head.1 u.0, rest.1 u.1)))

collect-Reconstructible :
    (caps : Capabilities) (max : ℕ) (f : Facts)
    → (collect_omissions f caps max ≡ []) ↔ Reconstructible caps max f
unfolding collect_omissions
collect-Reconstructible caps max f =
    let split = append-eq-nil (eligibility_omissions f) (heroes_omissions f.heroes caps max) in
    let rest = heroes-Usable caps max f.heroes in
    (
      (λ e. let (x, y) = split.0 e in (eligible x, rest.0 y)),
      (λ u. split.1 (none_needed u.0, rest.1 u.1)),
    )
  where
    eligible : eligibility_omissions f ≡ [] → f.is_ineligible ≡ false
    eligible x = unfold eligibility_omissions in ground arith

    none_needed : f.is_ineligible ≡ false → eligibility_omissions f ≡ []
    none_needed x = unfold eligibility_omissions in rw x

abbrev pub AllRequired : List Omission → Type 0
AllRequired = All (λ o. o.required ≡ true)

append-AllRequired :
    (xs ys : List Omission) → AllRequired xs → AllRequired ys → AllRequired (xs ++ ys)
append-AllRequired [] ys hx hy = hy
append-AllRequired (x ∷ xs) ys hx hy = (hx.0, append-AllRequired xs ys hx.1 hy)

field_omission-required :
    (caps : Capabilities) (max slot : ℕ) (name : String) (r : Reading) (o : Omission)
    → field_omission caps max slot name r ≡ some o
    → o.required ≡ true
unfolding field_omission
field_omission-required caps max slot name r o h = ground arith

fields-AllRequired :
    (caps : Capabilities) (max slot : ℕ) (fs : List (String × Reading))
    → AllRequired (field_omissions caps max slot fs)
unfolding field_omissions
fields-AllRequired caps max slot [] = tt
fields-AllRequired caps max slot ((name, r) ∷ fs) =
    elim (Option-cases (field_omission caps max slot name r)) [
      | inl e ↦ rw e (fields-AllRequired caps max slot fs)
      | inr (o, e) ↦
          rw e
            (field_omission-required caps max slot name r o e, fields-AllRequired caps max slot fs)
    ]

heroes-AllRequired :
    (caps : Capabilities) (max : ℕ) (hs : List Hero) → AllRequired (heroes_omissions hs caps max)
unfolding heroes_omissions hero_omissions
heroes-AllRequired caps max [] = tt
heroes-AllRequired caps max (h ∷ hs) =
    append-AllRequired (hero_omissions h caps max) (heroes_omissions hs caps max)
      (fields-AllRequired caps max h.player_slot (hero_fields h)) (heroes-AllRequired caps max hs)

eligibility-AllRequired : (f : Facts) → AllRequired (eligibility_omissions f)
unfolding eligibility_omissions
eligibility-AllRequired f = ground arith

collect-AllRequired :
    (caps : Capabilities) (max : ℕ) (f : Facts) → AllRequired (collect_omissions f caps max)
unfolding collect_omissions
collect-AllRequired caps max f =
    append-AllRequired (eligibility_omissions f) (heroes_omissions f.heroes caps max)
      (eligibility-AllRequired f) (heroes-AllRequired caps max f.heroes)

granted_fidelity-complete :
    (os : List Omission) → AllRequired os → (granted_fidelity os ≡ complete) ↔ (os ≡ [])
unfolding granted_fidelity
granted_fidelity-complete [] r = ((λ _. refl), λ _. refl)
granted_fidelity-complete (o ∷ os) r = ((λ h. absurd (ground arith)), λ h. cc)

abbrev pub is_refused : Outcome → Bool
is_refused (compiled rev) = false
is_refused (refused r) = true

module _ (F : Floats) (current_schema : ℕ) where
  -- A compiled revision is complete exactly when the replay is eligible and every kinematic field of
  -- every hero was observed, is within the freshness budget, and is supported by the runtime; and
  -- exactly when the revision lists no omission.
  pub complete_iff :
      (f : Facts) (caps : Capabilities) (max_freshness : ℕ) (interval : F.Float) (id : String)
      (rev : Revision)
      → compile F current_schema f caps max_freshness interval id ≡ compiled rev
      → ((rev.fidelity ≡ complete) ↔ Reconstructible caps max_freshness f)
        × ((rev.fidelity ≡ complete) ↔ (rev.omissions ≡ []))
  complete_iff f caps max interval id rev h =
      let os = collect_omissions f caps max in
      let grade = granted_fidelity-complete os (collect-AllRequired caps max f) in
      let none_left = collect-Reconstructible caps max f in
      rw (fields.0, fields.1)
        (((λ x. none_left.0 (grade.0 x)), λ x. grade.1 (none_left.1 x)), grade)
    where
      fields :
          (rev.fidelity ≡ granted_fidelity (collect_omissions f caps max))
          × (rev.omissions ≡ collect_omissions f caps max)
      fields = unfold compile in ground arith

  -- Compile refuses exactly facts with no tick, of another schema version, without a revision ID, or
  -- with a tick interval that is at most zero, and otherwise builds a revision for the facts' tick.
  pub compile_refuses_iff :
      (f : Facts) (caps : Capabilities) (max_freshness : ℕ) (interval : F.Float) (id : String)
      → ((is_refused (compile F current_schema f caps max_freshness interval id) ≡ true) ↔ (
          (f.tick ≡ 0)
          ⊎ ((f.schema_version ≢ current_schema) ⊎ ((id ≡ "") ⊎ (F.le interval F.zero ≡ true)))))
        × ((rev : Revision)
            → compile F current_schema f caps max_freshness interval id ≡ compiled rev
            → (rev.takeover_tick ≡ f.tick) × (rev.id ≡ id) × (f.tick ≢ 0))
  unfolding compile
  compile_refuses_iff f caps max interval id = (
    (λ h. ground (arith, eq_iff id ""), λ h. ground (arith, eq_iff id "")),
    λ rev h. ground arith,
  )
