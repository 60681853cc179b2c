-- ===== src/Core/Scenario/LeadIn.antt =====
-- core/provider.go: the lead-in window, and the capabilities that Fraglands advertises.
use fraglands.Prelude.{
  ℕ, ◌+◌, ◌≤◌, ◌<◌, ◌^◌, ◌≡◌, ◌≢◌, ◌↔◌, refl, true, false, arith, String, All, some, ◌∷◌, [], List,
  string_eq,
}
use fraglands.Prelude.Dict.{get, put}
use fraglands.Core.Scenario.{
  Floats, Reading, Hero, Facts, Capability, supported, lead_in_start_tick, hero_fields,
  default_capabilities, kinematic, Revision, complete, compile, compiled,
}
use fraglands.Core.Scenario.Grade.{Usable, complete_iff}

-- The lead-in starts at or before the takeover, at most the converted five seconds before it, and
-- exactly that many ticks before it unless the replay starts later. The hypothesis is the order of
-- the two float64 constants.
pub lead_in_window :
    (F : Floats) (takeover : ℕ) (interval : F.Float)
    → F.lt F.ten F.five ≡ false
    → takeover < 2 ^ 32
    → let start = lead_in_start_tick F takeover interval in
      let ticks = F.to_uint32 (F.div F.five interval) in
      (start ≤ takeover)
      × (takeover ≤ start + ticks)
      × (ticks ≤ takeover → start + ticks ≡ takeover)
      × (takeover < ticks → start ≡ 0)
      × (start < 2 ^ 32)
unfolding lead_in_start_tick
lead_in_window F takeover interval h bound = ground arith

-- The reading was observed, and within the budget.
abbrev pub Fresh : ℕ → String × Reading → Type 0
Fresh max_freshness (name, r) =
    (r.present ≡ true) × (max_freshness ≢ 0) × (r.freshness_ticks ≤ max_freshness)

abbrev Covered : String × Reading → Type 0
Covered (name, r) =
    (c : Capability) × (get default_capabilities name ≡ some c) × (supported c ≡ true)

drop_support :
    (max : ℕ) (fs : List (String × Reading))
    → All (Usable default_capabilities max) fs
    → All (Fresh max) fs
drop_support max [] u = tt
drop_support max ((n, r) ∷ fs) u = ((u.0.0, u.0.1, u.0.2), drop_support max fs u.1)

add_support :
    (max : ℕ) (fs : List (String × Reading))
    → All Covered fs
    → All (Fresh max) fs
    → All (Usable default_capabilities max) fs
add_support max [] c f = tt
add_support max ((n, r) ∷ fs) c f = ((f.0.0, f.0.1, f.0.2, c.0), add_support max fs c.1 f.1)

hero-Covered : (h : Hero) → All Covered (hero_fields h)
unfolding default_capabilities supported get put
hero-Covered h =
    (covers, (covers, (covers, (covers, (covers, (covers, (covers, (covers, (covers, tt)))))))))
  where
    covers : (c : Capability) × (some kinematic ≡ some c) × (supported c ≡ true)
    covers = (kinematic, refl, refl)

heroes-Fresh :
    (max : ℕ) (hs : List Hero)
    → All (λ h. All (Usable default_capabilities max) (hero_fields h)) hs
      ↔ All (λ h. All (Fresh max) (hero_fields h)) hs
heroes-Fresh max [] = ((λ _. tt), λ _. tt)
heroes-Fresh max (h ∷ hs) =
    let rest = heroes-Fresh max hs in
    (
      (λ u. (drop_support max (hero_fields h) u.0, rest.0 u.1)),
      (λ f. (add_support max (hero_fields h) (hero-Covered h) f.0, rest.1 f.1)),
    )

-- With the capabilities that Fraglands advertises, a compiled revision is complete exactly when the
-- replay is eligible and every kinematic field of every hero was observed within the freshness
-- budget, which is not 0.
pub default_complete_iff :
    (F : Floats) (current_schema : ℕ) (f : Facts) (max_freshness : ℕ) (interval : F.Float)
    (id : String) (rev : Revision)
    → compile F current_schema f default_capabilities max_freshness interval id ≡ compiled rev
    → (rev.fidelity ≡ complete)
      ↔ ((f.is_ineligible ≡ false) × All (λ h. All (Fresh max_freshness) (hero_fields h)) f.heroes)
default_complete_iff F schema f max interval id rev h =
    let grade = (complete_iff F schema f default_capabilities max interval id rev h).0 in
    let fresh = heroes-Fresh max f.heroes in
    ((λ x. let (e, u) = grade.0 x in (e, fresh.0 u)), (λ x. grade.1 (x.0, fresh.1 x.1)))
