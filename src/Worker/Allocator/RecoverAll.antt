-- ===== src/Worker/Allocator/RecoverAll.antt =====
-- worker/allocator.go: the list of retained generations, and the recovery of all of them.
use fraglands.Prelude.{
  ℕ, ◌≡◌, ◌≢◌, ◌↔◌, refl, ◌⊎◌, inl, inr, true, false, none, List, [], ◌∷◌, nat_eq, ap, arith,
  Option-cases,
}
use fraglands.Prelude.Dict.{Dict, get, get-put, get-empty, IsUnique}
use fraglands.Server.Supervisor.{ProcessSpec}
use fraglands.Worker.Allocator.{
  CleanupCause, Allocator, Teardown, recover, recover_each, keys, failed_cleanup_generations,
  recover_all,
}
use fraglands.Worker.Allocator.Recovery.{
  elem, Above-elem, Ascending, elem-sort, elem-keys, sort-Ascending, recover_exact,
}

-- The retained generations are listed in ascending order without repetition, and a generation is in
-- the list exactly where it is retained.
pub generations_exact :
    (a : Allocator)
    → IsUnique a.retained.entries
    → Ascending (failed_cleanup_generations a)
      × ((g : ℕ) → (elem g (failed_cleanup_generations a) ≡ true) ↔ (get a.retained g ≢ none))
unfolding failed_cleanup_generations get
generations_exact a u = (
  sort-Ascending a.retained.entries u,
  λ g. ground (arith, elem-sort g (keys a.retained.entries), elem-keys g a.retained.entries),
)

module _ {E : Type 0} (specs : ℕ → ProcessSpec) (t : ℕ → Teardown) where
  -- What happens to one generation.
  abbrev Treated : List ℕ → Allocator → Allocator × Dict ℕ (CleanupCause E) → ℕ → Type 0
  Treated gs a (b, failures) g =
      (elem g gs ≡ false → (get b.retained g ≡ get a.retained g) × (get failures g ≡ none))
      × (elem g gs ≡ true
          → ((get failures g ≡ none) × (get b.retained g ≡ none))
            ⊎ ((get failures g ≢ none)
                × (get b.retained g ≡ get a.retained g)
                × (get a.retained g ≢ none)))

  -- One Recover, by what it does to the retained generations.
  recover-retained :
      (a : Allocator) (h g : ℕ)
      → let (b, e) = recover {E = E} specs (t h) a h in
        (e ≡ none → get b.retained h ≡ none)
        × (e ≢ none → (get b.retained h ≡ get a.retained h) × (get a.retained h ≢ none))
        × (g ≢ h → get b.retained g ≡ get a.retained g)
  recover-retained a h g =
      let (absent, fails, reaped, others) = recover_exact {E = E} specs (t h) a h in
      (
        (λ q. elim (Option-cases (get a.retained h)) [
          | inl n ↦ ground (arith, n, absent n)
          | inr (proc, n) ↦ (reaped proc n q).0
        ]),
        (λ q. (ap (λ (x : Allocator). get x.retained h) (fails q), λ n. q (absent n).1)),
        (λ ne. others g ne),
      )

  recover_each-Treated :
      (gs : List ℕ) (a : Allocator) (g : ℕ)
      → Ascending gs
      → Treated gs a (recover_each {E = E} specs t a gs) g
  unfolding recover_each
  recover_each-Treated [] a g u =
      ((λ _. (refl, get-empty {V = CleanupCause E} g)), λ h. absurd (ground arith))
  recover_each-Treated (h ∷ hs) a g (above, u) =
      let b = (recover {E = E} specs (t h) a h).0 in
      let rest = recover_each {E = E} specs t b hs in
      let one = recover-retained a h g in
      let ih = recover_each-Treated hs b g u in
      elim (Option-cases (recover {E = E} specs (t h) a h).1) [
        | inl n ↦ ground (arith, n, one, ih, Above-elem h hs above)
        | inr (x, n) ↦ ground (arith, n, one, ih, Above-elem h hs above, get-put rest.1 h g x)
      ]

  -- RecoverAll, on generations that are retained once each: a generation is in the map of failures
  -- exactly where it is still retained behind it, and then by the same handle as before; none is
  -- retained that was not.
  pub recover_all_exact :
      (a : Allocator)
      → IsUnique a.retained.entries
      → let (b, failures) = recover_all {E = E} specs t a in
        (g : ℕ)
        → ((get failures g ≢ none) ↔ (get b.retained g ≢ none))
          × (get b.retained g ≢ none → get b.retained g ≡ get a.retained g)
  unfolding recover_all
  recover_all_exact a u g =
      let (sorted, listed) = generations_exact a u in
      let treated = recover_each-Treated (failed_cleanup_generations a) a g sorted in
      ground (arith, listed g, treated)
