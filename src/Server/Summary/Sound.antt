-- ===== src/Server/Summary/Sound.antt =====
-- server/terminal-summary.go: what a decoded summary says of its document.
use fraglands.Prelude.{
  ℕ, suc, ◌≤◌, String, ◌≡◌, ◌≢◌, refl, subst, sym, ap, ◌∙◌, inl, inr, Bool, true, false, Option,
  none, some, List, [], ◌∷◌, ◌==◌, string_eq, nat_eq, eq_iff, if◌then◌else◌, arith, Option-cases,
  Bool-cases, beq_self,
}
use fraglands.Prelude.Dict.{Dict, empty, get, put, get-put, get-empty}
use fraglands.Core.Errors.{ok}
use fraglands.Server.Summary.{
  TerminalSummary, Field, version, replay_identity, revision, server_process_generation,
  attempt_generation, takeover_tick, ending, ended_at_seconds, field_name, all_fields, field_index,
  Json, zero_summary, max_bytes, is_oversize, is_ending, decode_field, visit, lacks_field,
  check_summary, parse,
}
use fraglands.Server.Summary.Fields.{
  Same, Same-refl, Same-trans, field_index-name, field_name-inj, Holds, decode-Holds, decode-Same,
  Same-Holds,
}

-- The number of members with a key, and the value of the first.
abbrev pub times_of {ℓ} : {V : Type ℓ} → String → List (String × V) → ℕ
times_of key [] = 0
times_of key ((k, v) ∷ rest) =
    let count = times_of key rest in if k == key then suc count else count

abbrev pub value_of {ℓ} : {V : Type ℓ} → String → List (String × V) → Option V
value_of key [] = none
value_of key ((k, v) ∷ rest) = let found = value_of key rest in if k == key then some v else found

abbrev pub AllKnown {ℓ} : {V : Type ℓ} → List (String × V) → Type 0
AllKnown [] = Unit
AllKnown ((k, v) ∷ rest) = ((f : Field) × (field_name f ≡ k)) × AllKnown rest

module _ {Data : Type 0} (J : Json Data) where
  -- What a visit says of one field: a field seen before does not occur again and stays; one that is
  -- seen behind it occurs once, and the summary holds its value.
  abbrev Visited :
      Field
      → List (String × J.Value)
      → Dict String Bool
      → TerminalSummary
      → Dict String Bool
      → TerminalSummary
      → Type 0
  Visited f ms seen s seen' s' =
      (get seen (field_name f) ≢ none
        → (times_of (field_name f) ms ≡ 0) × Same f s s' × (get seen' (field_name f) ≢ none))
      × (get seen (field_name f) ≡ none
          → get seen' (field_name f) ≢ none
          → (times_of (field_name f) ms ≡ 1)
            × ((v : J.Value) × (value_of (field_name f) ms ≡ some v) × Holds J s' f v))

  pub visit-parts :
      (key : String) (v : J.Value) (ms : List (String × J.Value)) (seen seen' : Dict String Bool)
      (s s' : TerminalSummary)
      → visit J ((key, v) ∷ ms) seen s ≡ some (seen', s')
      → (g : Field) × (field_name g ≡ key)
        × (get seen key ≡ none)
        × ((t : TerminalSummary) × (decode_field J s g v ≡ some t)
            × (visit J ms (put seen key true) t ≡ some (seen', s')))
  unfolding visit
  visit-parts key v ms seen seen' s s' h = elim (Option-cases (field_index all_fields key)) [
    | inl n ↦ absurd (ground (arith, n, h))
    | inr (g, n) ↦ elim (Option-cases (decode_field J s g v)) [
      | inl m ↦ absurd (ground (arith, n, m, h))
      | inr (t, m) ↦ (
        g,
        field_index-name all_fields key g n,
        ground (arith, n, m, h),
        (t, m, ground (arith, n, m, h)),
      )
    ]
  ]

  pub visit-Visited :
      (f : Field) (ms : List (String × J.Value)) (seen seen' : Dict String Bool)
      (s s' : TerminalSummary)
      → visit J ms seen s ≡ some (seen', s')
      → Visited f ms seen s seen' s'
  unfolding visit
  visit-Visited f [] seen seen' s s' h =
      let same : s ≡ s' = ground (arith, h) in
      (
        (λ was. (refl, subst (Same f s) same (Same-refl f s), (λ e. was (ground (arith, h, e))))),
        (λ fresh now. absurd (now (ground (arith, h, fresh)))),
      )
  visit-Visited f ((key, v) ∷ ms) seen seen' s s' h =
      let (g, named, fresh, (t, decoded, rest)) = visit-parts key v ms seen seen' s s' h in
      let (old, new) = visit-Visited f ms (put seen key true) seen' t s' rest in
      let name = field_name f in
      let after = get-put seen key name true in
      elim (Bool-cases (key == name)) [
        | inl same ↦
            let is : key ≡ name = (eq_iff key name).0 same in
            let (none_left, kept, _) = old (λ e. absurd (ground (arith, same, after, e))) in
            let own : Holds J t f v =
              subst (λ x. Holds J t x v) (ground (arith, field_name-inj g f (named ∙ is)))
                (decode-Holds J s t g v decoded) in
            (
              (λ was. absurd (was (ap (get seen) (sym is) ∙ fresh))),
              (λ _ _. (
                ground (arith, same, none_left),
                (v, ground (arith, same), Same-Holds J t s' f v kept own),
              )),
            )
        | inr differs ↦
            let apart : field_name f ≢ field_name g =
              λ e. absurd (ground (arith, differs, beq_self name, e ∙ named)) in
            (
              (λ was.
                  let (none_left, kept, now) = old (λ e. was (ground (arith, differs, after, e))) in
                  (
                    ground (arith, differs, none_left),
                    Same-trans f s t s' (decode-Same J s t f g v decoded apart) kept,
                    now,
                  )),
              (λ was now.
                  let (once, (w, found, held)) = new (ground (arith, differs, after, was)) now in
                  (ground (arith, differs, once), (w, ground (arith, differs, found), held))),
            )
      ]

  visit-known :
      (ms : List (String × J.Value)) (seen seen' : Dict String Bool) (s s' : TerminalSummary)
      → visit J ms seen s ≡ some (seen', s')
      → AllKnown ms
  visit-known [] seen seen' s s' h = tt
  visit-known ((key, v) ∷ ms) seen seen' s s' h =
      let (g, named, fresh, (t, decoded, rest)) = visit-parts key v ms seen seen' s s' h in
      ((g, named), visit-known ms (put seen key true) seen' t s' rest)

  check_summary-parts :
      (seen : Dict String Bool) (s t : TerminalSummary)
      → check_summary J seen s ≡ ok t
      → (s ≡ t)
        × (lacks_field J all_fields seen ≡ false)
        × (s.version ≡ "runback-attempt/v1")
        × (s.replay_identity ≢ "")
        × (s.revision ≢ "")
        × (s.server_process_generation ≢ 0)
        × (s.attempt_generation ≢ 0)
        × (is_ending s.ending ≡ true)
  unfolding check_summary
  check_summary-parts seen s t h = (
    ground (arith, h),
    ground (arith, h),
    ground (arith, h, eq_iff s.version "runback-attempt/v1"),
    (λ e. ground (arith, h, eq_iff s.replay_identity "", e)),
    (λ e. ground (arith, h, eq_iff s.revision "", e)),
    (λ e. ground (arith, h, e)),
    (λ e. ground (arith, h, e)),
    ground (arith, h),
  )

  lacks_field-seen :
      (f : Field) (seen : Dict String Bool)
      → lacks_field J all_fields seen ≡ false
      → get seen (field_name f) ≢ none
  unfolding lacks_field
  lacks_field-seen version seen h = λ e. ground (arith, h, e)
  lacks_field-seen replay_identity seen h = λ e. ground (arith, h, e)
  lacks_field-seen revision seen h = λ e. ground (arith, h, e)
  lacks_field-seen server_process_generation seen h = λ e. ground (arith, h, e)
  lacks_field-seen attempt_generation seen h = λ e. ground (arith, h, e)
  lacks_field-seen takeover_tick seen h = λ e. ground (arith, h, e)
  lacks_field-seen ending seen h = λ e. ground (arith, h, e)
  lacks_field-seen ended_at_seconds seen h = λ e. ground (arith, h, e)

  parse-parts :
      (d : Data) (s : TerminalSummary)
      → parse J d ≡ ok s
      → (J.size d ≤ max_bytes)
        × ((ms : List (String × J.Value)) × (J.members d ≡ some ms)
            × ((seen : Dict String Bool) × ((t : TerminalSummary) × (visit J ms empty zero_summary
                    ≡ some (seen, t))
                  × (check_summary J seen t ≡ ok s))))
  unfolding parse is_oversize
  parse-parts d s h = elim (Option-cases (J.members d)) [
    | inl n ↦ absurd (ground (arith, n, h))
    | inr (ms, n) ↦ elim (Option-cases (visit J ms empty zero_summary)) [
      | inl m ↦ absurd (ground (arith, n, m, h))
      | inr ((seen, t), m) ↦
          (ground (arith, n, m, h), (ms, n, (seen, (t, m, ground (arith, n, m, h)))))
    ]
  ]

  -- What a decoded summary says of its document.
  abbrev pub Decoded : Data → TerminalSummary → Type 0
  Decoded d s =
      (J.size d ≤ max_bytes)
      × ((ms : List (String × J.Value)) × (J.members d ≡ some ms)
          × AllKnown ms
          × ((f : Field)
              → (times_of (field_name f) ms ≡ 1)
                × ((v : J.Value) × (value_of (field_name f) ms ≡ some v) × Holds J s f v)))
      × (s.version ≡ "runback-attempt/v1")
      × (s.replay_identity ≢ "")
      × (s.revision ≢ "")
      × (s.server_process_generation ≢ 0)
      × (s.attempt_generation ≢ 0)
      × (is_ending s.ending ≡ true)

  -- A document that decodes to a summary is within the size bound and an object whose keys are just
  -- the eight field names, each of which occurs exactly once; the summary holds the value of each, the
  -- tick and the seconds below 2 ^ 32; the version is the known one, the identities are not empty, the
  -- generations not 0, and the ending is one of the four.
  pub parse_sound : (d : Data) (s : TerminalSummary) → parse J d ≡ ok s → Decoded d s
  parse_sound d s h =
      let (small, (ms, members, (seen, (t, visited, checked)))) = parse-parts d s h in
      let c = check_summary-parts seen t s checked in
      let known = visit-known ms empty seen zero_summary t visited in
      let fields : (f : Field)
          → (times_of (field_name f) ms ≡ 1)
            × ((v : J.Value) × (value_of (field_name f) ms ≡ some v) × Holds J t f v) =
        λ f.
          (visit-Visited f ms empty seen zero_summary t visited).1
            (get-empty {V = Bool} (field_name f)) (lacks_field-seen f seen c.1) in
      subst (Decoded d) c.0 (small, (ms, members, known, fields), c.2, c.3, c.4, c.5, c.6, c.7)
