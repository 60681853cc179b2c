-- ===== src/Server/Summary/Exact.antt =====
-- server/terminal-summary.go: the decoder against the description of what it accepts.
use fraglands.Prelude.{
  ◌≤◌, String, ◌≡◌, ◌≢◌, ◌↔◌, refl, subst, sym, ap, ◌∙◌, inl, inr, Bool, true, false, none, some,
  List, [], ◌∷◌, ◌==◌, string_eq, nat_eq, eq_iff, beq_self, arith, Option-cases, Bool-cases,
}
use fraglands.Prelude.Dict.{Dict, empty, get, put, get-put, get-empty}
use fraglands.Core.Errors.{ok}
use fraglands.Server.Summary.{
  TerminalSummary, Field, version, replay_identity, revision, server_process_generation,
  attempt_generation, takeover_tick, ending, ended_at_seconds, field_name, all_fields, field_index,
  Json, zero_summary, max_bytes, is_oversize, is_ending, decode_uint32, decode_field, visit,
  lacks_field, check_summary, parse,
}
use fraglands.Server.Summary.Fields.{Same, field_index-own, Holds}
use fraglands.Server.Summary.Sound.{
  visit-parts, times_of, value_of, AllKnown, visit-Visited, Decoded, parse_sound,
}

-- Two summaries that agree on every field are one.
Same-all : (s t : TerminalSummary) → ((f : Field) → Same f s t) → s ≡ t
Same-all s t h = ground (
  arith,
  h version,
  h replay_identity,
  h revision,
  h server_process_generation,
  h attempt_generation,
  h takeover_tick,
  h ending,
  h ended_at_seconds,
)

value-times {ℓ} :
    {V : Type ℓ} (key : String) (ms : List (String × V)) (v : V)
    → value_of key ms ≡ some v
    → times_of key ms ≢ 0
value-times key [] v h = absurd (ground arith)
value-times key ((k, w) ∷ ms) v h = λ e. ground (arith, h, e, value-times key ms v)

module _ {Data : Type 0} (J : Json Data) where
  -- A value that a summary holds can be decoded into any other.
  Holds-decodable :
      (s t : TerminalSummary) (f : Field) (v : J.Value)
      → Holds J s f v
      → decode_field J t f v ≢ none
  unfolding decode_field decode_uint32
  Holds-decodable s t version v h = λ e. ground (arith, h, e)
  Holds-decodable s t replay_identity v h = λ e. ground (arith, h, e)
  Holds-decodable s t revision v h = λ e. ground (arith, h, e)
  Holds-decodable s t server_process_generation v h = λ e. ground (arith, h, e)
  Holds-decodable s t attempt_generation v h = λ e. ground (arith, h, e)
  Holds-decodable s t takeover_tick v h = λ e. ground (arith, h, e)
  Holds-decodable s t ending v h = λ e. ground (arith, h, e)
  Holds-decodable s t ended_at_seconds v h = λ e. ground (arith, h, e)

  Holds-decodes :
      (s t : TerminalSummary) (f : Field) (v : J.Value)
      → Holds J s f v
      → (u : TerminalSummary) × (decode_field J t f v ≡ some u)
  Holds-decodes s t f v h = elim (Option-cases (decode_field J t f v)) [
    | inl n ↦ absurd (Holds-decodable s t f v h n)
    | inr found ↦ found
  ]

  Holds-Same :
      (s t : TerminalSummary) (f : Field) (v : J.Value) → Holds J s f v → Holds J t f v → Same f s t
  Holds-Same s t version v h g = ground arith
  Holds-Same s t replay_identity v h g = ground arith
  Holds-Same s t revision v h g = ground arith
  Holds-Same s t server_process_generation v h g = ground arith
  Holds-Same s t attempt_generation v h g = ground arith
  Holds-Same s t takeover_tick v h g = ground arith
  Holds-Same s t ending v h g = ground arith
  Holds-Same s t ended_at_seconds v h g = ground arith

  -- What a visit needs of the members that are left.
  abbrev Fits : Dict String Bool → TerminalSummary → List (String × J.Value) → Field → Type 0
  Fits seen s ms f =
      (times_of (field_name f) ms ≤ 1)
      × (get seen (field_name f) ≢ none → times_of (field_name f) ms ≡ 0)
      × ((v : J.Value) → value_of (field_name f) ms ≡ some v → Holds J s f v)

  visit-total :
      (ms : List (String × J.Value)) (seen : Dict String Bool) (s t : TerminalSummary)
      → AllKnown ms
      → ((f : Field) → Fits seen s ms f)
      → (seen' : Dict String Bool) × ((u : TerminalSummary) × (visit J ms seen t ≡ some (seen', u)))
  unfolding visit
  visit-total [] seen s t k h = (seen, (t, refl))
  visit-total ((key, v) ∷ ms) seen s t ((g, named), k) h =
      let (once, unseen, holds) = h g in
      let self : (key == field_name g) ≡ true = ground (arith, named, beq_self key) in
      let held = holds v (ground (arith, self)) in
      let (u, decoded) = Holds-decodes s t g v held in
      let fits : (f : Field) → Fits (put seen key true) s ms f = λ f.
        let (at_most, absent, held_) = h f in
        let after = get-put seen key (field_name f) true in
        (
          ground (arith, at_most),
          (λ e. ground (arith, at_most, absent, after, e)),
          (λ w found. elim (Bool-cases (key == field_name f)) [
            | inl same ↦
                absurd (value-times (field_name f) ms w found (ground (arith, same, at_most)))
            | inr differs ↦ held_ w (ground (arith, differs, found))
          ]),
        ) in
      let (seen', (x, rest)) = visit-total ms (put seen key true) s u k fits in
      let fresh : get seen key ≡ none = elim (Option-cases (get seen key)) [
        | inl n ↦ n
        | inr (b, n) ↦ absurd (ground (arith, self, unseen (λ e. ground (arith, named, n, e))))
      ] in
      let index : field_index all_fields key ≡ some g =
        ap (field_index all_fields) (sym named) ∙ field_index-own g in
      (seen', (x, ground (arith, index, fresh, decoded, rest)))

  check_summary-passes :
      (seen : Dict String Bool) (s : TerminalSummary)
      → lacks_field J all_fields seen ≡ false
      → (s.version ≡ "runback-attempt/v1")
        × (s.replay_identity ≢ "")
        × (s.revision ≢ "")
        × (s.server_process_generation ≢ 0)
        × (s.attempt_generation ≢ 0)
        × (is_ending s.ending ≡ true)
      → check_summary J seen s ≡ ok s
  unfolding check_summary
  check_summary-passes seen s h (known, replay, rev, server, attempt, end) = ground (
    arith,
    h,
    eq_iff s.version "runback-attempt/v1",
    eq_iff s.replay_identity "",
    eq_iff s.revision "",
    known,
    replay,
    rev,
    server,
    attempt,
    end,
  )

  seen-lacks_field :
      (seen : Dict String Bool)
      → ((f : Field) → get seen (field_name f) ≢ none)
      → lacks_field J all_fields seen ≡ false
  unfolding lacks_field
  seen-lacks_field seen h = ground (
    arith,
    h version,
    h replay_identity,
    h revision,
    h server_process_generation,
    h attempt_generation,
    h takeover_tick,
    h ending,
    h ended_at_seconds,
  )

  visit-seen :
      (f : Field) (ms : List (String × J.Value)) (seen seen' : Dict String Bool)
      (s s' : TerminalSummary)
      → visit J ms seen s ≡ some (seen', s')
      → times_of (field_name f) ms ≢ 0
      → get seen' (field_name f) ≢ none
  visit-seen f [] seen seen' s s' h n = absurd (n refl)
  visit-seen f ((key, v) ∷ ms) seen seen' s s' h n =
      let (g, named, fresh, (t, decoded, rest)) = visit-parts J key v ms seen seen' s s' h in
      elim (Bool-cases (key == field_name f)) [
        | inl same ↦
            let (old, _) = visit-Visited J f ms (put seen key true) seen' t s' rest in
            (old (λ e. absurd (ground (arith, same, get-put seen key (field_name f) true, e)))).2
        | inr differs ↦
            visit-seen f ms (put seen key true) seen' t s' rest
              (λ e. n (ground (arith, differs, e)))
      ]

  parse-passes :
      (d : Data) (ms : List (String × J.Value)) (seen : Dict String Bool) (s : TerminalSummary)
      → J.size d ≤ max_bytes
      → J.members d ≡ some ms
      → visit J ms empty zero_summary ≡ some (seen, s)
      → check_summary J seen s ≡ ok s
      → parse J d ≡ ok s
  unfolding parse is_oversize
  parse-passes d ms seen s small members visited passes =
      ground (arith, small, members, visited, passes)

  parse_complete : (d : Data) (s : TerminalSummary) → Decoded J d s → parse J d ≡ ok s
  parse_complete d s
        (small, (ms, members, known, fields), known_version, replay, rev, server, attempt, end) =
      let fits : (f : Field) → Fits empty s ms f = λ f.
        let (once, (v, found, held)) = fields f in
        (
          omega (arith, once),
          (λ e. absurd (e (get-empty {V = Bool} (field_name f)))),
          (λ w found_. subst (Holds J s f) (ground (arith, found, found_)) held),
        ) in
      let (seen, (t, visited)) = visit-total ms empty s zero_summary known fits in
      let seen_all : (f : Field) → get seen (field_name f) ≢ none = λ f.
        visit-seen f ms empty seen zero_summary t visited
          (λ e. absurd (omega (arith, (fields f).0, e))) in
      let agrees : (f : Field) → Same f t s = λ f.
        let (_, (v, found, held)) = fields f in
        let (_, (w, found_, held_)) =
          (visit-Visited J f ms empty seen zero_summary t visited).1
            (get-empty {V = Bool} (field_name f)) (seen_all f) in
        Holds-Same t s f v (subst (Holds J t f) (ground (arith, found, found_)) held_) held in
      let same = Same-all t s agrees in
      parse-passes d ms seen s small members (ground (arith, visited, same)) (
        check_summary-passes seen s (seen-lacks_field seen seen_all)
          (known_version, replay, rev, server, attempt, end))

  -- ParseTerminalSummaryArtifact returns a summary exactly where: the document is within the size
  -- bound and an object whose keys are just the eight field names, each of which occurs once; the
  -- summary holds the value of each, the tick and the seconds below 2 ^ 32; the version is the known
  -- one, the identities are not empty, the generations not 0, and the ending is one of the four.
  pub parse_exact : (d : Data) (s : TerminalSummary) → (parse J d ≡ ok s) ↔ Decoded J d s
  parse_exact d s = (parse_sound J d s, parse_complete d s)
