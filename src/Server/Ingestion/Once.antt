-- ===== src/Server/Ingestion/Once.antt =====
-- server/summary-ingestion.go: a sequence of ingests, and what a single one leaves.
use Prim.Native.String.{◌++◌ as ◌⧺◌, len, slice}
use text.Mathlib.TextEquality.{slice-prefix}
use fraglands.Prelude.Decimal.{decimal}
use fraglands.Prelude.{
  ◌-◌, sym, ap, ◌∙◌, ℕ, suc, ◌≤◌, String, ◌≡◌, ◌≢◌, refl, inl, inr, Bool, true, none, some, List,
  [], ◌∷◌, ◌==◌, string_eq, nat_eq, eq_iff, if◌then◌else◌, arith, Option-cases,
}
use fraglands.Prelude.Dict.{Dict, put, get-put, get-delete}
use fraglands.Core.Errors.{ok, Result-cases}
use fraglands.Core.Lease.{ServerParticipant, commit_credential}
use fraglands.Server.Summary.{
  SummaryError, TerminalSummary, Json, parse, is_artifact_name, has_prefix, has_suffix,
}
use fraglands.Server.Ingestion.{
  refused, IngestRequest, Injected, is_seen, admit_summary, commit_summary, ingest,
}

-- The name is runback_summary_gen, the decimal form of the generation, and .json.
abbrev pub IsNamed : String → ℕ → Type 0
IsNamed name generation =
    ((rest : String) × (name ≡ "runback_summary_gen" ⧺ rest))
    × (slice name (len "runback_summary_gen") (len name - len ".json") ≡ decimal generation)
    × (slice name (len name - len ".json") (len name) ≡ ".json")
    × (decimal generation ≢ "")

is_artifact_name-IsNamed :
    (name : String) (generation : ℕ)
    → is_artifact_name name generation ≡ true
    → IsNamed name generation
unfolding is_artifact_name has_prefix has_suffix
is_artifact_name-IsNamed name generation h =
    let prefix : String = "runback_summary_gen" in
    let taken : slice name 0 (len prefix) ≡ prefix =
      ground (arith, eq_iff (slice name 0 (len prefix)) prefix) in
    let (rest, e) = slice-prefix name (len prefix) in
    (
      (rest, sym e ∙ ap (λ p. p ⧺ rest) taken),
      ground
          (arith, eq_iff (slice name (len prefix) (len name - len ".json")) (decimal generation)),
      ground (arith, eq_iff (slice name (len name - len ".json") (len name)) ".json"),
      (λ n. ground (
        arith,
        n,
        eq_iff (slice name (len prefix) (len name - len ".json")) (decimal generation),
        eq_iff (slice name (len prefix) (len name - len ".json")) "",
      )),
    )

module _ {Data S E : Type 0} (J : Json Data) (env : Injected Data S E) where
  -- The number of ingests of the digest that succeed, one request after the other.
  pub times_ingested : String → Dict String Bool → S → List (IngestRequest Data) → ℕ
  times_ingested d seen s [] = 0
  times_ingested d seen s (r ∷ rs) =
      let (seen', (t, e)) = ingest J env seen r s in
      let rest = times_ingested d seen' t rs in
      elim e [ none ↦ if env.digest r.payload == d then suc rest else rest | some _ ↦ rest ]

  -- What is seen of a digest after an ingest.
  seen_after :
      (d : String) (seen : Dict String Bool) (s : S) (r : IngestRequest Data)
      → let (seen', (t, e)) = ingest J env seen r s in
        (e ≡ none → is_seen seen' d ≡ (if env.digest r.payload == d then true else is_seen seen d))
        × (e ≢ none → is_seen seen' d ≡ is_seen seen d)
        × (is_seen seen (env.digest r.payload) ≡ true → e ≢ none)
  unfolding ingest is_seen admit_summary
  seen_after d seen s r = (
    (λ h. ground (arith, get-put seen (env.digest r.payload) d true)),
    (λ h. ground (
      arith,
      get-put seen (env.digest r.payload) d true,
      get-delete (put seen (env.digest r.payload) true) (env.digest r.payload) d,
      eq_iff (env.digest r.payload) d,
    )),
    (λ h e. ground arith),
  )

  seen_ingests_none :
      (d : String) (seen : Dict String Bool) (s : S) (rs : List (IngestRequest Data))
      → is_seen seen d ≡ true
      → times_ingested d seen s rs ≡ 0
  unfolding times_ingested
  seen_ingests_none d seen s [] h = refl
  seen_ingests_none d seen s (r ∷ rs) h =
      let out = ingest J env seen r s in
      let (accepted, refused_, twice) = seen_after d seen s r in
      ground (
        arith,
        eq_iff (env.digest r.payload) d,
        accepted,
        refused_,
        twice,
        seen_ingests_none d out.0 out.1.0 rs,
      )

  -- However often and under whatever names and credentials an artifact is ingested, in any sequence
  -- of ingests, at most one ingest of its digest succeeds.
  pub ingested_once :
      (d : String) (seen : Dict String Bool) (s : S) (rs : List (IngestRequest Data))
      → times_ingested d seen s rs ≤ 1
  unfolding times_ingested
  ingested_once d seen s [] = omega arith
  ingested_once d seen s (r ∷ rs) =
      let out = ingest J env seen r s in
      let (accepted, refused_, twice) = seen_after d seen s r in
      ground
        (arith, accepted, seen_ingests_none d out.0 out.1.0 rs, ingested_once d out.0 out.1.0 rs)

  -- An Ingest that succeeds has resolved its credential, has decoded an artifact whose name is
  -- runback_summary_gen, the decimal form of its attempt generation and .json, and whose process generation is that of the participant and of the
  -- request if it names one, and has run the acceptance on just these, without an error. One that
  -- fails leaves the digests as they were, and one that the gate refuses also the acceptance's state.
  pub ingest_bound :
      (seen : Dict String Bool) (r : IngestRequest Data) (s : S)
      → let (seen', (t, e)) = ingest J env seen r s in
        (e ≡ none
          → (p : ServerParticipant) × (summary : TerminalSummary) × (env.resolve r.credential
              ≡ some p)
            × (parse J r.payload ≡ ok summary)
            × IsNamed r.artifact_name summary.attempt_generation
            × (summary.server_process_generation ≡ p.process_generation)
            × (r.expected_generation ≢ 0
                → summary.server_process_generation ≡ r.expected_generation)
            × (env.accept r.credential p summary s ≡ (t, none)))
        × (e ≢ none → (d : String) → is_seen seen' d ≡ is_seen seen d)
        × ((x : SummaryError) → e ≡ some (refused x) → t ≡ s)
  unfolding ingest admit_summary commit_summary commit_credential
  ingest_bound seen r s = (
    (λ h. elim (Option-cases (env.resolve r.credential)) [
      | inl n ↦ absurd (ground arith)
      | inr (p, n) ↦ elim (Result-cases (parse J r.payload)) [
        | inl (summary, q) ↦
            let named : is_artifact_name r.artifact_name summary.attempt_generation ≡ true =
              ground arith in
            (
              p,
              summary,
              n,
              q,
              is_artifact_name-IsNamed r.artifact_name summary.attempt_generation named,
              ground arith,
              ground arith,
              ground arith,
            )
        | inr (x, q) ↦ absurd (ground arith)
      ]
    ]),
    (λ h d. (seen_after d seen s r).1 h),
    (λ x h. ground arith),
  )
