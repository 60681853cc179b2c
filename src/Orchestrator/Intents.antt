-- ===== src/Orchestrator/Intents.antt =====
-- orchestrator/join.go: what every history keeps of the intents and the admissions.
use text.Mathlib.TextLemmas.{append_cancel_left}
use fraglands.Prelude.{
  ℕ, suc, ◌≤◌, String, ◌≡◌, refl, subst, inl, inr, true, none, some, List, ◌==◌, string_eq, nat_eq,
  eq_iff, beq_self, arith, Option-cases, Bool-cases,
}
use fraglands.Prelude.Decimal.{decimal_inj}
use fraglands.Prelude.Dict.{get, put, get-put, get-empty}
use fraglands.Core.Grant.{Crypto, Authority}
use fraglands.Core.Intent.{JoinIntent}
use fraglands.Orchestrator.{
  Admission, AdmissionKey, Orchestrator, ReplaySource, admission_key_eq, admission_key_beq,
  admission_key_beq_iff, initial,
}
use fraglands.Orchestrator.Join.{intent_id}
use fraglands.Orchestrator.History.{Reach, here, next, Effect, leaves, adds, admits, Step-Effect}

-- A used intent of the account, for the process generation and the revision.
abbrev pub HasJoined : Orchestrator → String → ℕ → String → Type 0
HasJoined o account generation revision =
    (id : String) × (j : JoinIntent) × (get o.intents id ≡ some j)
    × (j.used ≡ true)
    × (j.account_id ≡ account)
    × (j.generation ≡ generation)
    × (j.revision_id ≡ revision)

pub record Inv (o : Orchestrator) : Type 0 where
  pub numbered :
      (id : String) (j : JoinIntent)
      → get o.intents id ≡ some j
      → (n : ℕ) × (n ≤ o.intent_seq) × (id ≡ intent_id n)
  pub joined :
      (k : AdmissionKey) (a : Admission)
      → get o.admissions k ≡ some a
      → HasJoined o k.account_id k.process_generation a.revision_id

pub initial-Inv : (sources : List ReplaySource) (grants : Authority) → Inv (initial sources grants)
initial-Inv sources grants = record {
  numbered = λ id j h. absurd (ground (arith, get-empty {V = JoinIntent} id));
  joined = λ k a h. absurd (ground (arith, get-empty {V = Admission} k));
}

-- The next intent ID is not taken.
next_free : (o : Orchestrator) → Inv o → get o.intents (intent_id (suc o.intent_seq)) ≡ none
next_free o v = elim (Option-cases (get o.intents (intent_id (suc o.intent_seq)))) [
  | inl e ↦ e
  | inr (j, e) ↦
      let (n, le, same) = v.numbered _ j e in
      let x = decimal_inj (suc o.intent_seq) n (append_cancel_left "intent-" _ _ same) in
      absurd (omega arith)
]

-- A used intent stays as it is.
pub used_stays :
    {o t : Orchestrator} (id : String) (j : JoinIntent)
    → Effect o t
    → Inv o
    → get o.intents id ≡ some j
    → j.used ≡ true
    → get t.intents id ≡ some j
used_stays id j (leaves same) v h u = rw same.0 h
used_stays {o} id j (adds i e _ _) v h u = rw e (
    ground (
      arith,
      get-put o.intents (intent_id (suc o.intent_seq)) id i,
      eq_iff (intent_id (suc o.intent_seq)) id,
      next_free o v,
    ))
used_stays {o} id j (admits d i s unused e _ _) v h u =
    rw e (ground (arith, get-put o.intents d id (record i { used = true }), eq_iff d id))

HasJoined-stays :
    {o t : Orchestrator} (account revision : String) (generation : ℕ)
    → Effect o t
    → Inv o
    → HasJoined o account generation revision
    → HasJoined t account generation revision
HasJoined-stays account revision generation f v (id, j, h, u, a_is, g_is, r_is) =
    (id, j, used_stays id j f v h u, u, a_is, g_is, r_is)

Effect-numbered :
    {o t : Orchestrator}
    → Effect o t
    → Inv o
    → (id : String) (j : JoinIntent) → get t.intents id ≡ some j
    → (n : ℕ) × (n ≤ t.intent_seq) × (id ≡ intent_id n)
Effect-numbered {o} (leaves same) v id j h =
    let (n, le, e) = v.numbered id j (subst (λ d. get d id ≡ some j) same.0 h) in
    (n, ground (arith, same.2), e)
Effect-numbered {o} {t} (adds i e _ q) v id j h =
    elim (Bool-cases (intent_id (suc o.intent_seq) == id)) [
      | inl same ↦
          (suc o.intent_seq, ground arith, ground (arith, eq_iff (intent_id (suc o.intent_seq)) id))
      | inr other ↦
          let (n, le, s) =
            v.numbered id j
              (ground (arith, stored, get-put o.intents (intent_id (suc o.intent_seq)) id i)) in
          (n, ground arith, s)
    ]
  where
    stored : get (put o.intents (intent_id (suc o.intent_seq)) i) id ≡ some j
    stored = subst (λ d. get d id ≡ some j) e h
Effect-numbered {o} {t} (admits d i s unused e _ q) v id j h = elim (Bool-cases (d == id)) [
  | inl same ↦ let (n, le, x) = v.numbered d i s in (n, ground arith, ground (arith, eq_iff d id))
  | inr other ↦
      let (n, le, x) =
        v.numbered id j
          (ground (arith, stored, get-put o.intents d id (record i { used = true }))) in
      (n, ground arith, x)
]
  where
    stored : get (put o.intents d (record i { used = true })) id ≡ some j
    stored = subst (λ x. get x id ≡ some j) e h

Effect-joined :
    {o t : Orchestrator}
    → Effect o t
    → Inv o
    → (k : AdmissionKey) (a : Admission) → get t.admissions k ≡ some a
    → HasJoined t k.account_id k.process_generation a.revision_id
Effect-joined {o} {t} (leaves same) v k a h =
    HasJoined-stays {o = o} {t = t} k.account_id a.revision_id k.process_generation (leaves same) v
      (v.joined k a (subst (λ d. get d k ≡ some a) same.1 h))
Effect-joined {o} {t} (adds i e q n) v k a h =
    HasJoined-stays {o = o} {t = t} k.account_id a.revision_id k.process_generation (adds i e q n) v
      (v.joined k a (subst (λ d. get d k ≡ some a) q h))
Effect-joined {o} {t} (admits d i s unused e q n) v k a h =
    elim (Bool-cases (admission_key_beq key k)) [
      | inl same ↦ (
        d,
        record i { used = true },
        rw e (rw get-put (rw beq_self refl)),
        refl,
        ground (arith, admission_key_beq_iff key k),
        ground (arith, admission_key_beq_iff key k),
        ground (arith, stored, get-put o.admissions key k adm),
      )
      | inr other ↦
          HasJoined-stays {o = o} {t = t} k.account_id a.revision_id k.process_generation
            (admits d i s unused e q n) v
            (v.joined k a (ground (arith, stored, get-put o.admissions key k adm)))
    ]
  where
    key : AdmissionKey
    key = record { account_id = i.account_id; process_generation = i.generation }

    adm : Admission
    adm = record {
      account_id = i.account_id;
      revision_id = i.revision_id;
      process_generation = i.generation;
    }

    stored : get (put o.admissions key adm) k ≡ some a
    stored = subst (λ x. get x k ≡ some a) q h

pub Reach-Inv : (c : Crypto) {o t : Orchestrator} → Inv o → Reach c o t → Inv t
Reach-Inv c v here = v
Reach-Inv c v (next r st) =
    let w = Reach-Inv c v r in
    let f = Step-Effect c st in
    record { numbered = Effect-numbered f w; joined = Effect-joined f w }
