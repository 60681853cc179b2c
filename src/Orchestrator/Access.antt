-- ===== src/Orchestrator/Access.antt =====
-- orchestrator/claim.go, orchestrator/scenario.go and orchestrator/join.go: who may do what.
use fraglands.Prelude.{
  ℕ, suc, ◌≤◌, String, ◌≡◌, ◌≢◌, refl, ◌↔◌, ◌⊎◌, inl, inr, true, false, none, some, List, string_eq,
  nat_eq, eq_iff, beq_self, arith, Option-cases, Bool-cases,
}
use fraglands.Prelude.Dict.{get, get-put}
use fraglands.Core.Errors.{Result, ok, err}
use fraglands.Core.Account.{Account}
use fraglands.Core.Grant.{Crypto, Authority, ReplayRequest, verify}
use fraglands.Core.Grant.History.{Event, Reach}
use fraglands.Core.Grant.OneUse.{revoked_forever}
use fraglands.Core.Lobby.{Lobby}
use fraglands.Core.Scenario.{Revision}
use fraglands.Core.Preparation.{Preparation, ready, cancelled, mark_cancelled, transition, terminal}
use fraglands.Orchestrator.{
  OrchestratorError, unknown_preparation, forbidden, AllocatedProcess, Invitation, Orchestrator,
}
use fraglands.Orchestrator.Scenario.{owner_of, can_view, preparation, cancel_preparation}
use fraglands.Orchestrator.Claim.{
  claim, release, claim_authorized, claim_slot, claim_invited, release_slot, invite_refused,
}
use fraglands.Orchestrator.Join.{
  JoinTarget, check_status, store_intent, issue_join_intent, is_ready, lacks_slot, intent_id,
}

-- The account neither owns the preparation nor holds a slot of its lobby.
pub record LacksAccess (o : Orchestrator) (account id : String) : Type 0 where
  pub not_owner : owner_of o id ≢ account
  pub no_slot : (l : Lobby) → get o.lobbies id ≡ some l → get l.by_account account ≡ none

can_view-LacksAccess :
    (o : Orchestrator) (account id : String)
    → (can_view o account id ≡ false) ↔ LacksAccess o account id
unfolding can_view
can_view-LacksAccess o account id = (
  (λ h. record {
    not_owner = λ e. ground (arith, h, e, eq_iff (owner_of o id) account);
    no_slot = λ l e. ground (arith, h, e, eq_iff (owner_of o id) account);
  }),
  (λ h. elim (Option-cases (get o.lobbies id)) [
    | inl n ↦ ground (arith, n, h.not_owner, eq_iff (owner_of o id) account)
    | inr (l, n) ↦ ground (arith, n, h.not_owner, h.no_slot l n, eq_iff (owner_of o id) account)
  ]),
)

-- On a preparation with a lobby, Claim and Release return ErrForbidden exactly for a principal that
-- neither owns the preparation nor holds a slot of the lobby, and then change nothing; Preparation
-- returns ErrForbidden for exactly the same principals. Each of the three returns
-- ErrUnknownPreparation where there is no lobby, or no preparation.
pub outsider_refused :
    (o : Orchestrator) (p : Account) (id : String)
    → let (after_claim, slot) = claim o (some p) id in
      let (after_release, error) = release o (some p) id in
      (LacksAccess o p.id id → (after_claim ≡ o) × (after_release ≡ o))
      × ((get o.lobbies id ≢ none)
          → ((slot ≡ err forbidden) ↔ LacksAccess o p.id id)
            × ((error ≡ some forbidden) ↔ LacksAccess o p.id id))
      × ((get o.preparations id ≢ none)
          → (preparation o (some p) id ≡ err forbidden) ↔ LacksAccess o p.id id)
      × ((get o.lobbies id ≡ none)
          → (slot ≡ err unknown_preparation) × (error ≡ some unknown_preparation))
      × ((get o.preparations id ≡ none) → preparation o (some p) id ≡ err unknown_preparation)
unfolding claim release preparation claim_slot release_slot
outsider_refused o p id =
    let (out, back) = can_view-LacksAccess o p.id id in
    (
      (λ h. (ground (arith, back h), ground (arith, back h))),
      (λ l. (
        ((λ e. out (ground (arith, e, l))), (λ h. ground (arith, back h, l))),
        ((λ e. out (ground (arith, e, l))), (λ h. ground (arith, back h, l))),
      )),
      (λ q. ((λ e. out (ground (arith, e, q))), (λ h. ground (arith, back h, q)))),
      (λ l. (ground (arith, l), ground (arith, l))),
      (λ q. ground (arith, q)),
    )

-- The invitation that a principal needs, unless it is the owner.
pub record IsInvited (now : ℕ) (o : Orchestrator) (account id token : String) (i : Invitation)
    : Type 0 where
  pub stored : get o.invites token ≡ some i
  pub unused : i.used ≡ false
  pub for_preparation : i.prep_id ≡ id
  pub for_account : i.account_id ≡ account
  pub timely : now ≤ i.expires

-- The two refusals of ClaimAuthorized.
abbrev pub Refused : Result OrchestratorError ℕ → Type 0
Refused r = (r ≡ err unknown_preparation) ⊎ (r ≡ err forbidden)

-- A used invitation redeems nothing.
spent-Refused :
    (now : ℕ) (o : Orchestrator) (p : Account) (id token : String) (i : Invitation)
    → owner_of o id ≢ p.id
    → get o.invites token ≡ some i
    → i.used ≡ true
    → let (t, r) = claim_authorized now o (some p) id token in (t ≡ o) × Refused r
unfolding claim_authorized claim_invited invite_refused
spent-Refused now o p id token i outsider n used = elim (Option-cases (get o.lobbies id)) [
  | inl e ↦ (ground (arith, e), inl (ground (arith, e)))
  | inr (l, e) ↦
      let other = eq_iff (owner_of o id) p.id in
      (ground (arith, e, n, used, other), inr (ground (arith, e, n, used, other)))
]

-- ClaimAuthorized by a principal that is not the owner either is refused and changes nothing, or
-- redeems an unused invitation for just that account and that preparation whose deadline has not
-- passed. Then the invitation is used up, whether or not the lobby has a slot, and the next
-- ClaimAuthorized with the token, by anyone but the owner of the preparation named, is refused and
-- changes nothing.
pub redeemed_once :
    (now later : ℕ) (o : Orchestrator) (p q : Account) (id id' token : String)
    → owner_of o id ≢ p.id
    → let (t, r) = claim_authorized now o (some p) id token in
      ((t ≡ o) × Refused r)
      ⊎ ((i : Invitation) × IsInvited now o p.id id token i
          × (get t.invites token ≡ some (record i { used = true }))
          × (owner_of o id' ≢ q.id
              → let (t', r') = claim_authorized later t (some q) id' token in
                (t' ≡ t) × Refused r'))
unfolding claim_authorized claim_slot invite_refused claim_invited
redeemed_once now later o p q id id' token outsider = elim (Option-cases (get o.lobbies id)) [
  | inl e ↦ inl (ground arith, inl (ground arith))
  | inr (l, e) ↦ elim (Option-cases (get o.invites token)) [
    | inl n ↦
        let other = eq_iff (owner_of o id) p.id in
        inl (ground (arith, other), inr (ground (arith, other)))
    | inr (i, n) ↦ elim (Bool-cases (invite_refused now i id p.id)) [
      | inl bad ↦
          let other = eq_iff (owner_of o id) p.id in
          inl (ground (arith, other), inr (ground (arith, other)))
      | inr good ↦
          let own = eq_iff (owner_of o id) p.id in
          let stored : get (claim_authorized now o (some p) id token).0.invites token
              ≡ some (record i { used = true }) =
            ground (
              arith,
              own,
              get-put o.invites token token (record i { used = true }),
              beq_self token,
            ) in
          inr (
            i,
            ground (arith, eq_iff i.prep_id id, eq_iff i.account_id p.id),
            stored,
            (λ other.
                spent-Refused later (claim_authorized now o (some p) id token).0 q id' token
                  (record i { used = true }) (λ h. other (ground (arith, own, h))) stored refl),
          )
    ]
  ]
]

-- CancelPreparation succeeds only for the owner of a preparation that is not over. The preparation
-- is then cancelled, and its replay grant is never accepted again.
pub cancelled_for_good :
    (c : Crypto) (o t : Orchestrator) (p : Account) (id : String) (d : Authority) (es : List Event)
    (now : ℕ) (req : ReplayRequest)
    → cancel_preparation o (some p) id ≡ some (t, none)
    → get o.grants.by_preparation id ≡ some req.grant
    → Reach c t.grants es d
    → (owner_of o id ≡ p.id)
      × ((prep : Preparation) × (get o.preparations id ≡ some prep)
          × (terminal prep.state ≡ false)
          × (get t.preparations id
              ≡ some (record prep { state = cancelled; revision = none; failure = none })))
      × ((verify now d req).1 ≢ none)
unfolding cancel_preparation mark_cancelled transition
cancelled_for_good c o t p id d es now req h i r = elim (Option-cases (get o.preparations id)) [
  | inl e ↦ absurd (ground arith)
  | inr (prep, e) ↦ (
    ground (arith, eq_iff (owner_of o id) p.id),
    (
      prep,
      e,
      ground arith,
      ground (
        arith,
        get-put o.preparations id id
            (record prep { state = cancelled; revision = none; failure = none }),
        beq_self id,
      ),
    ),
    revoked_forever c o.grants t.grants d id es now req i (ground arith) r,
  )
]

-- The account holds a slot of the preparation's lobby, if there is one.
abbrev pub HasSlot : Orchestrator → String → String → Type 0
HasSlot o account id = (l : Lobby) → get o.lobbies id ≡ some l → get l.by_account account ≢ none

lacks_slot-HasSlot :
    (o : Orchestrator) (account id : String)
    → (lacks_slot (get o.lobbies id) account ≡ false) ↔ HasSlot o account id
unfolding lacks_slot
lacks_slot-HasSlot o account id = (
  (λ h l e n. ground (arith, h, e, n)),
  (λ h. elim (Option-cases (get o.lobbies id)) [
    | inl n ↦ ground (arith, n)
    | inr (l, n) ↦ elim (Option-cases (get l.by_account account)) [
      | inl m ↦ absurd (h l n m)
      | inr (x, m) ↦ ground (arith, n, m)
    ]
  ]),
)

-- IssueJoinIntent issues an intent exactly to an account with a Steam identity, for a preparation
-- that is ready and has a process that is ready and no allocation failure, where the account holds
-- a slot of the lobby if there is one. The intent is unused, is bound to the account, its Steam
-- identity, the preparation's revision and the process generation, and is stored under its ID.
pub issued_exactly :
    (o : Orchestrator) (p : Account) (id : String) (prep : Preparation) (rev : Revision)
    → get o.preparations id ≡ some prep
    → prep.revision ≡ some rev
    → ((process : AllocatedProcess)
        → p.steam_id ≢ 0
        → prep.state ≡ ready
        → get o.alloc_failures id ≡ none
        → get o.processes id ≡ some process
        → process.ready ≡ true
        → HasSlot o p.id id
        → (t : Orchestrator) × (target : JoinTarget) × (issue_join_intent o (some p) id
            ≡ some (t, ok target))
          × (get t.intents (intent_id (suc o.intent_seq)) ≡ some target.intent)
          × (target.intent.used ≡ false)
          × (target.intent.account_id ≡ p.id)
          × (target.intent.steam_id ≡ p.steam_id)
          × (target.intent.revision_id ≡ rev.id)
          × (target.intent.generation ≡ process.generation))
      × ((t : Orchestrator) (target : JoinTarget)
          → issue_join_intent o (some p) id ≡ some (t, ok target)
          → (p.steam_id ≢ 0)
            × (prep.state ≡ ready)
            × (get o.alloc_failures id ≡ none)
            × (get o.processes id ≡ some target.process)
            × (target.process.ready ≡ true)
            × HasSlot o p.id id)
unfolding issue_join_intent check_status store_intent is_ready
issued_exactly o p id prep rev h hr = (
  (λ process steam st nf hp up has. (
    (store_intent o p process rev).0,
    (store_intent o p process rev).1,
    ground (arith, (lacks_slot-HasSlot o p.id id).1 has),
    ground (
      arith,
      get-put o.intents (intent_id (suc o.intent_seq)) (intent_id (suc o.intent_seq))
          (store_intent o p process rev).1.intent,
      beq_self (intent_id (suc o.intent_seq)),
    ),
    refl,
    refl,
    refl,
    refl,
    refl,
  )),
  (λ t target e. elim (Option-cases (get o.alloc_failures id)) [
    | inr (x, f) ↦ absurd (ground arith)
    | inl f ↦ elim (Option-cases (get o.processes id)) [
      | inl n ↦ absurd (ground arith)
      | inr (process, n) ↦ (
        ground arith,
        ground arith,
        f,
        ground arith,
        ground arith,
        (lacks_slot-HasSlot o p.id id).0 (ground arith),
      )
    ]
  ]),
)
