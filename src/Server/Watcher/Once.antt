-- ===== src/Server/Watcher/Once.antt =====
-- server/summary-spool-watcher.go: what a watcher gives to its gate over any sequence of polls.
use fraglands.Prelude.{
  ℕ, suc, ◌≤◌, String, ◌≡◌, ◌≢◌, refl, ◌∙◌, ◌⊎◌, inl, inr, Bool, true, Option, none, some, List, [],
  ◌∷◌, ◌==◌, string_eq, eq_iff, arith, nat_eq, if◌then◌else◌,
}
use fraglands.Prelude.Dict.{get-put}
use fraglands.Server.Watcher.{
  PollError, watcher_stopped, watcher_terminal, stop, is_stopped, Gate, Entry, Listing, missing,
  failed, entries, Spool, is_processed, refuse, ingest_file, poll_entry, poll_entries, poll_once,
}

-- The gate with a log of the names that it is called with, the latest first.
abbrev pub logged : {Data S E : Type 0} → Gate Data S E → Gate Data (List String × S) E
logged gate seen r (log, s) =
    let (seen', (t, e)) = gate seen r s in (seen', ((r.artifact_name ∷ log, t), e))

abbrev pub count : String → List String → ℕ
count name [] = 0
count name (n ∷ log) = let rest = count name log in if n == name then suc rest else rest

-- How often the gate was called with the name.
abbrev pub times : {S : Type 0} → String → Spool (List String × S) → ℕ
times name p = count name p.store.0

module _ {Data S E : Type 0} (gate : Gate Data S E) where
  abbrev Entered :
      String → Spool (List String × S) → Spool (List String × S) × Option (PollError E) → Type 0
  Entered name p (q, r) =
      (is_processed p.watcher.processed name ≡ true → is_processed q.watcher.processed name ≡ true)
      × (is_processed p.watcher.processed name ≡ true → times name q ≡ times name p)
      × ((times name q ≡ times name p)
          ⊎ ((times name q ≡ suc (times name p))
              × ((is_processed q.watcher.processed name ≡ true)
                  ⊎ ((q.watcher.terminal ≡ true) × (r ≢ none)))))
      × (p.watcher.terminal ≡ true → q.watcher.terminal ≡ true)

  poll_entry-Entered :
      (name : String) (p : Spool (List String × S)) (e : Entry Data)
      → Entered name p (poll_entry (logged gate) p e)
  unfolding poll_entry ingest_file refuse is_processed
  poll_entry-Entered name p e =
      ground (arith, eq_iff e.name name, get-put p.watcher.processed e.name name true)

  loop_processed :
      (name : String) (p : Spool (List String × S)) (es : List (Entry Data))
      → is_processed p.watcher.processed name ≡ true
      → let q = (poll_entries (logged gate) p es).0 in
        (times name q ≡ times name p) × (is_processed q.watcher.processed name ≡ true)
  unfolding poll_entries
  loop_processed name p [] h = (refl, h)
  loop_processed name p (e ∷ es) h =
      let one = poll_entry-Entered name p e in
      let q = (poll_entry (logged gate) p e).0 in ground (arith, h, one, loop_processed name q es)

  -- A name is given to the gate once at most; then it is processed, or the watcher is terminal.
  loop_once :
      (name : String) (p : Spool (List String × S)) (es : List (Entry Data))
      → let q = (poll_entries (logged gate) p es).0 in
        ((times name q ≡ times name p)
          ⊎ ((times name q ≡ suc (times name p))
              × ((is_processed q.watcher.processed name ≡ true) ⊎ (q.watcher.terminal ≡ true))))
        × (p.watcher.terminal ≡ true → q.watcher.terminal ≡ true)
  unfolding poll_entries
  loop_once name p [] = ground arith
  loop_once name p (e ∷ es) =
      let one = poll_entry-Entered name p e in
      let q = (poll_entry (logged gate) p e).0 in
      ground (arith, one, loop_processed name q es, loop_once name q es)

-- A poll, with whether its context has ended and what it finds; or a Stop.
pub data Action (Data : Type 0) : Type 0 where
  polls : Bool → Listing Data → Action Data
  stops : Action Data

module _ {Data S E : Type 0} (gate : Gate Data S E) where
  abbrev pub act : Action Data → Spool S → Spool S
  act (polls ended listing) p = (poll_once gate p ended listing).0
  act stops p = record p { watcher = stop p.watcher }

  abbrev pub run : List (Action Data) → Spool S → Spool S
  run [] p = p
  run (a ∷ actions) p = run actions (act a p)

  act-halted :
      (p : Spool S) (a : Action Data)
      → is_stopped p.watcher ≡ true
      → (is_stopped (act a p).watcher ≡ true)
        × ((act a p).seen ≡ p.seen)
        × ((act a p).store ≡ p.store)
  unfolding poll_once is_stopped stop
  act-halted p stops h = ground arith
  act-halted p (polls ended found) h = ground arith

  -- A watcher that was stopped or that is terminal ingests nothing more and stays so: in any sequence
  -- of polls and stops, the digests and the state of the acceptance stay as they are, and every poll
  -- returns the sentinel of the stop or of the terminal refusal.
  pub halted_for_good :
      (p : Spool S) (actions : List (Action Data))
      → is_stopped p.watcher ≡ true
      → let q = run actions p in
        (is_stopped q.watcher ≡ true)
        × (q.seen ≡ p.seen)
        × (q.store ≡ p.store)
        × ((ended : Bool) (listing : Listing Data)
            → (poll_once gate q ended listing).1
              ≡ some (if q.watcher.stopped then watcher_stopped else watcher_terminal))
  unfolding poll_once is_stopped stop
  halted_for_good p [] h = (h, refl, refl, λ ended listing. ground (arith, h))
  halted_for_good p (a ∷ actions) h =
      let (still, seen, store) = act-halted p a h in
      let (halted, seen_, store_, answers) = halted_for_good (act a p) actions still in
      (halted, seen_ ∙ seen, store_ ∙ store, answers)

-- The name will not be given to the gate any more.
abbrev Over : {S : Type 0} → String → Spool S → Type 0
Over name p = (is_processed p.watcher.processed name ≡ true) ⊎ (p.watcher.terminal ≡ true)

module _ {Data S E : Type 0} (gate : Gate Data S E) where
  act-Over :
      (name : String) (p : Spool (List String × S)) (a : Action Data)
      → let q = act (logged gate) a p in
        (Over name p → (times name q ≡ times name p) × Over name q)
        × ((times name q ≡ times name p) ⊎ ((times name q ≡ suc (times name p)) × Over name q))
  unfolding poll_once stop
  act-Over name p stops = ground arith
  act-Over name p (polls ended missing) = ground arith
  act-Over name p (polls ended failed) = ground arith
  act-Over name p (polls ended (entries es)) =
      ground (arith, loop_once gate name p es, loop_processed gate name p es)

  closed_never :
      (name : String) (p : Spool (List String × S)) (actions : List (Action Data))
      → Over name p
      → times name (run (logged gate) actions p) ≡ times name p
  closed_never name p [] h = refl
  closed_never name p (a ∷ actions) h =
      let (same, later) = (act-Over name p a).0 h in
      closed_never name (act (logged gate) a p) actions later ∙ same

  -- Over any sequence of polls and stops, whatever the directory shows, whatever is read under a name
  -- and whatever the gate answers, the gate of a watcher is called with each file name once at most;
  -- with a name that the watcher has marked as processed, or any name once it is terminal, not at
  -- all.
  pub name_ingested_once :
      (name : String) (p : Spool (List String × S)) (actions : List (Action Data))
      → let q = run (logged gate) actions p in
        (times name q ≤ suc (times name p))
        × ((is_processed p.watcher.processed name ≡ true) ⊎ (p.watcher.terminal ≡ true)
            → times name q ≡ times name p)
  name_ingested_once name p [] = ground arith
  name_ingested_once name p (a ∷ actions) =
      let r = act (logged gate) a p in
      let later = name_ingested_once name r actions in
      (
        elim (act-Over name p a).1 [
          | inl same ↦ ground (arith, same, later)
          | inr (called, over) ↦ ground (arith, called, closed_never name r actions over)
        ],
        closed_never name p (a ∷ actions),
      )
