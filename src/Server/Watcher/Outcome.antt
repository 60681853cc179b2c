-- ===== src/Server/Watcher/Outcome.antt =====
-- server/summary-spool-watcher.go: how the result of a poll and the state of the watcher agree.
use fraglands.Prelude.{◌≡◌, Bool, true, false, Option, some, List, [], ◌∷◌, arith}
use fraglands.Server.Summary.{duplicate}
use fraglands.Server.Ingestion.{refused}
use fraglands.Server.Watcher.{
  ingest_refused, PollError, context_ended, refusal, is_stopped, Entry, Listing, missing, failed,
  entries, Gate, Spool, refuse, ingest_file, poll_entry, poll_entries, poll_once,
}

abbrev pub is_refusal : {E : Type 0} → Option (PollError E) → Bool
is_refusal (some (refusal _ _)) = true
is_refusal _ = false

abbrev pub is_ended : {E : Type 0} → Option (PollError E) → Bool
is_ended (some context_ended) = true
is_ended _ = false

-- A refusal of a file that the gate had seen before.
abbrev pub is_duplicate : {E : Type 0} → Option (PollError E) → Bool
is_duplicate (some (refusal (ingest_refused (refused duplicate)) _)) = true
is_duplicate _ = false

module _ {Data S E : Type 0} (gate : Gate Data S E) where
  abbrev Agrees : Spool S × Option (PollError E) → Type 0
  Agrees (q, r) =
      (q.watcher.terminal ≡ is_refusal r)
      × (q.watcher.stopped ≡ is_ended r)
      × (is_duplicate r ≡ false)

  poll_entry-Agrees :
      (p : Spool S) (e : Entry Data) → is_stopped p.watcher ≡ false → Agrees (poll_entry gate p e)
  unfolding poll_entry ingest_file refuse is_stopped
  poll_entry-Agrees p e h = ground arith

  poll_entries-Agrees :
      (p : Spool S) (es : List (Entry Data))
      → is_stopped p.watcher ≡ false
      → Agrees (poll_entries gate p es)
  unfolding poll_entries is_stopped
  poll_entries-Agrees p [] h = ground arith
  poll_entries-Agrees p (e ∷ es) h =
      let one = poll_entry-Agrees p e h in
      ground (arith, one, poll_entries-Agrees (poll_entry gate p e).0 es)

  -- A poll of a watcher that is neither stopped nor terminal leaves it terminal exactly where it
  -- returns a refusal, and stopped exactly where it returns the end of its context; a refusal is
  -- never for a duplicate.
  pub poll_outcome :
      (p : Spool S) (ended : Bool) (listing : Listing Data)
      → is_stopped p.watcher ≡ false
      → let (q, r) = poll_once gate p ended listing in
        (q.watcher.terminal ≡ is_refusal r)
        × (q.watcher.stopped ≡ is_ended r)
        × (is_duplicate r ≡ false)
  unfolding poll_once is_stopped
  poll_outcome p ended missing h = ground arith
  poll_outcome p ended failed h = ground arith
  poll_outcome p ended (entries es) h = ground (arith, poll_entries-Agrees p es h)
