-- ===== src/Server/Summary/Fields.antt =====
-- server/terminal-summary.go: the fields of a summary and their decoding.
use fraglands.Prelude.{
  ◌<◌, ◌^◌, String, ◌≡◌, ◌≢◌, refl, sym, ap, ◌∙◌, some, List, [], ◌∷◌, string_eq, nat_eq, eq_iff,
  arith,
}
use fraglands.Server.Summary.{
  TerminalSummary, Field, version, replay_identity, revision, server_process_generation,
  attempt_generation, takeover_tick, ending, ended_at_seconds, field_name, all_fields, field_index,
  Json, decode_uint32, decode_field,
}

-- The two summaries agree on a field.
abbrev pub Same : Field → TerminalSummary → TerminalSummary → Type 0
Same version s t = s.version ≡ t.version
Same replay_identity s t = s.replay_identity ≡ t.replay_identity
Same revision s t = s.revision ≡ t.revision
Same server_process_generation s t = s.server_process_generation ≡ t.server_process_generation
Same attempt_generation s t = s.attempt_generation ≡ t.attempt_generation
Same takeover_tick s t = s.takeover_tick ≡ t.takeover_tick
Same ending s t = s.ending ≡ t.ending
Same ended_at_seconds s t = s.ended_at_seconds ≡ t.ended_at_seconds

pub Same-refl : (f : Field) (s : TerminalSummary) → Same f s s
Same-refl version s = refl
Same-refl replay_identity s = refl
Same-refl revision s = refl
Same-refl server_process_generation s = refl
Same-refl attempt_generation s = refl
Same-refl takeover_tick s = refl
Same-refl ending s = refl
Same-refl ended_at_seconds s = refl

pub Same-trans : (f : Field) (s t u : TerminalSummary) → Same f s t → Same f t u → Same f s u
Same-trans version s t u a b = a ∙ b
Same-trans replay_identity s t u a b = a ∙ b
Same-trans revision s t u a b = a ∙ b
Same-trans server_process_generation s t u a b = a ∙ b
Same-trans attempt_generation s t u a b = a ∙ b
Same-trans takeover_tick s t u a b = a ∙ b
Same-trans ending s t u a b = a ∙ b
Same-trans ended_at_seconds s t u a b = a ∙ b

pub field_index-name :
    (fs : List Field) (key : String) (f : Field) → field_index fs key ≡ some f → field_name f ≡ key
unfolding field_index
field_index-name [] key f h = absurd (ground arith)
field_index-name (g ∷ gs) key f h =
    ground (arith, eq_iff (field_name g) key, field_index-name gs key f)

pub field_index-own : (f : Field) → field_index all_fields (field_name f) ≡ some f
unfolding field_index
field_index-own version = refl
field_index-own replay_identity = refl
field_index-own revision = refl
field_index-own server_process_generation = refl
field_index-own attempt_generation = refl
field_index-own takeover_tick = refl
field_index-own ending = refl
field_index-own ended_at_seconds = refl

pub field_name-inj : (f g : Field) → field_name f ≡ field_name g → some f ≡ some g
field_name-inj f g e = sym (field_index-own f) ∙ (ap (field_index all_fields) e ∙ field_index-own g)

module _ {Data : Type 0} (J : Json Data) where
  -- The field of the summary is what the accessor of its type returns.
  abbrev pub Holds : TerminalSummary → Field → J.Value → Type 0
  Holds s version v = J.as_string v ≡ some s.version
  Holds s replay_identity v = J.as_string v ≡ some s.replay_identity
  Holds s revision v = J.as_string v ≡ some s.revision
  Holds s server_process_generation v = J.as_uint64 v ≡ some s.server_process_generation
  Holds s attempt_generation v = J.as_uint64 v ≡ some s.attempt_generation
  Holds s takeover_tick v = (J.as_uint64 v ≡ some s.takeover_tick) × (s.takeover_tick < 2 ^ 32)
  Holds s ending v = J.as_string v ≡ some s.ending
  Holds s ended_at_seconds v =
      (J.as_uint64 v ≡ some s.ended_at_seconds) × (s.ended_at_seconds < 2 ^ 32)

  pub decode-Holds :
      (s t : TerminalSummary) (f : Field) (v : J.Value)
      → decode_field J s f v ≡ some t
      → Holds t f v
  unfolding decode_field decode_uint32
  decode-Holds s t version v h = ground arith
  decode-Holds s t replay_identity v h = ground arith
  decode-Holds s t revision v h = ground arith
  decode-Holds s t server_process_generation v h = ground arith
  decode-Holds s t attempt_generation v h = ground arith
  decode-Holds s t takeover_tick v h = ground arith
  decode-Holds s t ending v h = ground arith
  decode-Holds s t ended_at_seconds v h = ground arith

  pub decode-Same :
      (s t : TerminalSummary) (f g : Field) (v : J.Value)
      → decode_field J s g v ≡ some t
      → field_name f ≢ field_name g
      → Same f s t
  unfolding decode_field
  decode-Same s t version g v h ne = ground arith
  decode-Same s t replay_identity g v h ne = ground arith
  decode-Same s t revision g v h ne = ground arith
  decode-Same s t server_process_generation g v h ne = ground arith
  decode-Same s t attempt_generation g v h ne = ground arith
  decode-Same s t takeover_tick g v h ne = ground arith
  decode-Same s t ending g v h ne = ground arith
  decode-Same s t ended_at_seconds g v h ne = ground arith

  pub Same-Holds :
      (s t : TerminalSummary) (f : Field) (v : J.Value) → Same f s t → Holds s f v → Holds t f v
  Same-Holds s t version v e h = ground arith
  Same-Holds s t replay_identity v e h = ground arith
  Same-Holds s t revision v e h = ground arith
  Same-Holds s t server_process_generation v e h = ground arith
  Same-Holds s t attempt_generation v e h = ground arith
  Same-Holds s t takeover_tick v e h = ground arith
  Same-Holds s t ending v e h = ground arith
  Same-Holds s t ended_at_seconds v e h = ground arith
