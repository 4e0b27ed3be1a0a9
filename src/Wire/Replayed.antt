-- ===== src/Wire/Replayed.antt =====
-- crates/runner/src/wire.rs: what a replay answers.
use code_space.Prelude.{String, Option, none, some, string_keyed}
use code_space.Wire.Envelope.{WireEnvelope}

module _ {Q R V : Type 0} where
  -- The answer, under another id.
  abbrev pub again_as : String → Option (WireEnvelope Q R V) → Option (WireEnvelope Q R V)
  again_as new none = none
  again_as new (some e) = some (record e { request_id = some new })
