-- ===== src/Operations/Tests.antt =====
-- Runs of the operations ledger, with the theorems at them.
use code_space.Prelude.{
  String, ◌≡◌, refl, true, false, Option, none, some, List, [], ◌∷◌, ◌==◌, string_keyed,
  if◌then◌else◌, select, all, any,
}
use code_space.Domain.Error.{ok}
use code_space.Domain.Patch.{
  OperationKind, ApplyPatchResult, PatchStatus, applied, new_result, OperationEvent, minted_event,
  finished_event,
}
use code_space.Map.{get, find, keys_where}
use code_space.Operations.Ledger.{
  Ledger, Serde, Row, Begin, begin, begin_row, into_stored, load_by_key, finish, status_lookup,
  row_events,
}
use code_space.Operations.Replays.{Call, begin_call, abandon_call, finish_call, run}
use code_space.Operations.Keys.{IsUnique, run-empty-IsUnique}
use code_space.Operations.Answers.{begin-begin}
use code_space.Operations.Finished.{status_lookup-finish}

abbrev patched : ApplyPatchResult
patched = record (new_result applied "op-1") { files = "a.txt" ∷ [] }

abbrev begun_events : List OperationEvent
begun_events = minted_event 5 ∷ []

abbrev ended_events : List OperationEvent
ended_events = minted_event 5 ∷ finished_event 9 applied ∷ []

-- A codec for the results and events of these runs.
abbrev show_result : ApplyPatchResult → String
show_result r = elim r.status [ applied ↦ "applied" | _ ↦ "unknown" ]

abbrev read_result : String → Option ApplyPatchResult
read_result t =
    if t == "applied" then some patched else some (new_result PatchStatus.unknown "op-1")

abbrev show_events : List OperationEvent → String
show_events [] = "[]"
show_events (e ∷ []) = "[minted]"
show_events (e ∷ f ∷ es) = "[minted,finished]"

abbrev read_events : String → Option (List OperationEvent)
read_events t = if t == "[minted]" then some begun_events else some ended_events

abbrev serde : Serde
serde = record {
  result_to_string = show_result;
  result_from_str = read_result;
  events_to_string = show_events;
  events_from_str = read_events;
}

abbrev begun : Ledger
begun = ("op-1", begin_row serde (some "key") "ws" "fp" "op-1" 5) ∷ []

run-empty-IsUnique_example :
    IsUnique (run serde (begin_call (some "key") "ws" "fp" "op-1" 5 ∷ abandon_call "op-1" ∷ []) [])
run-empty-IsUnique_example =
    run-empty-IsUnique serde (begin_call (some "key") "ws" "fp" "op-1" 5 ∷ abandon_call "op-1" ∷ [])

abbrev ends : List Call
ends = finish_call "op-1" patched 9 ∷ []

begin-begin_example :
    (row : Row) × (get "op-1"
        (run serde ends (begin serde (some "key") "ws" "fp" "op-1" 5 (run serde [] [])).0)
      ≡ some row)
    × (begin serde
          (some "key")
          "ws"
          "fp"
          "op-2"
          11
          (run serde ends (begin serde (some "key") "ws" "fp" "op-1" 5 (run serde [] [])).0)
        ≡ (
          run serde ends (begin serde (some "key") "ws" "fp" "op-1" 5 (run serde [] [])).0,
          ok (Begin.replayed (into_stored serde row true)),
        ))
unfolding run begin load_by_key find keys_where select get all
begin-begin_example =
    begin-begin serde [] ends "key" "ws" "fp" "op-1" 5 "ws" "fp" "op-2" 11 refl refl

status_lookup-finish_example :
    status_lookup serde
      (some "op-1")
      none
      (run serde (abandon_call "op-1" ∷ []) (finish serde "op-1" patched 9 begun).0)
    ≡ ok (record {
      operation_id = "op-1";
      status = applied;
      replayed = false;
      kind = OperationKind.patch;
      workspace_id = "ws";
      created_at = 5;
      finished_at = some 9;
      files = "a.txt" ∷ [];
      changes = [];
      events = ended_events;
    })
unfolding get row_events all any
status_lookup-finish_example =
    status_lookup-finish serde (abandon_call "op-1" ∷ []) begun "op-1"
      (begin_row serde (some "key") "ws" "fp" "op-1" 5) patched 9 refl refl refl refl refl
