-- ===== src/NodeAgent/Tests.antt =====
-- A concrete node, and the theorems at it.
use vpn_platform.Prelude.{
  ◌≡◌, ◌≤◌, refl, String, Bool, true, false, some, none, if◌then◌else◌, ◌+◌, ◌*◌, List, [], ◌∷◌,
  arith, length,
}
use vpn_platform.Prelude.Int.{pos}
use vpn_platform.Prelude.Text.{match_classes, times, is_hex, in_range}
use vpn_platform.Prelude.Maps.{lookup, assign, delete}
use vpn_platform.NodeAgent.Types.{DesiredState, Snapshot, JournalEntry}
use vpn_platform.NodeAgent.Checks.{is_uuid, valid_desired, valid_entries, valid_snapshot}
use vpn_platform.NodeAgent.Journal.{oldest, trim_loop, trim}
use vpn_platform.NodeAgent.Journal.Bounds.{length-trim}
use vpn_platform.NodeAgent.Service.{
  Manager, Agent, Conditions, new_result, entry_of, credential_state, record_journal, roll_back,
  advance, apply_new, replay, apply, restart, Encoding, readable,
}
use vpn_platform.NodeAgent.Changes.{Change, apply-Change}
use vpn_platform.NodeAgent.Invariant.{IsSound, run_applies, restart-run_applies}
use vpn_platform.NodeAgent.Revisions.{NotBehind, run_applies-NotBehind}
use vpn_platform.NodeAgent.Effect.{wanted, apply_in_force}

model : Unit {0}
unfolding match_classes times is_hex in_range lookup assign delete is_uuid valid_desired
    valid_entries valid_snapshot oldest trim_loop trim credential_state record_journal roll_back
    advance apply_new replay apply restart
model = tt

-- Xray that runs.
abbrev xray : Manager
xray = record { State = Bool; start = λ s m. (true, true); apply = λ s m. (m, m) }

abbrev node : String
node = "00000000-0000-4000-8000-000000000001"

abbrev credential : String
credential = "00000000-0000-4000-8000-000000000002"

abbrev operation : String
operation = "00000000-0000-4000-8000-000000000003"

abbrev empty : Snapshot
empty = record { node_id = node; config_revision = pos 0; credentials = [] }

abbrev fresh_agent : Agent xray
fresh_agent = record {
  snapshot = empty;
  journal = [];
  saved_snapshot = empty;
  saved_journal = [];
  manager = true;
}

abbrev hash : DesiredState → String
hash d = d.operation_id

abbrev calm : Conditions
calm = record { now = 7; snapshot_saved = true; journal_saved = true }

abbrev broken : Conditions
broken = record { now = 7; snapshot_saved = false; journal_saved = true }

abbrev create : DesiredState
create = record {
  operation_id = operation;
  credential_id = credential;
  desired_revision = pos 1;
  state = "present";
  protocol = "vless_reality";
  vless_client_uuid = node;
}

abbrev remove : DesiredState
remove = record {
  operation_id = node;
  credential_id = credential;
  desired_revision = pos 2;
  state = "absent";
  protocol = "";
  vless_client_uuid = "";
}

abbrev calls : List (Conditions × DesiredState)
calls = (calm, create) ∷ (broken, remove) ∷ (calm, remove) ∷ (calm, create) ∷ []

apply-Change_example :
    Change xray 2 hash broken create fresh_agent (apply xray 2 hash broken create fresh_agent)
apply-Change_example = apply-Change xray 2 hash broken create fresh_agent

fresh_agent-IsSound : IsSound xray 0 fresh_agent
unfolding model
fresh_agent-IsSound = record {
  same = refl;
  valid = refl;
  revision = 0;
  exact = refl;
  bounded = omega arith;
}

-- A hundred bytes for each entry.
abbrev encoding : Encoding
encoding = record {
  snapshot_bytes = λ s. 100 + 100 * length s.credentials;
  journal_bytes = λ j. 100 + 100 * length j;
}

restart-run_applies_example :
    (b : Agent xray) × (restart xray encoding
        (run_applies xray 2 hash calls fresh_agent).snapshot.node_id
        "1.0"
        (run_applies xray 2 hash calls fresh_agent)
      ≡ (if readable encoding
            (run_applies xray 2 hash calls fresh_agent).snapshot
            (run_applies xray 2 hash calls fresh_agent).saved_journal
          then some b
          else none))
    × (b.snapshot ≡ (run_applies xray 2 hash calls fresh_agent).snapshot)
    × (b.journal ≡ (run_applies xray 2 hash calls fresh_agent).saved_journal)
restart-run_applies_example =
    restart-run_applies xray 2 hash encoding calls 0 fresh_agent "1.0" (omega arith)
      fresh_agent-IsSound refl (λ s m. refl)

-- The files of this history are read.
calls-readable :
    readable encoding
      (run_applies xray 2 hash calls fresh_agent).snapshot
      (run_applies xray 2 hash calls fresh_agent).saved_journal
    ≡ true
unfolding model run_applies
calls-readable = refl

run_applies-NotBehind_example :
    NotBehind
      (apply xray 2 hash calm create fresh_agent).1.snapshot.credentials
      (run_applies xray 2 hash calls
        (apply xray 2 hash calm create fresh_agent).1).snapshot.credentials
run_applies-NotBehind_example =
    run_applies-NotBehind xray 2 hash calls (apply xray 2 hash calm create fresh_agent).1

abbrev entries : List (String × JournalEntry)
entries =
    (node, entry_of "" (new_result remove (pos 2) 9))
    ∷ (operation, entry_of "" (new_result create (pos 1) 7))
    ∷ []

length-trim_example : length (trim 1 entries) ≤ 1
length-trim_example = length-trim 1 entries

apply_in_force_example :
    credential_state (apply xray 2 hash calm create fresh_agent).1.snapshot credential
    ≡ wanted create (new_result create (pos 1) 7)
unfolding model
apply_in_force_example =
    apply_in_force xray 2 hash calm create fresh_agent (apply xray 2 hash calm create fresh_agent).1
      (new_result create (pos 1) 7) refl refl
