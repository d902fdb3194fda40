-- ===== src/NodeAgent/Service.antt =====
-- services/node-agent/internal/application/service.go: `NewService`, `Apply`, `Status` and
-- `CredentialState`. A mutex makes calls run one after another.
use vpn_platform.Prelude.{
  ℕ, suc, String, Bool, not, ◌&&◌, Result, ok, err, Option, none, some, List, [], ◌∷◌, ◌==◌,
  if◌then◌else◌, leb,
}
use vpn_platform.Prelude.Int.{ℤ, pos, ltb_ℤ, eqb_ℤ, ◌+ℤ◌, wrap64}
use vpn_platform.Prelude.Maps.{lookup, assign, delete}
use vpn_platform.NodeAgent.Types.{
  Failure, conflict, stale, not_applied, not_saved, not_restored, not_journaled, DesiredState,
  ApplyResult, Credential, Snapshot, JournalEntry, CredentialState,
}
use vpn_platform.NodeAgent.Checks.{is_uuid, valid_desired, valid_snapshot}
use vpn_platform.NodeAgent.Journal.{trim}

-- The Xray manager: its state, `Start` and `Apply`, which say if they succeed.
pub record Manager : Type 1 where
  pub State : Type 0
  pub start : Snapshot → State → Bool × State
  pub apply : Snapshot → State → Bool × State

-- The service with its files. A file is replaced as a whole or stays.
pub record Agent (x : Manager) : Type 0 where
  pub snapshot : Snapshot
  pub journal : List (String × JournalEntry)
  pub saved_snapshot : Snapshot
  pub saved_journal : List (String × JournalEntry)
  pub manager : x.State

-- What a call meets outside: the clock, and whether its two files can be written.
pub record Conditions : Type 0 where
  pub now : ℕ
  pub snapshot_saved : Bool
  pub journal_saved : Bool

abbrev pub new_result : DesiredState → ℤ → ℕ → ApplyResult
new_result d config_revision now = record {
  operation_id = d.operation_id;
  credential_id = d.credential_id;
  desired_revision = d.desired_revision;
  state = d.state;
  config_revision = config_revision;
  applied_at = now;
}

abbrev pub same_desired : Credential → DesiredState → Bool
same_desired c d =
    c.state == d.state && (c.protocol == d.protocol && c.vless_client_uuid == d.vless_client_uuid)

-- The credential that `Apply` stores.
abbrev pub credential_of : DesiredState → Credential
credential_of d = record {
  credential_id = d.credential_id;
  desired_revision = d.desired_revision;
  state = d.state;
  protocol = if d.state == "absent" then "" else d.protocol;
  vless_client_uuid = if d.state == "absent" then "" else d.vless_client_uuid;
}

abbrev pub next_snapshot : DesiredState → Snapshot → Snapshot
next_snapshot d s = record s {
  config_revision = wrap64 (s.config_revision +ℤ pos 1);
  credentials = assign d.credential_id (credential_of d) s.credentials;
}

abbrev pub entry_of : String → ApplyResult → JournalEntry
entry_of hash result = record {
  operation_id = result.operation_id;
  request_hash = hash;
  result = result;
  completed_at = result.applied_at;
}

-- The count that `Status` reports.
unfoldable pub active_clients : List (String × Credential) → ℕ
active_clients [] = 0
active_clients (e ∷ es) =
    let rest = active_clients es in if e.1.state == "present" then suc rest else rest

unfoldable pub credential_state : Snapshot → String → CredentialState
credential_state s id = elim (lookup id s.credentials) [
  | none ↦ record {
    credential_id = id;
    desired_revision = pos 0;
    state = "absent";
    config_revision = s.config_revision;
  }
  | some c ↦ record {
    credential_id = id;
    desired_revision = c.desired_revision;
    state = c.state;
    config_revision = s.config_revision;
  }
]

module _ (x : Manager) (max_journal : ℕ) (hash : DesiredState → String) where
  unfoldable pub record_journal :
      Conditions → String → ApplyResult → Agent x → Result Failure ApplyResult × Agent x
  record_journal w request_hash result a =
      let entries =
        trim max_journal (assign result.operation_id (entry_of request_hash result) a.journal) in
      if w.journal_saved
      then (ok result, record a { journal = entries; saved_journal = entries })
      else (err not_journaled, record a { journal = delete result.operation_id entries })

  -- The file was not written: Xray goes back to the snapshot that is still in force.
  unfoldable pub roll_back : x.State → Agent x → Result Failure ApplyResult × Agent x
  roll_back applied a =
      let restored = x.apply a.snapshot applied in
      (err (if restored.0 then not_saved else not_restored), record a { manager = restored.1 })

  -- `Apply` of a revision that is new.
  unfoldable pub advance :
      Conditions → DesiredState → Agent x → Result Failure ApplyResult × Agent x
  advance w d a =
      let next = next_snapshot d a.snapshot in
      let applied = x.apply next a.manager in
      if not applied.0
      then (err not_applied, record a { manager = applied.1 })
      else if not w.snapshot_saved
      then roll_back applied.1 a
      else record_journal w (hash d) (new_result d next.config_revision w.now)
          (record a { snapshot = next; saved_snapshot = next; manager = applied.1 })

  -- `Apply` of an operation that the journal does not hold, by the stored credential.
  unfoldable pub apply_new :
      Conditions → DesiredState → Agent x → Option Credential → Result Failure ApplyResult × Agent x
  apply_new w d a none = advance w d a
  apply_new w d a (some c) =
      if ltb_ℤ d.desired_revision c.desired_revision
      then (err stale, a)
      else if eqb_ℤ d.desired_revision c.desired_revision
      then if same_desired c d
        then record_journal w (hash d) (new_result d a.snapshot.config_revision w.now) a
        else (err conflict, a)
      else advance w d a

  unfoldable pub replay :
      DesiredState → JournalEntry → Agent x → Result Failure ApplyResult × Agent x
  replay d e a = (if e.request_hash == hash d then ok e.result else err conflict, a)

  unfoldable pub apply : Conditions → DesiredState → Agent x → Result Failure ApplyResult × Agent x
  apply w d a =
      if not (valid_desired d) then (err conflict, a) else elim (lookup d.operation_id a.journal) [
        | some e ↦ replay d e a
        | none ↦ apply_new w d a (lookup d.credential_id a.snapshot.credentials)
      ]

-- The lengths of the JSON texts of the two files in bytes, without the newline at the end.
pub record Encoding : Type 0 where
  pub snapshot_bytes : Snapshot → ℕ
  pub journal_bytes : List (String × JournalEntry) → ℕ

-- `io.LimitReader(file, 16<<20)`: what lies behind is cut off, and the text does not decode.
abbrev pub read_limit : ℕ
read_limit = 16777216

abbrev pub readable : Encoding → Snapshot → List (String × JournalEntry) → Bool
readable enc s j = leb (enc.snapshot_bytes s) read_limit && leb (enc.journal_bytes j) read_limit

-- Does `Load` of state/store.go succeed?
abbrev pub loads : Encoding → String → Snapshot → List (String × JournalEntry) → Bool
loads enc node_id s j =
    readable enc s j && (s.node_id == node_id && not (ltb_ℤ s.config_revision (pos 0)))

-- `NewService` on the files.
unfoldable pub restart : (x : Manager) → Encoding → String → String → Agent x → Option (Agent x)
restart x enc node_id version a =
    let started = x.start a.saved_snapshot a.manager in
    if (is_uuid node_id && not (version == ""))
      && (loads enc node_id a.saved_snapshot a.saved_journal
          && (valid_snapshot a.saved_snapshot && started.0))
    then some
        (record a { snapshot = a.saved_snapshot; journal = a.saved_journal; manager = started.1 })
    else none
