-- ===== src/NodeAgent/Checks.antt =====
-- `validateDesired` and `validateSnapshot` of services/node-agent/internal/application/service.go.
use vpn_platform.Prelude.{
  ℕ, String, Bool, true, not, ◌&&◌, ◌||◌, List, [], ◌∷◌, eqb, ◌==◌, if◌then◌else◌,
}
use vpn_platform.Prelude.Int.{pos, ltb_ℤ}
use vpn_platform.Prelude.Text.{codes, is_hex, match_classes, times}
use vpn_platform.NodeAgent.Types.{DesiredState, Credential, Snapshot}

abbrev dash : ℕ → Bool
dash c = eqb c b'-'

abbrev variant : ℕ → Bool
variant c = eqb c b'8' || (eqb c b'9' || (eqb c b'a' || (eqb c b'b' || (eqb c b'A' || eqb c b'B'))))

abbrev pub node_uuid_pattern : List (ℕ → Bool)
node_uuid_pattern = times 8 is_hex (
    dash
    ∷ times 4 is_hex
        (dash ∷ times 4 is_hex (dash ∷ variant ∷ times 3 is_hex (dash ∷ times 12 is_hex []))))

unfoldable pub is_uuid : String → Bool
is_uuid s = match_classes node_uuid_pattern (codes s)

-- `validateDesired` returns no error.
unfoldable pub valid_desired : DesiredState → Bool
valid_desired d =
    is_uuid d.operation_id
    && (is_uuid d.credential_id
        && (not (ltb_ℤ d.desired_revision (pos 1))
            && (d.state == "present" || d.state == "absent")))
    && (if d.state == "present"
        then d.protocol == "vless_reality" && is_uuid d.vless_client_uuid
        else d.protocol == "" && d.vless_client_uuid == "")

-- The operation that `validateSnapshot` checks a credential with.
abbrev pub desired_of : String → Credential → DesiredState
desired_of key c = record {
  operation_id = "00000000-0000-4000-8000-000000000000";
  credential_id = key;
  desired_revision = c.desired_revision;
  state = c.state;
  protocol = c.protocol;
  vless_client_uuid = c.vless_client_uuid;
}

abbrev pub valid_entry : String × Credential → Bool
valid_entry e = e.1.credential_id == e.0 && valid_desired (desired_of e.0 e.1)

unfoldable pub valid_entries : List (String × Credential) → Bool
valid_entries [] = true
valid_entries (e ∷ es) = valid_entry e && valid_entries es

-- `validateSnapshot` returns no error.
unfoldable pub valid_snapshot : Snapshot → Bool
valid_snapshot s =
    (is_uuid s.node_id && not (ltb_ℤ s.config_revision (pos 0))) && valid_entries s.credentials
