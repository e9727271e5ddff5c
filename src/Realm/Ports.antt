-- ===== src/Realm/Ports.antt =====
-- `allocatePortForRule`: where the allocated port lies.
use tyz.Prelude.{ℕ, ◌≤◌, ◌≡◌, some, inl, inr, Option-cases, Text, arith}
use tyz.Realm.{port_range, port_in_range, allocate_port_for_rule}

port_in_range-le :
    (rule_id node_id start end p : ℕ)
    → port_in_range rule_id node_id (start, end) ≡ some p
    → (start ≤ p) × (p ≤ end) × (1 ≤ p) × (p ≤ 65535)
unfolding port_in_range
port_in_range-le rule_id node_id start end p h = ground arith

-- A port that is allocated for a rule on a node lies within the node's range of ports, both ends
-- included, and is a valid port number.
pub allocate_port_for_rule-le :
    (node_ports : Text) (rule_id node_id p : ℕ)
    → allocate_port_for_rule node_ports rule_id node_id ≡ some p
    → (range : ℕ × ℕ) × (port_range node_ports ≡ some range)
      × (range.0 ≤ p)
      × (p ≤ range.1)
      × (1 ≤ p)
      × (p ≤ 65535)
unfolding allocate_port_for_rule
allocate_port_for_rule-le node_ports rule_id node_id p h =
    elim (Option-cases (port_range node_ports)) [
      | inl e ↦ ground arith
      | inr ((start, end), e) ↦
          let within = port_in_range-le rule_id node_id start end p (ground arith) in
          ((start, end), e, within.0, within.1, within.2, within.3)
    ]
