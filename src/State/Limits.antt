-- ===== src/State/Limits.antt =====
-- The limits that src/tensorpow/state/utxo.py declares and the transactions share.
use tensor_po_w.Base.{ℕ, Bool, ◌||◌, ◌==◌}

abbrev pub max_supply_matoms : ℕ
max_supply_matoms = 2_100_000_000_000_000

abbrev pub tx_output_payload_max_bytes : ℕ
tx_output_payload_max_bytes = 2048

abbrev pub template_pkh : ℕ
template_pkh = 0

abbrev pub template_multisig : ℕ
template_multisig = 1

abbrev pub template_hashlock : ℕ
template_hashlock = 2

-- `template_id in ACTIVE_TEMPLATES`
abbrev pub is_active : ℕ → Bool
is_active t = t == template_pkh || (t == template_multisig || t == template_hashlock)
