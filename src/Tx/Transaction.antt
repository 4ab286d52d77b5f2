-- ===== src/Tx/Transaction.antt =====
-- `class Transaction` of src/tensorpow/tx/transaction.py.
use tensor_po_w.Base.{
  ℕ, ◌≡◌, ◌++◌, [], ◌∷◌, List, not, ltb, leb, ◌==◌, length, concat, map, Result, ok,
}
use tensor_po_w.Base.{value_error, index_error, raise_if, ◌>>=◌, ◌>>◌, checked-eq-ok}
use tensor_po_w.Base.Bytes.{Bytes, to_le}
use tensor_po_w.Checks.{require_uint, u8_max, u16_max, u32_max, u64_max}
use tensor_po_w.Crypto.Primitives.{Primitives}
use tensor_po_w.Crypto.Hash.{domain_hash, tx_id as tx_id_domain, tx_sighash}
use tensor_po_w.Crypto.Signatures.{sig_type_ed25519}
use tensor_po_w.State.Outpoint
use tensor_po_w.Tx.Input
use tensor_po_w.Tx.Input.{Input}
use tensor_po_w.Tx.Output
use tensor_po_w.Tx.Output.{Output}

abbrev pub format_epoch : ℕ
format_epoch = 0

abbrev pub max_tx_bytes : ℕ
max_tx_bytes = 8192

pub record Transaction : Type 0 where
  pub version : ℕ
  pub sig_type : ℕ
  pub locktime_ms : ℕ
  pub lockheight : ℕ
  pub inputs : List Input
  pub outputs : List Output

unfoldable pub to_bytes : Transaction → Bytes
to_bytes t =
    to_le 2 t.version
    ++ (to_le 1 t.sig_type
        ++ (to_le 8 t.locktime_ms
            ++ (to_le 8 t.lockheight
                ++ (to_le 2 (length t.inputs)
                    ++ (concat (map Input.to_bytes t.inputs)
                        ++ (to_le 2 (length t.outputs)
                            ++ concat (map Output.to_bytes t.outputs)))))))

-- `Transaction.__post_init__`
unfoldable pub check : Transaction → Result (Unit {0})
check t = do
  require_uint t.version u16_max
  raise_if (not (t.version == format_epoch)) value_error
  require_uint t.sig_type u8_max
  raise_if (not (t.sig_type == sig_type_ed25519)) value_error
  require_uint t.locktime_ms u64_max
  require_uint t.lockheight u64_max
  raise_if (ltb u16_max (length t.inputs)) value_error
  raise_if (length t.outputs == 0) value_error
  raise_if (ltb u16_max (length t.outputs)) value_error
  raise_if (ltb max_tx_bytes (length (to_bytes t))) value_error

-- The call `Transaction(…)` with these fields.
unfoldable pub new : Transaction → Result Transaction
unfolding check
new t = do check t; ok t

-- `Transaction.coinbase`
unfoldable pub coinbase : List Output → ℕ → ℕ → ℕ → Result Transaction
unfolding new
coinbase outputs locktime_ms lockheight sig_type = new (record {
  version = format_epoch;
  sig_type = sig_type;
  locktime_ms = locktime_ms;
  lockheight = lockheight;
  inputs = [];
  outputs = outputs;
})

-- The input with its witness emptied, as `Input(previous_outpoint=…, sequence=…)` builds it.
abbrev pub strip : Input → Input
strip i = record i { witness = [] }

-- `mapM`: the first exception stops the tuple.
abbrev pub new_inputs : List Input → Result (List Input)
new_inputs [] = ok []
new_inputs (i ∷ is) = do i' ← Input.new (strip i); is' ← new_inputs is; ok (i' ∷ is')

unfoldable pub without_witnesses : Transaction → Result Transaction
unfolding new
without_witnesses t = do inputs ← new_inputs t.inputs; new (record t { inputs = inputs })

-- One input in `_to_bytes(empty_witnesses=True)`.
abbrev pub bare_input : Input → Bytes
bare_input i = Outpoint.to_bytes i.previous_outpoint ++ (to_le 4 i.sequence ++ to_le 2 0)

-- `_to_bytes(empty_witnesses=True)`
unfoldable pub bare_bytes : Transaction → Bytes
bare_bytes t =
    to_le 2 t.version
    ++ (to_le 1 t.sig_type
        ++ (to_le 8 t.locktime_ms
            ++ (to_le 8 t.lockheight
                ++ (to_le 2 (length t.inputs)
                    ++ (concat (map bare_input t.inputs)
                        ++ (to_le 2 (length t.outputs)
                            ++ concat (map Output.to_bytes t.outputs)))))))

-- What `sighash` hashes.
unfoldable pub sighash_preimage : Transaction → ℕ → Bytes
unfolding bare_bytes
sighash_preimage t input_index = bare_bytes t ++ to_le 4 input_index

unfoldable pub tx_id : Primitives → Transaction → Bytes
tx_id p t = domain_hash p tx_id_domain (to_bytes t)

unfoldable pub sighash : Primitives → Transaction → ℕ → Result Bytes
sighash p t input_index = do
  require_uint input_index u32_max
  raise_if (leb (length t.inputs) input_index) index_error
  ok (domain_hash p tx_sighash (sighash_preimage t input_index))

pub new-eq-ok : (t : Transaction) {t' : Transaction} → new t ≡ ok t' → (t' ≡ t) × (check t ≡ ok tt)
unfolding new
new-eq-ok t e = checked-eq-ok (check t) t e

pub new_lem : (t : Transaction) → check t ≡ ok tt → new t ≡ ok t
unfolding new
new_lem t h = rw h
