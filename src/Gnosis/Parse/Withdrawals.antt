-- ===== src/Gnosis/Parse/Withdrawals.antt =====
-- The multi-sig transactions that are withdrawals are the ones that are parsed.
use reserve_auditor.Prelude.{
  ℕ, ◌+◌, ◌-◌, ◌≤◌, ◌≡◌, ◌↔◌, sym, ap, ◌∙◌, false, some, List, [], ◌∷◌, ◌++◌, length, drop, take,
  take-drop, length-drop, length-take, drop-append, ltb, arith, length-append,
}
use reserve_auditor.Prelude.Text.{Text, text, text_eq_refl, eq_of_text_eq}
use reserve_auditor.Result.{ok, panic}
use reserve_auditor.Result.Inversion.{
  bind_ok, guard_ok, err_if_ok, ok_or_ok, unwrap_ok, ok_injective,
}
use reserve_auditor.Gnosis.Error.{GnosisError, api_result_parse, invalid_address}
use reserve_auditor.Gnosis.Types.{Hex}
use reserve_auditor.Gnosis.Config.{AuditedToken, AuditedSafeConfig, get_token_by_eth_contract_addr}
use reserve_auditor.Gnosis.Values.{parse_u128}
use reserve_auditor.Gnosis.Api.{
  DataDecodedParameter, ValueDecoded, MultiSigTransaction, parameters, parameter_value,
  parameter_values, value_to, value_raw, value_data,
}
use reserve_auditor.Gnosis.Parse.{
  sole, key_len, pair_of, at_0, truncated, token_of, parse_transfer, parse_aux_value,
  parse_multi_send, parse_withdrawal_with_pub_key_multi_sig_tx,
}
use reserve_auditor.Gnosis.Parse.Withdraws.{MultiSend, TokenTransfer, AuxCall, Withdraws}
use reserve_auditor.Db.Models.{GnosisSafeWithdrawal}

sole_ok : {A : Type 0} (e : GnosisError) (xs : List A) {a : A} → sole e xs ≡ ok a → xs ≡ a ∷ []
sole_ok e [] h = cc
sole_ok e (a ∷ []) h = ground arith
sole_ok e (a ∷ (b ∷ xs)) h = cc

pair_of_ok :
    {A : Type 0} (e : GnosisError) (xs : List A) {p : A × A}
    → pair_of e xs ≡ ok p
    → xs ≡ p.0 ∷ (p.1 ∷ [])
pair_of_ok e [] h = cc
pair_of_ok e (a ∷ []) h = cc
pair_of_ok e (a ∷ (b ∷ [])) h = ground arith
pair_of_ok e (a ∷ (b ∷ (c ∷ xs))) h = cc

at_0_ok : {A : Type 0} (xs : List A) {a : A} → at_0 xs ≡ ok a → (rest : List A) × (xs ≡ a ∷ rest)
at_0_ok [] h = cc
at_0_ok (a ∷ xs) h = (xs, ground arith)

MultiSend-ok :
    (tx : MultiSigTransaction) {p : ValueDecoded × ValueDecoded}
    → parse_multi_send tx ≡ ok p
    → MultiSend tx p.0 p.1
unfolding parse_multi_send
MultiSend-ok tx h =
    let (decoded, has_data, h1) = ok_or_ok tx.data_decoded api_result_parse _ h in
    let (is_multi_send, h2) = guard_ok _ api_result_parse _ h1 in
    let (param, only, h3) = bind_ok (sole api_result_parse (parameters decoded)) _ h2 in
    let (values, has_values, h4) = ok_or_ok (parameter_values param) api_result_parse _ h3 in
    record {
      decoded = decoded;
      param = param;
      has_data = has_data;
      is_multi_send = eq_of_text_eq _ _ is_multi_send;
      only_param = sole_ok api_result_parse _ only;
      two_values = has_values ∙ ap some (pair_of_ok api_result_parse values h4);
    }

of_MultiSend :
    (tx : MultiSigTransaction) (first second : ValueDecoded)
    → MultiSend tx first second
    → parse_multi_send tx ≡ ok (first, second)
unfolding parse_multi_send
of_MultiSend tx first second m =
    simp (m.has_data, m.is_multi_send, m.only_param, m.two_values, text_eq_refl (text "multiSend"))

transfer_ok :
    (safe : AuditedSafeConfig) (v : ValueDecoded) {p : AuditedToken × DataDecodedParameter}
    → parse_transfer safe v ≡ ok p
    → TokenTransfer safe v p.0 p.1
unfolding parse_transfer
transfer_ok safe v {p} h =
    let (token, audited, h1) = ok_or_ok (get_token_by_eth_contract_addr safe (value_to v)) _ _ h in
    let (decoded, has_data, h2) = ok_or_ok (value_data v) api_result_parse _ h1 in
    let (is_transfer, h3) = guard_ok _ api_result_parse _ h2 in
    let (params, two, h4) = bind_ok (pair_of api_result_parse (parameters decoded)) _ h3 in
    let both : (token, params.1) ≡ p = ok_injective (token, params.1) p h4 in
    record {
      decoded = decoded;
      recipient = params.0;
      audited = audited ∙ ap (λ (q : AuditedToken × DataDecodedParameter). some q.0) both;
      has_data = has_data;
      is_transfer = eq_of_text_eq _ _ is_transfer;
      two_params =
          pair_of_ok api_result_parse _ two
          ∙ ap (λ (q : AuditedToken × DataDecodedParameter). params.0 ∷ (q.1 ∷ [])) both;
    }

of_transfer :
    (safe : AuditedSafeConfig) (v : ValueDecoded) (token : AuditedToken) (p : DataDecodedParameter)
    → TokenTransfer safe v token p
    → parse_transfer safe v ≡ ok (token, p)
unfolding parse_transfer
of_transfer safe v token p t =
    simp (t.audited, t.has_data, t.is_transfer, t.two_params, text_eq_refl (text "transfer"))

some_injective : {A : Type 0} (a b : A) → some a ≡ some b → a ≡ b
some_injective a b h = cc

not_shorter : (a b : ℕ) → ltb a b ≡ false → b ≤ a
not_shorter a b h = ground arith

aux_ok :
    (hex : Hex) (token : AuditedToken) (v : ValueDecoded) {key : Text}
    → parse_aux_value hex token v ≡ ok key
    → AuxCall hex token v key
unfolding parse_aux_value
aux_ok hex token v {key} h =
    let (to_contract, h1) = guard_ok _ api_result_parse _ h in
    let (is_hex, h2) = guard_ok _ api_result_parse _ h1 in
    let (bytes, decodes, h3) = ok_or_ok (hex.decode (drop 2 (value_raw v))) api_result_parse _ h2 in
    let (signed, h4) = guard_ok _ api_result_parse _ h3 in
    let (long, h5) =
      err_if_ok (ltb (length bytes) (length token.aux_burn_function_sig + key_len)) api_result_parse
        (ok (drop (length bytes - key_len) bytes)) h4 in
    let n : ℕ = length bytes - 32 in
    let enough : length token.aux_burn_function_sig + 32 ≤ length bytes = not_shorter _ _ long in
    let is_key : drop n bytes ≡ key = ok_injective (drop n bytes) key h5 in
    record {
      bytes = bytes;
      front = take n bytes;
      to_contract = to_contract;
      is_hex = is_hex;
      decodes = decodes;
      signed = signed;
      splits = take-drop n bytes ∙ ap (λ t. take n bytes ++ t) is_key;
      key_len = sym (ap length is_key) ∙ omega (arith, length-drop n bytes, enough);
      room = omega (arith, length-take n bytes (omega arith), enough);
    }

not_ltb : (a b : ℕ) → b ≤ a → ltb a b ≡ false
not_ltb a b h = ground arith

of_aux :
    (hex : Hex) (token : AuditedToken) (v : ValueDecoded) (key : Text)
    → AuxCall hex token v key
    → parse_aux_value hex token v ≡ ok key
unfolding parse_aux_value
of_aux hex token v key c =
    let total : length c.bytes ≡ length c.front + 32 =
      ap length c.splits ∙ omega (arith, length-append c.front key, c.key_len) in
    let long : ltb (length c.bytes) (length token.aux_burn_function_sig + key_len) ≡ false =
      not_ltb _ _ (omega (arith, total, c.room)) in
    let index : length c.bytes - key_len ≡ length c.front = omega (arith, total) in
    let ends : drop (length c.bytes - key_len) c.bytes ≡ key =
      ap (λ n. drop n c.bytes) index
      ∙ ap (drop (length c.front)) c.splits
      ∙ drop-append c.front key in
    simp (c.to_contract, c.is_hex, c.decodes, c.signed, long, ends)

parse_withdrawal_sound :
    (hex : Hex) (safe : AuditedSafeConfig) (tx : MultiSigTransaction) (w : GnosisSafeWithdrawal)
    → parse_withdrawal_with_pub_key_multi_sig_tx hex safe tx ≡ ok w
    → Withdraws hex safe tx w
unfolding parse_withdrawal_with_pub_key_multi_sig_tx get_token_by_eth_contract_addr
parse_withdrawal_sound hex safe tx w h =
    let (values, h1, k1) = bind_ok (parse_multi_send tx) _ h in
    let (transfer, h2, k2) = bind_ok (parse_transfer safe values.0) _ k1 in
    let (first, h3, k3) = bind_ok (at_0 tx.transfer_data) _ k2 in
    let (eth_value, h4, k4) = unwrap_ok first.value _ k3 in
    let (key, h5, k5) = bind_ok (parse_aux_value hex transfer.0 values.1) _ k4 in
    let (token, h6, k6) = ok_or_ok (token_of safe (value_to values.0)) invalid_address _ k5 in
    let (value, h7, k7) = unwrap_ok (parse_u128 (parameter_value transfer.1)) _ k6 in
    let (amount, h8, k8) = bind_ok (truncated safe token value) _ k7 in
    let moved = transfer_ok safe values.0 h2 in
    let (others, listed) = at_0_ok tx.transfer_data h3 in
    record {
      first = values.0;
      second = values.1;
      multi_send = MultiSend-ok tx h1;
      token = transfer.0;
      amount_param = transfer.1;
      token_transfer = moved;
      transfer = first;
      others = others;
      transfers = listed;
      eth_tx_value = eth_value;
      has_value = h4;
      key = key;
      aux_call = aux_ok hex transfer.0 values.1 h5;
      value = value;
      reads = h7;
      amount = amount;
      fits =
          ap (λ (o : AuditedToken). truncated safe o value)
            (some_injective _ _ (sym moved.audited ∙ h6))
          ∙ h8;
      row = sym (ok_injective _ _ k8);
    }

parse_withdrawal_complete :
    (hex : Hex) (safe : AuditedSafeConfig) (tx : MultiSigTransaction) (w : GnosisSafeWithdrawal)
    → Withdraws hex safe tx w
    → parse_withdrawal_with_pub_key_multi_sig_tx hex safe tx ≡ ok w
unfolding parse_withdrawal_with_pub_key_multi_sig_tx get_token_by_eth_contract_addr
parse_withdrawal_complete hex safe tx w d =
    let known : token_of safe (value_to d.first) ≡ some d.token = d.token_transfer.audited in
    simp (
      of_MultiSend tx d.first d.second d.multi_send,
      of_transfer safe d.first d.token d.amount_param d.token_transfer,
      d.transfers,
      d.has_value,
      of_aux hex d.token d.second d.key d.aux_call,
      known,
      d.reads,
      d.fits,
      sym d.row,
    )

-- A multi-sig transaction is parsed into a withdrawal exactly when it is one: it is a `multiSend`
-- of two values, a `transfer` of an audited token of the safe with a readable amount that fits a
-- `u64` once truncated, and a call of the token's auxiliary contract whose bytes begin with the
-- function signature and end behind it in the 32 bytes of the public key; and the API lists a
-- transfer with a value, of which the row has the value and the recipient.
pub parse_withdrawal_iff :
    (hex : Hex) (safe : AuditedSafeConfig) (tx : MultiSigTransaction) (w : GnosisSafeWithdrawal)
    → (parse_withdrawal_with_pub_key_multi_sig_tx hex safe tx ≡ ok w) ↔ Withdraws hex safe tx w
parse_withdrawal_iff hex safe tx w =
    (parse_withdrawal_sound hex safe tx w, parse_withdrawal_complete hex safe tx w)

-- Where the two values are as they should be, but the API lists no transfer, the parsing panics.
pub parse_withdrawal_no_transfer :
    (hex : Hex) (safe : AuditedSafeConfig) (tx : MultiSigTransaction) (first second : ValueDecoded)
    (token : AuditedToken) (amount : DataDecodedParameter)
    → MultiSend tx first second
    → TokenTransfer safe first token amount
    → tx.transfer_data ≡ []
    → parse_withdrawal_with_pub_key_multi_sig_tx hex safe tx ≡ panic
unfolding parse_withdrawal_with_pub_key_multi_sig_tx
parse_withdrawal_no_transfer hex safe tx first second token amount m t e =
    simp (of_MultiSend tx first second m, of_transfer safe first token amount t, e)
