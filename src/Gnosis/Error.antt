-- ===== src/Gnosis/Error.antt =====
-- src/gnosis/error.rs. The texts and the foreign errors that the constructors carry are left out:
-- no code of the program reads them.
pub data GnosisError : Type 0 where
  path_extension : GnosisError
  unrecognized_extension : GnosisError
  json : GnosisError
  toml : GnosisError
  io : GnosisError
  invalid_address : GnosisError
  invalid_tx_hash : GnosisError
  invalid_tx_value : GnosisError
  url_parse : GnosisError
  api_result_parse : GnosisError
  unknown_token : GnosisError
  other : GnosisError
