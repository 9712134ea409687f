-- ===== src/Session/Tests/Inputs.antt =====
-- The inputs of the tests.
use connect_lib.Base.{ℕ, true, false, none, some, List, [], ◌∷◌, replicate, ◌++◌}
use connect_lib.Base.Bytes.{Bytes}
use connect_lib.Base.Text.{Text, codes}
use connect_lib.Session.Types.{
  SessionKeyRail, Mode, SessionKeyScope, SessionKeyTransaction, SessionKeyStatus, StoredSessionKey,
}
use connect_lib.Session.Sign.{Vault}
use connect_lib.Session.TypedData.{TypedDataRequest}
use connect_lib.Session.Manager.Run.{SignCall, Call}

abbrev pub vault : Vault
vault = record {
  decrypt = λ p. some p.encrypted_private_key;
  sign = λ hash secret. (0, 171 ∷ []);
  forbidden_methods = codes "0x095ea7b3" ∷ [];
  unsafe_allow_unauthorized_signing = false;
}

abbrev pub toy_hash : Bytes → Bytes
toy_hash bytes = replicate 32 7

abbrev pub token : Text
token = codes "0x" ++ replicate 40 b'a'

abbrev pub payee : Text
payee = codes "0x" ++ replicate 40 b'B'

abbrev pub own : Text
own = codes "0x" ++ replicate 40 b'c'

abbrev pub address_of : Text → Text
address_of key = own

abbrev pub scope : SessionKeyScope
scope = record {
  expiry = 5000;
  max_total_gas = none;
  max_gas_per_tx = none;
  max_total_value = some 10;
  max_value_per_tx = none;
  max_tx_count = some 2;
  allowed_contracts = token ∷ [];
  allowed_methods = [];
  token_allowances = (token, 100) ∷ [];
  token_max_per_tx = (token, 60) ∷ [];
  period_limits = [];
  allowed_recipients = payee ∷ [];
  native_transfer = false;
  allowed_chain_ids = 1 ∷ [];
  rails = SessionKeyRail.x402_exact ∷ [];
  mode = Mode.offchain;
}

abbrev pub key : StoredSessionKey
key = record {
  id = codes "k";
  key_pair = record { public_key = codes "04"; encrypted_private_key = codes "0x01" };
  scope = scope;
  authorization = record {
    authorization = [];
    raw_signature = codes "0x1";
    message = none;
    signer_address = own;
    type = Mode.offchain;
    delegation_chain_id = none;
  };
  status = SessionKeyStatus.active;
  created_at = 0;
  last_used_at = 0;
  use_count = 0;
  accumulated_value = none;
  accumulated_gas = none;
  accumulated_token_spends = (codes "0x" ++ replicate 40 b'A', 50) ∷ [];
  period_usage = [];
}

abbrev pub request : TypedDataRequest
request = record {
  is_transfer = true;
  name = codes "USDC";
  version = codes "2";
  chain_id = 1;
  verifying_contract = token;
  from = own;
  to = codes "0x" ++ replicate 40 b'b';
  value = codes "45";
  valid_after = codes "0";
  valid_before = codes "2000";
  nonce = codes "0x" ++ replicate 64 b'0';
}

abbrev pub pay : SignCall
pay = SignCall.typed (codes "k") request SessionKeyRail.x402_exact

abbrev pub paid_key : StoredSessionKey
paid_key = record key {
  last_used_at = 1000000;
  use_count = 1;
  accumulated_value = some 0;
  accumulated_token_spends = (codes "0x" ++ replicate 40 b'A', 95) ∷ [];
}

abbrev pub fresh : StoredSessionKey
fresh = record key { accumulated_token_spends = [] }

abbrev pub calls : List (ℕ × Call)
calls =
    (1000000, Call.signs pay)
    ∷ (1001000, Call.refreshes)
    ∷ (1002000, Call.signs pay)
    ∷ (1003000, Call.revokes (codes "k"))
    ∷ (1004000, Call.signs pay)
    ∷ []

abbrev pub revoked_key : StoredSessionKey
revoked_key = record key { status = SessionKeyStatus.revoked }

-- A key for transfers of the native coin on one chain.
abbrev pub transfer_key : StoredSessionKey
transfer_key = record key {
  scope = record scope {
    allowed_contracts = [];
    allowed_recipients = [];
    rails = SessionKeyRail.transfer ∷ [];
  };
}

abbrev pub transfer : SessionKeyTransaction
transfer = record {
  to = payee;
  value = codes "0x7";
  data_field = [];
  chain_id = some 1;
  gas = codes "21000";
}

-- The limit of a window is not tested by `checkSessionScope`; signing tests it.
abbrev pub windowed_key : StoredSessionKey
windowed_key = record transfer_key {
  scope = record (transfer_key.scope) {
    period_limits = (codes "native", record { amount = 8; seconds = 3600; start = 100 }) ∷ [];
  };
  period_usage = (codes "native", record { index = 0; spent = 5 }) ∷ [];
}
