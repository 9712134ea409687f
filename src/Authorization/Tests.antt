-- ===== src/Authorization/Tests.antt =====
-- A monthly allowance of two payees on one EVM chain, and a payment under it.
use connect_lib.Authorization.Compile.{
  MppSessionCompileContext, CompiledMppSession, compile_mpp_session, validated_for_compile,
  expressible, without_start, is_on, mint_of, sole, compile_mpp_grant, context_addresses,
  mpp_session_of,
}
use connect_lib.Authorization.Compile.Faithful.{IsFaithful, compile_mpp_session-IsFaithful}
use connect_lib.Session.Types.{passed}
use connect_lib.Base.{false, ℕ, ◌≡◌, refl, none, some, [], ◌∷◌, replicate, ◌++◌}
use connect_lib.Base.Decimal.{digits, decimal}
use connect_lib.Base.Sets.{has}
use connect_lib.Base.Text.{Text, codes, text_eq_of, to_lower_case}
use connect_lib.Units.{value_from, is_digit}
use connect_lib.Base.Hex.{is_hex_of}
use connect_lib.Voucher.Address.{
  drop_prefix, is_solana_caip2, is_base58, is_valid_solana_address, index_of, digit, decode_from,
  byte_count, leading_ones,
}
use connect_lib.Authorization.Names.{
  Codec, parse_asset, parse_evm_asset, parse_evm_kind, digits_of, after_digits, eip155_reference,
  is_positive_decimal, canonical_principal, split_colon, prepend, principal_from, principal_of,
  canonical_address, is_evm_address, to_checksum_address, checksum_from, nibble, upper_unit,
  canonical_solana_address, parse_solana_asset,
}
use connect_lib.Authorization.Types.{
  transfer, mpp_charge, mpp_session, rail_eq, GrantPeriod, Grant, Authorization, SpendRequest,
  allow, valid, is_distinct, meets,
}
use connect_lib.Authorization.Validate.{
  is_grant, is_period, is_timed, any_overlap, canonical_all, keep_grant, with_recipients,
  with_asset, validate_grant, validate_grants, with_principal, validate_authorization, overlaps,
}
use connect_lib.Authorization.Validate.Canonical.{IsAccepted, validate_authorization-IsAccepted}
use connect_lib.Authorization.Spend.{
  evaluate_spend, judge_valid, is_request, judge, with_spend_asset, with_asset_matches, with_rail,
  with_recipient, with_match, within_limits, is_over_period, indexed,
}
use connect_lib.Authorization.Spend.Permits.{Permits, evaluate_spend-Permits}

-- The hash has every other nibble above 7.
abbrev toy : Codec
toy = record { keccak = λ b. replicate 32 128; encode58 = λ b. b; decode58 = λ t. some t }

abbrev payee : ℕ → Text
payee c = codes "0x" ++ replicate 40 c

abbrev monthly : GrantPeriod
monthly = record { amount = 60; seconds = 2592000; start = 1000 }

abbrev grant : Grant
grant = record {
  asset = codes "eip155:1/slip44:60";
  recipients = payee 65 ∷ payee b'b' ∷ [];
  max_per_payment = 50;
  max_total = 100;
  max_count = some 3;
  period = some monthly;
  rails = transfer ∷ mpp_charge ∷ [];
}

abbrev given : Authorization
given = record {
  principal = codes "eip155:1:" ++ payee b'c';
  label = none;
  grants = grant ∷ [];
  not_before = some 500;
  expires_at = 9000;
}

abbrev mixed : ℕ → ℕ → Text
mixed upper lower =
    codes "0x"
    ++ (upper ∷ lower ∷ upper ∷ lower ∷ upper ∷ lower ∷ upper ∷ lower ∷ upper ∷ lower ∷ upper
        ∷ lower ∷ upper ∷ lower ∷ upper ∷ lower ∷ upper ∷ lower ∷ upper ∷ lower ∷ upper ∷ lower
        ∷ upper ∷ lower ∷ upper ∷ lower ∷ upper ∷ lower ∷ upper ∷ lower ∷ upper ∷ lower ∷ upper
        ∷ lower ∷ upper ∷ lower ∷ upper ∷ lower ∷ upper ∷ lower ∷ [])

abbrev canonical : Authorization
canonical = record given {
  principal = codes "eip155:1:" ++ mixed b'C' b'c';
  grants = record grant { recipients = mixed b'A' b'a' ∷ mixed b'B' b'b' ∷ [] } ∷ [];
}

accepted : validate_authorization toy given ≡ valid canonical
unfolding is_grant is_period is_timed any_overlap canonical_all keep_grant with_recipients
    with_asset validate_grant validate_grants with_principal validate_authorization parse_asset
    parse_evm_asset parse_evm_kind digits_of after_digits eip155_reference is_positive_decimal
    canonical_principal split_colon prepend principal_from principal_of canonical_address
    is_evm_address to_checksum_address checksum_from nibble upper_unit decimal digits has
    is_distinct to_lower_case value_from is_hex_of drop_prefix is_digit
accepted = refl

validate_authorization-IsAccepted_example : IsAccepted toy given canonical
validate_authorization-IsAccepted_example =
    validate_authorization-IsAccepted toy given canonical accepted

abbrev request : SpendRequest
request = record {
  asset = codes "eip155:1/slip44:60";
  recipient = payee b'b';
  amount = 20;
  rail = transfer;
  at = 2000;
  spent_so_far = 70;
  count_so_far = 2;
  period_spent_so_far = some 40;
}

spent : evaluate_spend toy given request ≡ allow 0
unfolding evaluate_spend judge_valid is_request judge with_spend_asset with_asset_matches with_rail
    with_recipient with_match within_limits is_over_period indexed is_grant is_period is_timed
    any_overlap canonical_all keep_grant with_recipients with_asset validate_grant validate_grants
    with_principal validate_authorization parse_asset parse_evm_asset parse_evm_kind digits_of
    after_digits eip155_reference is_positive_decimal canonical_principal split_colon prepend
    principal_from principal_of canonical_address is_evm_address to_checksum_address checksum_from
    nibble upper_unit decimal digits has is_distinct to_lower_case value_from is_hex_of drop_prefix
    is_digit
spent = refl

evaluate_spend-Permits_example :
    (a' : Authorization) × (validate_authorization toy given ≡ valid a') × Permits toy a' request 0
evaluate_spend-Permits_example = (evaluate_spend-Permits toy given request 0).0 spent

-- The mint, the payee, the payer and the program are one account of 32 zero bytes.
abbrev account : Text
account = replicate 32 b'1'

abbrev mainnet : Text
mainnet = codes "solana:5eykt4UsFv8P8NJdTREpY1vzqKqZKvdp"

abbrev session_grant : Grant
session_grant = record {
  asset = mainnet ++ (codes "/token:" ++ account);
  recipients = account ∷ [];
  max_per_payment = 50;
  max_total = 1000;
  max_count = none;
  period = none;
  rails = mpp_session ∷ [];
}

abbrev subscription : Authorization
subscription = record {
  principal = mainnet ++ (codes ":" ++ account);
  label = none;
  grants = session_grant ∷ [];
  not_before = none;
  expires_at = 9000;
}

abbrev context : MppSessionCompileContext
context = record {
  channel_program = account;
  payer = account;
  price_per_unit = 3;
  deposit = 2000;
  minimum_grace_period_seconds = some 60;
}

abbrev compiled : CompiledMppSession
compiled = record {
  voucher = record {
    cluster = mainnet;
    channel_program = account;
    payer = account;
    mint = account;
    payee = account;
    price_per_unit = 3;
    max_cumulative = 1000;
    max_delta = 50;
    expiry = 9000;
  };
  client = record {
    recipient = account;
    mint = account;
    amount = 3;
    deposit = 2000;
    max_cumulative = 1000;
    max_delta = 50;
    expires_at = 9000;
    minimum_grace_period_seconds = some 60;
  };
}

compiles : compile_mpp_session toy subscription mainnet context false ≡ passed compiled
unfolding compile_mpp_session validated_for_compile expressible without_start is_on mint_of sole
    compile_mpp_grant context_addresses mpp_session_of validate_authorization with_principal
    validate_grants validate_grant with_asset canonical_all with_recipients keep_grant any_overlap
    overlaps meets is_timed is_period is_grant is_distinct has canonical_principal principal_from
    principal_of split_colon prepend canonical_address canonical_solana_address parse_asset
    parse_solana_asset parse_evm_asset parse_evm_kind drop_prefix is_solana_caip2 is_base58
    is_valid_solana_address is_digit index_of digit decode_from byte_count leading_ones
compiles = refl

compile_mpp_session-IsFaithful_example : IsFaithful toy subscription mainnet context compiled
compile_mpp_session-IsFaithful_example =
    compile_mpp_session-IsFaithful toy mainnet context subscription false compiled compiles
