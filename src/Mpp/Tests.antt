-- ===== src/Mpp/Tests.antt =====
-- A session from its challenge to its close, with a toy cryptography.
mod Inputs
use connect_lib.Authorization.Compile.{
  compile_mpp_session, validated_for_compile, expressible, without_start, is_on, mint_of, sole,
  compile_mpp_grant, context_addresses, mpp_session_of,
}
use connect_lib.Base.Sets.{has}
use connect_lib.Units.{is_digit}
use connect_lib.Voucher.Address.{
  drop_prefix, is_base58, index_of, digit, decode_from, byte_count, leading_ones,
}
use connect_lib.Authorization.Names.{
  parse_asset, parse_evm_asset, parse_evm_kind, canonical_principal, split_colon, prepend,
  principal_from, principal_of, canonical_address, canonical_solana_address, parse_solana_asset,
}
use connect_lib.Authorization.Types.{is_distinct, meets}
use connect_lib.Authorization.Validate.{
  is_grant, is_period, is_timed, any_overlap, canonical_all, keep_grant, with_recipients,
  with_asset, validate_grant, validate_grants, with_principal, validate_authorization, overlaps,
}
use connect_lib.Authorization.Compile.Faithful.{IsFaithful}
use connect_lib.Mpp.Client.Authorized.{IsWithinGrant, Ends-IsWithinGrant}
use connect_lib.Base.{
  ◌≡◌, refl, Bool, true, false, ap, sym, Option, none, some, [], ◌∷◌, ◌++◌, arith, replicate,
}
use connect_lib.Base.Bytes.{Bytes, from_le}
use connect_lib.Base.Dict.{lookup}
use connect_lib.Base.Text.{Text, codes}
use connect_lib.Session.Types.{passed}
use connect_lib.Authorization.Names.{is_positive_decimal}
use connect_lib.Session.TypedData.{is_decimal}
use connect_lib.Units.{value_from}
use connect_lib.Voucher.Address.{is_valid_solana_address, is_solana_caip2}
use connect_lib.Voucher.Message.{encode_channel_voucher, key, u64}
use connect_lib.Voucher.Types.{Crypto, ManagerConfig, StoredKey, KeyStatus}
use connect_lib.Voucher.Manager.{
  solana_channel_program, solana_mainnet, SignedVoucher, new_key, check_policy, expected_program,
  sign_voucher, revoke, find_key, put_key, update, saved, sign_change, sign_bound, check_amount,
  unseal, sign_channel_voucher,
}
use connect_lib.Voucher.Manager.Signs.{Unseals}
use connect_lib.Voucher.Manager.Updates.{OnlyLive}
use connect_lib.Mpp.Types.{
  Raw, MethodDetails, MppChallenge, SessionRequest, MppSessionPolicy, MppOpenChannel,
  MppSessionSettlementBinding, MppReceipt, PaidResponse, Outcome,
}
use connect_lib.Mpp.Mint.{token_program}
use connect_lib.Mpp.Client.{Active, Client, FetchResult, new_client}
use connect_lib.Mpp.Client.Demand.{OpenAnswers, sent, demanded}
use connect_lib.Mpp.Client.Open.{acknowledged, fetch_unopened}
use connect_lib.Mpp.Client.Offer.{IsPayable, demanded-IsPayable}
use connect_lib.Mpp.Client.Ending.{close, force_close, withdraw, seal, withdraw_payer}
use connect_lib.Mpp.Client.Run.{Request, fetch, Reaches, start, after, step, perform_fetch}
use connect_lib.Mpp.Client.Sound.{IsSound}
use connect_lib.Mpp.Client.Sound.Closing.{IsSettled}
use connect_lib.Mpp.Client.Reached.{Reaches-IsSound, Ends, by_close, by_force, Ends-IsSettled}
use connect_lib.Mpp.Client.Charges.{IsAnswered, perform_fetch-charges}
use connect_lib.Mpp.Client.Withdrawal.{IsWithdrawn, withdraw-IsWithdrawn}
use connect_lib.Mpp.Client.Opens.{opened_channel, bound_key, opened_client, fetch_unopened-opens}
use connect_lib.Mpp.Tests.Inputs.{
  codec, subscription, context, compiled, channel_id, address, toy, config, policy, details,
  challenge, request, receipt, accepted, answers, empty, open_client, first, second, channel,
  voucher, paying, paid_key, paid, ended_client, binding, closing,
}

toy-Unseals : Unseals toy
toy-Unseals secret r = refl

demand : demanded policy answers ≡ passed (some request)
unfolding demanded is_decimal is_positive_decimal value_from is_valid_solana_address from_le
demand = refl

demanded-IsPayable_example : IsPayable policy answers.rpc 0 request
demanded-IsPayable_example = demanded-IsPayable policy answers request demand

fetch_unopened-opens_example :
    (fetch_unopened toy config policy address answers empty ≡ (
      passed (record {
        receipt = some receipt;
        channel = some (opened_channel toy policy address answers request);
      }),
      open_client,
    ))
    × (find_key (codes "k") open_client.keys ≡ some (bound_key toy policy address answers request))
unfolding check_policy is_solana_caip2 is_valid_solana_address expected_program lookup acknowledged
    find_key
fetch_unopened-opens_example =
    fetch_unopened-opens toy toy-Unseals config policy address answers request [] accepted receipt
      empty demand refl refl refl refl (omega arith) (omega arith) refl

no_keys : OnlyLive none []
unfolding find_key
no_keys id k found live = cc

opened_by_first : open_client ≡ step toy config policy address (fetch first) empty
unfolding step find_key
opened_by_first =
    ap (λ (r : Outcome FetchResult × Client). r.1) (sym fetch_unopened-opens_example.0)

opened_Reaches : Reaches toy config policy address empty open_client
unfolding find_key
opened_Reaches = after (fetch first) start refl opened_by_first

paid_by_second : paid ≡ step toy config policy address (fetch second) open_client
unfolding step sign_voucher put_key new_key encode_channel_voucher key u64 update find_key saved
    sign_change sign_bound check_amount unseal sign_channel_voucher
paid_by_second = refl

paid_Reaches : Reaches toy config policy address empty paid
unfolding find_key put_key new_key
paid_Reaches = after (fetch second) opened_Reaches refl paid_by_second

Reaches-IsSound_example : IsSound policy paid
Reaches-IsSound_example = Reaches-IsSound toy config policy address [] no_keys paid_Reaches

closes_paid : Ends paid (binding false) ended_client
unfolding close revoke new_key update find_key saved put_key
closes_paid = by_close accepted (record { receipt = some receipt; channel = some channel }) refl

forced_paid : Ends paid (binding true) ended_client
unfolding force_close revoke new_key update find_key saved put_key
forced_paid = by_force true (some (codes "hash")) (codes "hash") refl

Ends-IsSettled_example : IsSettled policy paid (binding true) ended_client
Ends-IsSettled_example =
    Ends-IsSettled toy config policy address [] no_keys paid_Reaches forced_paid

perform_fetch-charges_example :
    IsAnswered policy paying (some 10) paid (perform_fetch toy config policy address second paid)
perform_fetch-charges_example =
    perform_fetch-charges toy config policy address second paying paid Reaches-IsSound_example refl

withdraw-IsWithdrawn_example :
    (bytes : Bytes) × (some (some closing) ≡ some (some bytes))
    × IsWithdrawn channel bytes 4100 (withdraw_payer ∷ seal ∷ [])
unfolding withdraw from_le
withdraw-IsWithdrawn_example =
    withdraw-IsWithdrawn channel (some (some closing)) 4100 true true (withdraw_payer ∷ seal ∷ [])
      refl

compiles : compile_mpp_session codec subscription solana_mainnet context false ≡ passed compiled
unfolding compile_mpp_session validated_for_compile expressible without_start is_on mint_of sole
    compile_mpp_grant context_addresses mpp_session_of validate_authorization with_principal
    validate_grants validate_grant with_asset canonical_all with_recipients keep_grant any_overlap
    overlaps meets is_timed is_period is_grant is_distinct has canonical_principal principal_from
    principal_of split_colon prepend canonical_address canonical_solana_address parse_asset
    parse_solana_asset parse_evm_asset parse_evm_kind drop_prefix is_solana_caip2 is_base58
    is_valid_solana_address is_digit index_of digit decode_from byte_count leading_ones
compiles = refl

Ends-IsWithinGrant_example :
    (f : IsFaithful codec subscription solana_mainnet context compiled) × IsWithinGrant f.grant paid
      (binding false)
Ends-IsWithinGrant_example =
    Ends-IsWithinGrant codec subscription solana_mainnet context compiled toy config address []
      compiles no_keys paid_Reaches closes_paid
