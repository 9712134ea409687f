-- ===== src/Voucher/Manager/Tests.antt =====
-- A key from its creation to two vouchers, with a toy cryptography.
use connect_lib.Base.{ℕ, ◌≤◌, ◌≡◌, refl, some, List, [], ◌∷◌, arith, replicate}
use connect_lib.Base.Bytes.{Bytes, le_bytes}
use connect_lib.Base.Dict.{lookup}
use connect_lib.Base.Text.{Text, codes}
use connect_lib.Voucher.Address.{is_valid_solana_address, is_solana_caip2}
use connect_lib.Voucher.Message.{ChannelVoucher, encode_channel_voucher, key, u64}
use connect_lib.Voucher.Message.Layout.{IsEncoded, encode_channel_voucher_lem}
use connect_lib.Voucher.Types.{
  ChannelVoucherPolicy, ChannelBinding, BoundChannel, StoredKey, Crypto, ok, ManagerConfig,
}
use connect_lib.Voucher.Manager.{
  solana_channel_program, solana_mainnet, new_key, bound, sign_change, SignedVoucher, check_policy,
  expected_program, create, bind_channel, sign_voucher, find_key, put_key, update, saved,
  bind_change, unseal, sign_bound, check_amount, sign_channel_voucher, is_active,
}
use connect_lib.Voucher.Manager.Amount.{IsSigned, sign_change_lem}
use connect_lib.Voucher.Manager.Run.{Call, creates, bind, sign, revokes_key, run, Falls, run-Falls}
use connect_lib.Voucher.Manager.Later.{HasLater, run-HasLater}
use connect_lib.Voucher.Manager.First.{created_keys, bound_keys, sign_voucher-first}
use connect_lib.Voucher.Manager.Signs.{Unseals}

abbrev channel_id : Text
channel_id = replicate 32 1

abbrev toy : Crypto
toy = record {
  get_public_key = λ s. s;
  sign = λ m s. m;
  encode58 = λ b. b;
  decode58 = λ t. some t;
  derive_channel_pda = λ i. channel_id;
  encrypt = λ s r. s;
  decrypt = λ s r. some s;
}

toy-Unseals : Unseals toy
toy-Unseals secret r = refl

abbrev policy : ChannelVoucherPolicy
policy = record {
  cluster = solana_mainnet;
  channel_program = solana_channel_program;
  payer = solana_channel_program;
  mint = solana_channel_program;
  payee = solana_channel_program;
  price_per_unit = 3;
  max_cumulative = 100;
  max_delta = 50;
  expiry = 1000;
}

abbrev config : ManagerConfig
config = record { channel_program_overrides = [] }

abbrev secret : Bytes
secret = replicate 32 7

abbrev binding : ChannelBinding
binding = record { channel_id = channel_id; deposit = 80; open_slot = 5; salt = 9 }

abbrev stored : StoredKey
stored = bound toy (new_key toy policy secret (codes "k") 0) binding secret

abbrev channel : BoundChannel
channel = record { binding = binding; max_cumulative = 80 }

abbrev voucher : ℕ → ChannelVoucher
voucher n = record { channel_id = channel_id; cumulative_amount = n; expires_at = 1000 }

accepts : check_policy config policy 0 ≡ ok tt
unfolding check_policy is_solana_caip2 is_valid_solana_address expected_program lookup
accepts = refl

abbrev message : Bytes
message =
    0x56 ∷ 0x01 ∷ 1 ∷ 1 ∷ 1 ∷ 1 ∷ 1 ∷ 1 ∷ 1 ∷ 1 ∷ 1 ∷ 1 ∷ 1 ∷ 1 ∷ 1 ∷ 1 ∷ 1 ∷ 1 ∷ 1 ∷ 1 ∷ 1 ∷ 1 ∷ 1
    ∷ 1 ∷ 1 ∷ 1 ∷ 1 ∷ 1 ∷ 1 ∷ 1 ∷ 1 ∷ 1 ∷ 1 ∷ 1 ∷ 30 ∷ 0 ∷ 0 ∷ 0 ∷ 0 ∷ 0 ∷ 0 ∷ 0 ∷ 232 ∷ 3 ∷ 0 ∷ 0
    ∷ 0 ∷ 0 ∷ 0 ∷ 0 ∷ []

encode_channel_voucher_example : IsEncoded toy.decode58 (voucher 30) message
unfolding encode_channel_voucher key u64 le_bytes
encode_channel_voucher_example = encode_channel_voucher_lem toy.decode58 (voucher 30) message refl

sign_change_example :
    IsSigned stored
      (record stored { last_cumulative = 30 })
      (record { voucher = voucher 30; signature = message })
      channel_id
      10
      0
unfolding sign_change sign_bound check_amount unseal sign_channel_voucher encode_channel_voucher key
    u64 le_bytes is_active new_key
sign_change_example =
    sign_change_lem toy channel_id 10 0 stored
      (record { voucher = voucher 30; signature = message })
      (record stored { last_cumulative = 30 }) refl

abbrev calls : List (ℕ × Call)
calls =
    (0, creates config policy secret (codes "k"))
    ∷ (1, bind (codes "k") binding)
    ∷ (2, sign (codes "k") channel_id 10)
    ∷ (3, sign (codes "k") channel_id 11)
    ∷ (4, sign (codes "k") channel_id 16)
    ∷ []

issued : (run toy (codes "k") calls ([], [])).1 ≡ 63 ∷ 30 ∷ []
unfolding run create check_policy is_solana_caip2 is_valid_solana_address expected_program lookup
    bind_channel sign_voucher update saved find_key put_key bind_change unseal new_key sign_change
    sign_bound check_amount sign_channel_voucher encode_channel_voucher key u64 le_bytes is_active
issued = refl

run-Falls_example : Falls 64 (run toy (codes "k") calls ([], [])).1 × (63 ≤ 100) × (63 ≤ 80)
unfolding run create check_policy is_solana_caip2 is_valid_solana_address expected_program lookup
    bind_channel sign_voucher update saved find_key put_key bind_change unseal new_key sign_change
    sign_bound check_amount sign_channel_voucher encode_channel_voucher key u64 le_bytes is_active
run-Falls_example =
    run-Falls toy (codes "k") calls (record stored { last_cumulative = 63 }) channel refl refl

-- The key signs once more and is revoked, among calls for other keys.
run-HasLater_example :
    HasLater
      (codes "k")
      stored
      (run toy
        (codes "k")
        ((2, sign (codes "k") channel_id 10)
          ∷ (3, creates config policy secret (codes "k"))
          ∷ (4, revokes_key (codes "k"))
          ∷ (5, bind (codes "j") binding)
          ∷ [])
        (stored ∷ [], [])).0
unfolding find_key new_key
run-HasLater_example =
    run-HasLater toy (codes "k")
      ((2, sign (codes "k") channel_id 10)
        ∷ (3, creates config policy secret (codes "k"))
        ∷ (4, revokes_key (codes "k"))
        ∷ (5, bind (codes "j") binding)
        ∷ [])
      stored (stored ∷ []) [] refl

abbrev first_keys : List StoredKey
first_keys = bound_keys toy config policy binding secret (codes "k") 0 0 10 [] channel_id

sign_voucher-first_example :
    ((create toy config policy secret (codes "k") 0 []).0
      ≡ ok (new_key toy policy secret (codes "k") 0))
    × ((bind_channel toy
          (codes "k")
          binding
          (created_keys toy config policy binding secret (codes "k") 0 0 10 [] channel_id)).0
        ≡ ok tt)
    × ((s : SignedVoucher) × ((sign_voucher toy (codes "k") channel_id 10 0 first_keys).0 ≡ ok s)
        × (s.voucher.channel_id ≡ channel_id)
        × (s.voucher.cumulative_amount ≡ 30)
        × (s.voucher.expires_at ≡ 1000))
unfolding find_key
sign_voucher-first_example =
    sign_voucher-first toy config policy binding secret (codes "k") 0 0 10 [] channel_id toy-Unseals
      accepts refl refl refl refl refl (omega arith) (omega arith) (omega arith) (omega arith)
      (omega arith) (omega arith)
