-- ===== src/Voucher/Types.antt =====
-- channel-voucher-keys.ts: policies, keys and failures, and what the manager takes from outside.
use Prim.Native.String.{String}
use connect_lib.Base.{ℕ, Option, Bool}
use connect_lib.Base.Text.{Text}
use connect_lib.Base.Bytes.{Bytes}
use connect_lib.Base.Dict.{Dict}

pub record ChannelVoucherPolicy : Type 0 where
  pub cluster : Text
  pub channel_program : Text
  pub payer : Text
  pub mint : Text
  pub payee : Text
  pub price_per_unit : ℕ
  pub max_cumulative : ℕ
  pub max_delta : ℕ
  pub expiry : ℕ

pub data KeyStatus : Type 0 where
  active revoked expired : KeyStatus

-- `Omit<BoundChannel, "maxCumulative">`
pub record ChannelBinding : Type 0 where
  pub channel_id : Text
  pub deposit : ℕ
  pub open_slot : ℕ
  pub salt : ℕ

pub record BoundChannel : Type 0 where
  pub binding : ChannelBinding
  pub open binding use *
  pub max_cumulative : ℕ

-- `StoredChannelVoucherKey`, without its constant `kind`
pub record StoredKey : Type 0 where
  pub id : Text
  pub address : Text
  pub policy : ChannelVoucherPolicy
  pub key_pair : Bytes
  pub status : KeyStatus
  pub channel : Option BoundChannel
  pub last_cumulative : ℕ
  pub created_at : ℕ

-- The record that the sealed key is bound to.
pub record Sealed : Type 0 where
  pub id : Text
  pub address : Text
  pub policy : ChannelVoucherPolicy
  pub channel : Option BoundChannel

pub record ChannelPdaInput : Type 0 where
  pub payer : Text
  pub payee : Text
  pub mint : Text
  pub authorized_signer : Text
  pub salt : ℕ
  pub open_slot : ℕ
  pub program_address : Text

-- Cryptography that is not the program's: ed25519 and the program address derivation, base58, and
-- the password encryption whose authenticated data is the digest of the sealed record.
pub record Crypto : Type 0 where
  pub get_public_key : Bytes → Bytes
  pub sign : Bytes → Bytes → Bytes
  pub encode58 : Bytes → Text
  pub decode58 : Text → Option Bytes
  -- total here, though `deriveChannelPda` may throw
  pub derive_channel_pda : ChannelPdaInput → Text
  pub encrypt : Bytes → Sealed → Bytes
  pub decrypt : Bytes → Sealed → Option Bytes

-- The codes of `WalletError` that the manager throws, each with its message.
pub data Failure : Type 0 where
  invalid_input : String → Failure
  session_scope_exceeded : String → Failure

pub data Result (A : Type 0) : Type 0 where
  ok : A → Result A
  err : Failure → Result A

infixl 5 ◌>>=◌ ◌>>◌
abbrev pub ◌>>=◌ : {A B : Type 0} → Result A → (A → Result B) → Result B
err failure >>= next = err failure
ok value >>= next = next value

abbrev pub ◌>>◌ : {T : Type 0} → Result (Unit {0}) → Result T → Result T
check >> rest = check >>= λ _. rest

-- `if (b) fail(message)` and `if (b) refuse(message)`
abbrev pub fail_if : Bool → String → Result (Unit {0})
fail_if Bool.true message = err (invalid_input message)
fail_if Bool.false message = ok tt

abbrev pub refuse_if : Bool → String → Result (Unit {0})
refuse_if Bool.true message = err (session_scope_exceeded message)
refuse_if Bool.false message = ok tt

-- a value, or the failure for want of it
abbrev pub or_fail : {A : Type 0} → Option A → Failure → Result A
or_fail Option.none e = err e
or_fail (Option.some a) e = ok a

pub record ManagerConfig : Type 0 where
  pub channel_program_overrides : Dict Text Text
