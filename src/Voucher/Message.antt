-- ===== src/Voucher/Message.antt =====
-- solana-channel.ts: the canonical 50-byte voucher message.
pub mod Layout
use connect_lib.Base.{
  ℕ, ◌+◌, ◌-◌, ◌^◌, Bool, Option, none, some, List, [], ◌∷◌, ◌++◌, ltb, ◌==◌, if◌then◌else◌, length,
}
use connect_lib.Base.Text.{Text}
use connect_lib.Base.Bytes.{Bytes, le_bytes}

abbrev pub u64_max : ℕ
u64_max = 2 ^ 64 - 1

abbrev pub i64_max : ℕ
i64_max = 2 ^ 63 - 1

-- `ChannelVoucher`; the expiry is a Unix time, so not negative.
pub record ChannelVoucher : Type 0 where
  pub channel_id : Text
  pub cumulative_amount : ℕ
  pub expires_at : ℕ

-- `u64`: eight bytes, least significant first; `none` where the source throws.
unfoldable pub u64 : ℕ → Option Bytes
u64 value = if ltb u64_max value then none else some (le_bytes 8 value)

-- `concatBytes` of the fields, once they are there
join : Option Bytes → Option Bytes → ℕ → Option Bytes
join none amount expires_at = none
join (some channel) none expires_at = none
join (some channel) (some amount) expires_at =
    some ((0x56 ∷ 0x01 ∷ []) ++ (channel ++ (amount ++ le_bytes 8 expires_at)))

module _ (decode58 : Text → Option Bytes) where
  -- `key` of solana-wire.ts
  unfoldable pub key : Text → Option Bytes
  key address = elim (decode58 address) [
    | none ↦ none
    | some bytes ↦ if length bytes == 32 then some bytes else none
  ]

  -- `encodeChannelVoucher`
  unfoldable pub encode_channel_voucher : ChannelVoucher → Option Bytes
  unfolding join
  encode_channel_voucher v =
      if ltb i64_max v.expires_at
      then none
      else join (key v.channel_id) (u64 v.cumulative_amount) v.expires_at
