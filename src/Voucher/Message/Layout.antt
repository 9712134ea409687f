-- ===== src/Voucher/Message/Layout.antt =====
-- solana-channel.ts: the places of a voucher's fields in its message.
use mathlib.Core.List.{append_assoc}
use connect_lib.Base.{
  ℕ, ◌^◌, ◌<◌, ◌≡◌, refl, Option, none, some, [], ◌∷◌, ◌++◌, arith, inl, inr, Bool-cases,
  Option-cases, length, take, drop, ltb, length-append, take-append, drop-append, ap, ◌∙◌, sym,
}
use connect_lib.Base.Text.{Text}
use connect_lib.Base.Bytes.{Bytes, le_bytes, from_le, length-le_bytes, from_le-le_bytes}
use connect_lib.Voucher.Message.{ChannelVoucher, u64, i64_max, key, join, encode_channel_voucher}

-- A message of 50 bytes: two of header, the 32 of the channel, and the amount and the expiry as
-- little-endian words of eight bytes.
pub record IsEncoded (decode58 : Text → Option Bytes) (v : ChannelVoucher) (m : Bytes)
    : Type 0 where
  pub size : length m ≡ 50
  pub header : take 2 m ≡ 0x56 ∷ 0x01 ∷ []
  pub channel : decode58 v.channel_id ≡ some (take 32 (drop 2 m))
  pub amount : from_le (take 8 (drop 34 m)) ≡ v.cumulative_amount
  pub expiry : from_le (drop 42 m) ≡ v.expires_at

u64_lem : (n : ℕ) (bs : Bytes) → u64 n ≡ some bs → (n < 2 ^ 64) × (bs ≡ le_bytes 8 n)
unfolding u64
u64_lem n bs h = ground arith

key_lem :
    (d : Text → Option Bytes) (a : Text) (bs : Bytes)
    → key d a ≡ some bs
    → (d a ≡ some bs) × (length bs ≡ 32)
unfolding key
key_lem d a bs h = elim (Option-cases (d a)) [
  | inl bad ↦ absurd (ground arith)
  | inr (cs, good) ↦ ground arith
]

take-exact : (n : ℕ) (xs ys : Bytes) → length xs ≡ n → take n (xs ++ ys) ≡ xs
take-exact n xs ys h = rw (← h) (take-append xs ys)

drop-exact : (n : ℕ) (xs ys : Bytes) → length xs ≡ n → drop n (xs ++ ys) ≡ ys
drop-exact n xs ys h = rw (← h) (drop-append xs ys)

module _ (d : Text → Option Bytes) (v : ChannelVoucher) (channel : Bytes)
    (named : d v.channel_id ≡ some channel) (whole : length channel ≡ 32)
    (amount_fits : v.cumulative_amount < 2 ^ 64) (expiry_fits : v.expires_at < 2 ^ 64) where
  abbrev low : Bytes
  low = le_bytes 8 v.cumulative_amount

  abbrev high : Bytes
  high = le_bytes 8 v.expires_at

  layout : IsEncoded d v ((0x56 ∷ 0x01 ∷ []) ++ (channel ++ (low ++ high)))
  layout = record {
    size = omega (
      arith,
      length-append channel (low ++ high),
      length-append low high,
      length-le_bytes 8 v.cumulative_amount,
      length-le_bytes 8 v.expires_at,
    );
    header = refl;
    channel = named ∙ ap some (sym (take-exact 32 channel (low ++ high) whole));
    amount = rw (drop-exact 32 channel (low ++ high) whole) (
        rw (take-exact 8 low high (length-le_bytes 8 v.cumulative_amount))
          (from_le-le_bytes 8 v.cumulative_amount (omega arith)));
    expiry = rw (← append_assoc channel low high) (
        rw
          (drop-exact 40 (channel ++ low) high
            (omega (arith, length-append channel low, length-le_bytes 8 v.cumulative_amount)))
          (from_le-le_bytes 8 v.expires_at (omega arith)));
  }

join-IsEncoded :
    (d : Text → Option Bytes) (v : ChannelVoucher) (channel amount : Option Bytes) (m : Bytes)
    → key d v.channel_id ≡ channel
    → u64 v.cumulative_amount ≡ amount
    → v.expires_at < 2 ^ 64
    → join channel amount v.expires_at ≡ some m
    → IsEncoded d v m
unfolding join
join-IsEncoded d v none amount m ec ea short j = cc
join-IsEncoded d v (some channel) none m ec ea short j = cc
join-IsEncoded d v (some channel) (some amount) m ec ea short j =
    let (named, whole) = key_lem d v.channel_id channel ec in
    let (fits, is) = u64_lem v.cumulative_amount amount ea in
    let same : (0x56 ∷ 0x01 ∷ [])
          ++ (channel ++ (le_bytes 8 v.cumulative_amount ++ le_bytes 8 v.expires_at))
        ≡ m =
      cc in
    rw same at (layout d v channel named whole fits short)

-- Every message that is encoded carries its channel, amount and expiry at their places.
pub encode_channel_voucher_lem :
    (d : Text → Option Bytes) (v : ChannelVoucher) (m : Bytes)
    → encode_channel_voucher d v ≡ some m
    → IsEncoded d v m
unfolding encode_channel_voucher
encode_channel_voucher_lem d v m h = elim (Bool-cases (ltb i64_max v.expires_at)) [
  | inl long ↦ absurd (ground arith)
  | inr short ↦
      join-IsEncoded d v (key d v.channel_id) (u64 v.cumulative_amount) m refl refl (ground arith)
        (rw short at h)
]
