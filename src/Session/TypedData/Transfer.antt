-- ===== src/Session/TypedData/Transfer.antt =====
-- typed-data.ts and SessionKeyManager.ts: the transaction that a request is equivalent to, decoded.
use connect_lib.Base.{
  ℕ, zero, suc, ◌-◌, ◌^◌, ◌≡◌, ◌<◌, refl, ap, ◌∙◌, true, some, [], ◌∷◌, ◌++◌, arith, length, take,
  drop, all, replicate, length-append, length-replicate, take-append, drop-append,
}
use connect_lib.Base.Hex.{is_hex, is_hex_of, hex_from, hexadecimal}
use connect_lib.Base.Hex.Digits.{
  all-append, all_zeros, hex_from-zeros, hex_from-hexadecimal, is_hex-hexadecimal,
  length-hexadecimal,
}
use connect_lib.Base.Text.{Text, codes, lower_unit, to_lower_case}
use connect_lib.Units.{value_from, pad_start}
use connect_lib.Authorization.Names.{is_evm_address}
use connect_lib.Session.Types.{SessionKeyScope, passed}
use connect_lib.Session.Number.{entry_of, is_filled}
use connect_lib.Session.Token.{
  is_calldata, selector, layout_of, read_spend, decode_entry, decode_scoped_token_spend, slice,
}
use connect_lib.Session.TypedData.{
  TypedDataRequest, is_uint256, is_valid_request, typed_data_as_transaction,
}

length-to_lower_case : (t : Text) → length (to_lower_case t) ≡ length t
unfolding to_lower_case
length-to_lower_case [] = refl
length-to_lower_case (c ∷ t) = ap suc (length-to_lower_case t)

is_hex-lower_unit : (c : ℕ) → is_hex c ≡ true → is_hex (lower_unit c) ≡ true
unfolding lower_unit
is_hex-lower_unit c h = ground arith

is_hex-to_lower_case : (t : Text) → all is_hex t ≡ true → all is_hex (to_lower_case t) ≡ true
unfolding to_lower_case
is_hex-to_lower_case [] h = refl
is_hex-to_lower_case (c ∷ t) h = ground (arith, is_hex-lower_unit c, is_hex-to_lower_case t)

take_whole : (t : Text) (n : ℕ) → length t ≡ n → take n t ≡ t
take_whole [] zero h = refl
take_whole [] (suc n) h = refl
take_whole (c ∷ t) zero h = absurd (omega (arith, h))
take_whole (c ∷ t) (suc n) h = ap (λ l. c ∷ l) (take_whole t n (omega (arith, h)))

-- Calldata of `transfer(address,uint256)`.
abbrev pub transfer_data : Text → Text → Text
transfer_data recipient amount = codes "0xa9059cbb" ++ ((replicate 24 b'0' ++ recipient) ++ amount)

module _ (recipient amount : Text) (short : length recipient ≡ 40) (long : length amount ≡ 64) where
  length-transfer_data : length (transfer_data recipient amount) ≡ 138
  length-transfer_data = omega (
    arith,
    length-append recipient amount,
    length-append (replicate 24 b'0' ++ recipient) amount,
    short,
    long,
  )

  amount_lem : slice 74 64 (transfer_data recipient amount) ≡ amount
  amount_lem =
      let rest : drop 40 (recipient ++ amount) ≡ amount =
        rw short at (drop-append recipient amount) in
      ap (take 64) rest ∙ take_whole amount 64 long

  recipient_lem : slice 34 40 (transfer_data recipient amount) ≡ recipient
  recipient_lem = rw short at (take-append recipient amount)

  module _ (hex : all is_hex recipient ≡ true) (digits : all is_hex amount ≡ true) where
    is_calldata-transfer_data : is_calldata (transfer_data recipient amount) ≡ true
    unfolding is_calldata
    is_calldata-transfer_data =
        all-append is_hex (replicate 24 b'0' ++ recipient) amount
          (all-append is_hex (replicate 24 b'0') recipient (all_zeros 24) hex) digits

    read_lem :
        (token : Text) (allowance : ℕ)
        → read_spend
            (transfer_data recipient amount)
            (token, allowance)
            (layout_of (codes "0xa9059cbb"))
          ≡ passed (
              some (record {
                token_address = token;
                amount = hex_from 0 amount;
                allowance = allowance;
                recipient = codes "0x" ++ recipient;
              }))
    unfolding read_spend layout_of
    read_lem token allowance = rw (length-transfer_data, amount_lem, recipient_lem) refl

    pub decode_entry-transfer_data :
        (token : Text) (allowance : ℕ)
        → decode_entry (transfer_data recipient amount) (some (token, allowance))
          ≡ passed (
              some (record {
                token_address = token;
                amount = hex_from 0 amount;
                allowance = allowance;
                recipient = codes "0x" ++ recipient;
              }))
    unfolding decode_entry selector layout_of to_lower_case lower_unit
    decode_entry-transfer_data token allowance =
        rw is_calldata-transfer_data (read_lem token allowance)

address_lem :
    (t : Text) → is_evm_address t ≡ true → (length t ≡ 42) × (all is_hex (drop 2 t) ≡ true)
unfolding is_evm_address is_hex_of
address_lem t h = (ground arith, ground arith)

length-drop_two : (t : Text) → length t ≡ 42 → length (drop 2 t) ≡ 40
length-drop_two [] h = omega (arith, h)
length-drop_two (a ∷ []) h = omega (arith, h)
length-drop_two (a ∷ b ∷ t) h = omega (arith, h)

is_filled-address : (t : Text) → length t ≡ 42 → is_filled t ≡ true
is_filled-address [] h = absurd (omega (arith, h))
is_filled-address (c ∷ t) h = refl

valid_lem :
    (r : TypedDataRequest)
    → is_valid_request r ≡ true
    → (is_evm_address r.verifying_contract ≡ true)
      × (is_evm_address r.to ≡ true)
      × (value_from 0 r.value < 2 ^ 256)
unfolding is_valid_request is_uint256
valid_lem r h = (ground arith, ground arith, ground arith)

-- A valid request to transfer a token that has an allowance is checked as what it is: the
-- transaction it is mapped to spends the request's value of that token, to the request's recipient.
pub decode_scoped_token_spend-typed_data :
    (scope : SessionKeyScope) (r : TypedDataRequest) (token : Text) (allowance : ℕ)
    → is_valid_request r ≡ true
    → entry_of r.verifying_contract scope.token_allowances ≡ some (token, allowance)
    → decode_scoped_token_spend scope (typed_data_as_transaction r)
      ≡ passed (
          some (record {
            token_address = token;
            amount = value_from 0 r.value;
            allowance = allowance;
            recipient = codes "0x" ++ to_lower_case (drop 2 r.to);
          }))
unfolding decode_scoped_token_spend typed_data_as_transaction pad_start
decode_scoped_token_spend-typed_data scope r token allowance ok found =
    let (contract, to, small) = valid_lem r ok in
    let (contract_length, _) = address_lem r.verifying_contract contract in
    let (to_length, to_hex) = address_lem r.to to in
    let recipient = to_lower_case (drop 2 r.to) in
    let short : length recipient ≡ 40 =
      length-to_lower_case (drop 2 r.to) ∙ length-drop_two r.to to_length in
    let n = value_from 0 r.value in
    let amount = pad_start (hexadecimal n) 64 in
    let fits = length-hexadecimal n 64 (omega arith) (omega (arith, small)) in
    let long : length amount ≡ 64 = omega (
      arith,
      length-append (replicate (64 - length (hexadecimal n)) b'0') (hexadecimal n),
      length-replicate {A = ℕ} (64 - length (hexadecimal n)) b'0',
      fits,
    ) in
    let digits : all is_hex amount ≡ true =
      all-append is_hex (replicate (64 - length (hexadecimal n)) b'0') (hexadecimal n)
        (all_zeros (64 - length (hexadecimal n))) (is_hex-hexadecimal n) in
    let value : hex_from 0 amount ≡ n =
      hex_from-zeros (64 - length (hexadecimal n)) (hexadecimal n) ∙ hex_from-hexadecimal n in
    let pad : 64 - length recipient ≡ 24 = omega (arith, short) in
    let decoded =
      decode_entry-transfer_data recipient amount short long
        (is_hex-to_lower_case (drop 2 r.to) to_hex) digits token allowance in
    rw (is_filled-address r.verifying_contract contract_length, found, pad) (rw value at decoded)
