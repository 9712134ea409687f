-- ===== src/Mpp/Mint.antt =====
-- core/src/solana-payment.ts: `readMint`, the mints that may be paid with.
use connect_lib.Base.{
  ℕ, zero, suc, ◌+◌, Bool, true, false, not, ◌&&◌, ◌||◌, Option, none, some, ltb, ◌==◌,
  if◌then◌else◌, length, take, drop, get_elem?, or_else,
}
use connect_lib.Base.Bytes.{Bytes, from_le}
use connect_lib.Base.Text.{Text, codes, text_eq}
use connect_lib.Mpp.Types.{MintAccount, MintDetails}

abbrev pub token_program : Text
token_program = codes "TokenkegQfeZyiNwAJbNbGKPFXCWuBvf9Ss623VQ5DA"

abbrev pub token_2022_program : Text
token_2022_program = codes "TokenzQdBNbLqP5VEhdkAS6EPFLC1PHnBqCXEpPxuEb"

abbrev pub is_token_program : Text → Bool
is_token_program t = text_eq t token_program || text_eq t token_2022_program

-- `REFUSED_MINT_EXTENSIONS[type]`
unfoldable pub is_refused : ℕ → Bool
is_refused type = type == 1 || (type == 9 || (type == 14 || (type == 16 || type == 26)))

-- `view.getUint16(offset, true)`
unfoldable pub uint16_at : ℕ → Bytes → ℕ
unfolding from_le
uint16_at offset bytes = from_le (take 2 (drop offset bytes))

-- The loop over the extensions; whether it ends without a refusal. A round moves on by at least
-- four bytes, so the length of the account is enough fuel.
unfoldable pub screen_from : ℕ → ℕ → Bytes → Bool
unfolding is_refused uint16_at
screen_from zero offset bytes = false
screen_from (suc fuel) offset bytes =
    let rest = screen_from fuel (offset + (4 + uint16_at (offset + 2) bytes)) bytes in
    let inside = not (ltb (length bytes) offset) in
    if ltb (length bytes) (offset + 4)
    then inside
    else if uint16_at offset bytes == 0
    then inside
    else if is_refused (uint16_at offset bytes)
    then false
    else rest

-- `screenMintExtensions`, whether it returns
unfoldable pub screen_mint_extensions : Bytes → Bool
unfolding screen_from
screen_mint_extensions bytes =
    if length bytes == 82
    then true
    else if ltb (length bytes) 166 || not (or_else (get_elem? bytes 165) 0 == 1)
    then false
    else screen_from (length bytes) 166 bytes

-- `readMint`; `none` where it throws
unfoldable pub read_mint : MintAccount → Option MintDetails
unfolding screen_mint_extensions
read_mint a =
    if not (is_token_program a.owner)
    then none
    else if ltb (length a.contents) 82 || not (or_else (get_elem? a.contents 45) 0 == 1)
    then none
    else if text_eq a.owner token_2022_program && not (screen_mint_extensions a.contents)
    then none
    else some (record { token_program = a.owner; decimals = or_else (get_elem? a.contents 44) 0 })
