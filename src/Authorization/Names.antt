-- ===== src/Authorization/Names.antt =====
-- authorization/index.ts, caip.ts and address-validation.ts: canonical assets, addresses and
-- principals.
--
-- `.` of a regular expression takes no line break; the tests after it refuse one too.
use connect_lib.Base.{
  ℕ, suc, ◌-◌, ◌^◌, ◌/◌, ◌%◌, Bool, true, false, not, ◌&&◌, Option, none, some, List, [], ◌∷◌, ◌++◌,
  leb, ◌==◌, if◌then◌else◌, length, take, drop, all, or_else, get_elem?,
}
use connect_lib.Base.Bytes.{Bytes}
use connect_lib.Base.Decimal.{decimal}
use connect_lib.Base.Hex.{is_hex_of}
use connect_lib.Base.Text.{Text, codes, text_eq, to_lower_case}
use connect_lib.Units.{is_digit, value_from}
use connect_lib.Voucher.Address.{is_valid_solana_address, is_solana_caip2, drop_prefix}

-- Keccak and base58, of third-party packages.
pub record Codec : Type 0 where
  pub keccak : Bytes → Bytes
  pub encode58 : Bytes → Text
  pub decode58 : Text → Option Bytes

pub data Namespace : Type 0 where
  eip155 solana : Namespace

pub data AssetKind : Type 0 where
  erc20 native token : AssetKind

pub record ParsedAsset : Type 0 where
  pub canonical : Text
  pub chain : Text
  pub namespace : Namespace
  pub kind : AssetKind
  pub address : Option Text

abbrev pub max_safe : ℕ
max_safe = 2 ^ 53 - 1

-- `Number.isSafeInteger`, of a natural number
abbrev pub is_safe : ℕ → Bool
is_safe n = leb n max_safe

-- `EVM_ADDR_RE`
unfoldable pub is_evm_address : Text → Bool
is_evm_address = is_hex_of 40

-- `toUpperCase` on one code unit of the ASCII range
unfoldable pub upper_unit : ℕ → ℕ
upper_unit c = if leb b'a' c && leb c b'z' then c - 32 else c

-- The nibble of the hash over the `i`-th character; the hash has 32 bytes.
unfoldable pub nibble : Bytes → ℕ → ℕ
nibble hash i =
    let byte : ℕ = or_else (get_elem? hash (i / 2)) 0 in if i % 2 == 0 then byte / 16 else byte % 16

-- The loop of `toChecksumAddress`, from the `i`-th character.
unfoldable pub checksum_from : Bytes → ℕ → Text → Text
checksum_from hash i [] = []
checksum_from hash i (c ∷ cs) =
    (if leb 8 (nibble hash i) then upper_unit c else c) ∷ checksum_from hash (suc i) cs

-- The characters before the first that is no digit, and those from it on.
unfoldable pub digits_of : Text → Text
digits_of [] = []
digits_of (c ∷ cs) = elim (is_digit c) [ true ↦ c ∷ digits_of cs | false ↦ [] ]

unfoldable pub after_digits : Text → Text
after_digits [] = []
after_digits (c ∷ cs) = elim (is_digit c) [ true ↦ after_digits cs | false ↦ c ∷ cs ]

-- `/^[1-9]\d*$/`
unfoldable pub is_positive_decimal : Text → Bool
is_positive_decimal [] = false
is_positive_decimal (c ∷ cs) = leb b'1' c && leb c b'9' && all is_digit cs

-- `eip155Reference`, of the text after "eip155:"
unfoldable pub eip155_reference : Text → Option ℕ
eip155_reference reference =
    if is_positive_decimal reference && is_safe (value_from 0 reference)
    then some (value_from 0 reference)
    else none

-- `split(":")`
unfoldable pub prepend : ℕ → List Text → List Text
prepend c [] = (c ∷ []) ∷ []
prepend c (part ∷ parts) = (c ∷ part) ∷ parts

unfoldable pub split_colon : Text → List Text
unfolding prepend
split_colon [] = [] ∷ []
split_colon (c ∷ cs) = elim (c == b':') [
  | true ↦ [] ∷ split_colon cs
  | false ↦ prepend c (split_colon cs)
]

abbrev pub is_filled : Text → Bool
is_filled [] = false
is_filled (_ ∷ _) = true

module _ (x : Codec) where
  -- `toChecksumAddress`, of an EVM address
  unfoldable pub to_checksum_address : Text → Text
  to_checksum_address a =
      let lower : Text = to_lower_case (drop 2 a) in
      codes "0x" ++ checksum_from (x.keccak lower) 0 lower

  -- `canonicalSolanaAddress`
  unfoldable pub canonical_solana_address : Text → Option Text
  canonical_solana_address a =
      if not (is_valid_solana_address a) then none else elim (x.decode58 a) [
        | none ↦ none
        | some bytes ↦ if length bytes == 32 then some (x.encode58 bytes) else none
      ]

  -- `canonicalAddress`
  unfoldable pub canonical_address : Namespace → Text → Option Text
  canonical_address eip155 a = if is_evm_address a then some (to_checksum_address a) else none
  canonical_address solana a = canonical_solana_address a

  -- The native coin or the token after an EVM chain.
  unfoldable pub parse_evm_kind : ℕ → Text → Option ParsedAsset
  parse_evm_kind number rest =
      let chain : Text = codes "eip155:" ++ decimal number in
      elim (drop_prefix (codes "/slip44:") rest) [
        | some coin ↦
            if text_eq coin (codes "60")
            then some (record {
              canonical = chain ++ codes "/slip44:60";
              chain = chain;
              namespace = eip155;
              kind = native;
              address = none;
            })
            else none
        | none ↦ elim (drop_prefix (codes "/erc20:") rest) [
          | none ↦ none
          | some a ↦
              if is_evm_address a
              then some (record {
                canonical = chain ++ (codes "/erc20:" ++ to_checksum_address a);
                chain = chain;
                namespace = eip155;
                kind = erc20;
                address = some (to_checksum_address a);
              })
              else none
        ]
      ]

  unfoldable pub parse_evm_asset : Text → Option ParsedAsset
  parse_evm_asset rest = elim (eip155_reference (digits_of rest)) [
    | none ↦ none
    | some number ↦ parse_evm_kind number (after_digits rest)
  ]

  -- The text after "solana:": 32 characters of the chain, "/token:", and the mint.
  unfoldable pub parse_solana_asset : Text → Option ParsedAsset
  parse_solana_asset rest =
      let chain : Text = codes "solana:" ++ take 32 rest in
      if not (is_solana_caip2 chain)
      then none
      else elim (drop_prefix (codes "/token:") (drop 32 rest)) [
        | none ↦ none
        | some mint ↦ elim (canonical_solana_address mint) [
          | none ↦ none
          | some a ↦ some (record {
            canonical = chain ++ (codes "/token:" ++ a);
            chain = chain;
            namespace = solana;
            kind = token;
            address = some a;
          })
        ]
      ]

  -- `parseAsset`
  unfoldable pub parse_asset : Text → Option ParsedAsset
  parse_asset t = elim (drop_prefix (codes "eip155:") t) [
    | some rest ↦ parse_evm_asset rest
    | none ↦ elim (drop_prefix (codes "solana:") t) [
      | none ↦ none
      | some rest ↦ parse_solana_asset rest
    ]
  ]

  -- The principal of the three parts of a CAIP-10 account.
  unfoldable pub principal_of : Text → Text → Text → Option Text
  principal_of namespace reference address =
      if text_eq namespace (codes "eip155")
      then elim (canonical_address eip155 address) [
        | none ↦ none
        | some a ↦ elim (eip155_reference reference) [
          | none ↦ none
          | some n ↦ some (codes "eip155:" ++ (decimal n ++ (codes ":" ++ a)))
        ]
      ]
      else if text_eq namespace (codes "solana")
      then elim (canonical_address solana address) [
        | none ↦ none
        | some a ↦
            let chain : Text = codes "solana:" ++ reference in
            if is_solana_caip2 chain then some (chain ++ (codes ":" ++ a)) else none
      ]
      else none

  -- What `parseCaip10` accepts has three parts, none of them empty.
  unfoldable pub principal_from : List Text → Option Text
  principal_from (namespace ∷ reference ∷ address ∷ []) =
      if is_filled namespace && (is_filled reference && is_filled address)
      then principal_of namespace reference address
      else none
  principal_from _ = none

  -- `canonicalPrincipal`
  unfoldable pub canonical_principal : Text → Option Text
  canonical_principal t = principal_from (split_colon t)
