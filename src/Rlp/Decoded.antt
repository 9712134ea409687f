-- ===== src/Rlp/Decoded.antt =====
-- rlp.ts: a decoder of RLP, and what it reads of an encoded list.
use connect_lib.Base.{
  ℕ, zero, suc, ◌+◌, ◌-◌, ◌^◌, ◌<◌, ◌≤◌, ◌≡◌, refl, sym, ap, ◌∙◌, inl, inr, true, false, ◌&&◌,
  Option, none, some, List, [], ◌∷◌, ◌++◌, map, arith, leb, ltb, if◌then◌else◌, length, take, drop,
  take-append, drop-append, length-append, All, Bool-cases,
}
use connect_lib.Base.Bytes.{Bytes}
use connect_lib.Rlp.{length_bytes, with_header, is_single, rlp_bytes, concat_bytes, encode_rlp_list}
use connect_lib.Rlp.Lengths.{from_be, from_be-length_bytes, length-length_bytes, length_bytes-some}

-- So many bytes, and what follows.
unfoldable pub split : ℕ → Bytes → Option (Bytes × Bytes)
split n bytes = if leb n (length bytes) then some (take n bytes, drop n bytes) else none

unfoldable pub split_long : Option (Bytes × Bytes) → Option (Bytes × Bytes)
split_long none = none
split_long (some (n, rest)) = split (from_be 0 n) rest

-- The payload after a header of that offset: its length, or the length of its length, is the header's
-- distance from the offset.
unfoldable pub payload : ℕ → Bytes → Option (Bytes × Bytes)
payload offset [] = none
payload offset (h ∷ rest) =
    if leb offset h && ltb h (offset + 56)
    then split (h - offset) rest
    else if leb (offset + 56) h && ltb h (offset + 64)
    then split_long (split (h - (offset + 55)) rest)
    else none

-- A string at the front: a byte below 128 is itself.
unfoldable pub decode_string : Bytes → Option (Bytes × Bytes)
decode_string [] = none
decode_string (h ∷ rest) = if ltb h 128 then some (h ∷ [], rest) else payload 128 (h ∷ rest)

abbrev pub and_item : Bytes → Option (List Bytes) → Option (List Bytes)
and_item b none = none
and_item b (some items) = some (b ∷ items)

-- Strings up to the end of the bytes.
unfoldable pub decode_strings : ℕ → Bytes → Option (List Bytes)
decode_strings fuel [] = some []
decode_strings zero (h ∷ rest) = none
decode_strings (suc fuel) (h ∷ rest) = elim (decode_string (h ∷ rest)) [
  | none ↦ none
  | some r ↦ and_item r.0 (decode_strings fuel r.1)
]

unfoldable pub decode_payload : Option (Bytes × Bytes) → Option (List Bytes)
decode_payload (some (bytes, [])) = decode_strings (length bytes) bytes
decode_payload _ = none

-- A list of strings, with nothing after it.
unfoldable pub decode_list : Bytes → Option (List Bytes)
decode_list bytes = decode_payload (payload 192 bytes)

split-append : (b rest : Bytes) → split (length b) (b ++ rest) ≡ some (b, rest)
unfolding split
split-append b rest =
    let fits : leb (length b) (length (b ++ rest)) ≡ true = ground (arith, length-append b rest) in
    rw (fits, take-append b rest, drop-append b rest) refl

append_assoc : (a b c : Bytes) → (a ++ b) ++ c ≡ a ++ (b ++ c)
append_assoc [] b c = refl
append_assoc (x ∷ a) b c = ap (λ l. x ∷ l) (append_assoc a b c)

payload-with_header :
    (offset : ℕ) (b rest : Bytes)
    → length b < 2 ^ 64
    → payload offset (with_header offset b ++ rest) ≡ some (b, rest)
unfolding payload with_header split_long
payload-with_header offset b rest h = elim (Bool-cases (ltb (length b) 56)) [
  | inl short ↦
      let low : (leb offset (offset + length b) && ltb (offset + length b) (offset + 56)) ≡ true =
        ground (arith, short) in
      let size : offset + length b - offset ≡ length b = omega arith in
      rw (short, low, size) (split-append b rest)
  | inr long ↦
      let n = length_bytes (length b) in
      let few : length n ≤ 8 = length-length_bytes (length b) h in
      let some_byte : 0 < length n = length_bytes-some (length b) (ground (arith, long)) in
      let not_low : (leb offset (offset + 55 + length n)
            && ltb (offset + 55 + length n) (offset + 56))
          ≡ false =
        ground (arith, some_byte) in
      let high : (leb (offset + 56) (offset + 55 + length n)
            && ltb (offset + 55 + length n) (offset + 64))
          ≡ true =
        ground (arith, some_byte, few) in
      let size : offset + 55 + length n - (offset + 55) ≡ length n = omega arith in
      rw
        (
          long,
          not_low,
          high,
          size,
          append_assoc n b rest,
          split-append n (b ++ rest),
          split_long,
          from_be-length_bytes (length b),
        )
        (split-append b rest)
]

decode_string-rlp_bytes :
    (b rest : Bytes) → length b < 2 ^ 64 → decode_string (rlp_bytes b ++ rest) ≡ some (b, rest)
unfolding decode_string rlp_bytes with_header
decode_string-rlp_bytes b rest h = elim (Bool-cases (is_single b)) [
  | inl single ↦ single_lem b single
  | inr other ↦ rw other (elim (Bool-cases (ltb (length b) 56)) [
    | inl short ↦
        let high : ltb (128 + length b) 128 ≡ false = ground arith in
        let read = payload-with_header 128 b rest h in rw (short, high) (rw short at read)
    | inr long ↦
        let high : ltb (128 + 55 + length (length_bytes (length b))) 128 ≡ false = ground arith in
        let read = payload-with_header 128 b rest h in rw (long, high) (rw long at read)
  ])
]
  where
    single_lem :
        (b : Bytes) → is_single b ≡ true → decode_string (rlp_bytes b ++ rest) ≡ some (b, rest)
    single_lem [] single = absurd (ground (arith, single))
    single_lem (x ∷ []) single = rw (single, single) refl
    single_lem (x ∷ y ∷ b) single = absurd (ground (arith, single))

rlp_bytes-some : (b : Bytes) → 0 < length (rlp_bytes b)
unfolding rlp_bytes with_header
rlp_bytes-some b = elim (Bool-cases (is_single b)) [
  | inl single ↦ single_lem b single
  | inr other ↦ rw other (elim (Bool-cases (ltb (length b) 56)) [
    | inl short ↦ rw short (omega arith)
    | inr long ↦ rw long (omega arith)
  ])
]
  where
    single_lem : (b : Bytes) → is_single b ≡ true → 0 < length (rlp_bytes b)
    single_lem [] single = absurd (ground (arith, single))
    single_lem (x ∷ []) single = rw single (omega arith)
    single_lem (x ∷ y ∷ b) single = absurd (ground (arith, single))

decode_strings-step :
    (s b rest : Bytes) (fuel : ℕ)
    → 0 < length s
    → decode_string s ≡ some (b, rest)
    → decode_strings (suc fuel) s ≡ and_item b (decode_strings fuel rest)
unfolding decode_strings
decode_strings-step [] b rest fuel filled h = absurd (omega (arith, filled))
decode_strings-step (x ∷ s) b rest fuel filled h = rw (h, decode_strings) refl

-- Strings short enough to be encoded.
abbrev pub AreShort : List Bytes → Type 0
AreShort = All (λ b. length b < 2 ^ 64)

decode_strings-concat_bytes :
    (items : List Bytes) (fuel : ℕ)
    → AreShort items
    → length (concat_bytes (map rlp_bytes items)) ≤ fuel
    → decode_strings fuel (concat_bytes (map rlp_bytes items)) ≡ some items
unfolding concat_bytes decode_strings
decode_strings-concat_bytes [] zero short fits = refl
decode_strings-concat_bytes [] (suc fuel) short fits = refl
decode_strings-concat_bytes (b ∷ items) zero (here, short) fits =
    let rest = concat_bytes (map rlp_bytes items) in
    absurd (omega (arith, length-append (rlp_bytes b) rest, rlp_bytes-some b, fits))
decode_strings-concat_bytes (b ∷ items) (suc fuel) (here, short) fits =
    let rest = concat_bytes (map rlp_bytes items) in
    let size = length-append (rlp_bytes b) rest in
    let filled = rlp_bytes-some b in
    decode_strings-step (rlp_bytes b ++ rest) b rest fuel (omega (arith, size, filled))
      (decode_string-rlp_bytes b rest here)
    ∙ ap (and_item b)
        (decode_strings-concat_bytes items fuel short (omega (arith, size, filled, fits)))

append_nil : (b : Bytes) → b ++ [] ≡ b
append_nil [] = refl
append_nil (x ∷ b) = ap (λ l. x ∷ l) (append_nil b)

-- The strings of an encoded list, each encoded as `toRlpBytes` encodes it, can be read back from it
-- by a decoder of RLP, if each of them and their encodings together have fewer than 2 ^ 64 bytes.
pub decode_list-encode_rlp_list :
    (items : List Bytes)
    → AreShort items
    → length (concat_bytes (map rlp_bytes items)) < 2 ^ 64
    → decode_list (encode_rlp_list (map rlp_bytes items)) ≡ some items
unfolding decode_list encode_rlp_list decode_payload
decode_list-encode_rlp_list items short fits =
    let bytes = concat_bytes (map rlp_bytes items) in
    let read : payload 192 (with_header 192 bytes) ≡ some (bytes, []) =
      ap (payload 192) (sym (append_nil (with_header 192 bytes)))
      ∙ payload-with_header 192 bytes [] fits in
    rw read (decode_strings-concat_bytes items (length bytes) short (omega arith))
