-- ===== src/Settle/Store.antt =====
-- server/verify.ts: `memorySettlementStore`, the claims on payments that are being settled.
--
-- The clock's value, in milliseconds, is an argument of each call.
pub mod Holds
use connect_lib.Base.{
  ℕ, ◌+◌, ◌*◌, max, Bool, true, false, not, ◌&&◌, Option, none, some, List, [], ◌∷◌, ltb,
  if◌then◌else◌, is_some,
}
use connect_lib.Base.Dict.{Dict, lookup, insert, erase}
use connect_lib.Base.Text.{Text, text_eq, text_eq_of}

-- `holder` is the reservation, or `none` once committed.
pub record Entry : Type 0 where
  pub expiry : ℕ
  pub holder : Option Text

abbrev pub Entries : Type 0
Entries = Dict Text Entry

-- The loop of `live`, which deletes what has expired.
unfoldable pub sweep : ℕ → Entries → Entries
sweep now [] = []
sweep now ((k, e) ∷ rest) = if ltb now e.expiry then (k, e) ∷ sweep now rest else sweep now rest

unfoldable pub claim : Text → ℕ → Text → ℕ → Entries → Bool × Entries
claim key ttl reservation now entries =
    let lived : Entries = sweep now entries in
    if is_some (lookup key lived)
    then (false, lived)
    else (true, insert key (record { expiry = now + ttl * 1000; holder = some reservation }) lived)

-- `holder === reservation`
unfoldable pub is_holder : Option Text → Text → Bool
is_holder none reservation = false
is_holder (some r) reservation = text_eq r reservation

unfoldable pub release : Text → Text → ℕ → Entries → Entries
release key reservation now entries =
    let lived : Entries = sweep now entries in
    elim (lookup key lived) [
      | none ↦ lived
      | some e ↦ if is_holder e.holder reservation then erase key lived else lived
    ]

unfoldable pub commit : Text → Text → ℕ → ℕ → Entries → Entries
commit key reservation ttl now entries =
    let lived : Entries = sweep now entries in
    elim (lookup key lived) [
      | none ↦ insert key (record { expiry = now + ttl * 1000; holder = none }) lived
      | some e ↦
          if not (is_holder e.holder reservation) && is_some e.holder
          then lived
          else insert key (record { expiry = max e.expiry (now + ttl * 1000); holder = none }) lived
    ]

-- One call of the store, by any attempt.
pub data StoreCall : Type 0 where
  claims : Text → ℕ → Text → StoreCall
  releases : Text → Text → StoreCall
  commits : Text → Text → ℕ → StoreCall

unfoldable pub call : ℕ → StoreCall → Entries → Entries
call now (claims key ttl reservation) entries = (claim key ttl reservation now entries).1
call now (releases key reservation) entries = release key reservation now entries
call now (commits key reservation ttl) entries = commit key reservation ttl now entries

unfoldable pub calls : List (ℕ × StoreCall) → Entries → Entries
calls [] entries = entries
calls ((now, c) ∷ cs) entries = calls cs (call now c entries)
