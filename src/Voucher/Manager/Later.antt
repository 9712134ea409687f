-- ===== src/Voucher/Manager/Later.antt =====
-- channel-voucher-keys.ts: what becomes of one stored key in any sequence of calls.
use connect_lib.Base.{ℕ, ◌≡◌, refl, some, List, [], ◌∷◌, arith, inl, inr, Bool-cases, ◌∙◌}
use connect_lib.Base.Text.{Text, text_eq, text_eq_iff}
use connect_lib.Voucher.Types.{StoredKey, Crypto, Result, ok}
use connect_lib.Voucher.Manager.{find_key, sign_change, bind_change}
use connect_lib.Voucher.Manager.Found.{find_key-id, find_key-put_key, find_key-append_old}
use connect_lib.Voucher.Manager.Keys.{
  Changes, binds, revokes, IsLater, Changes-IsLater, bind_change_lem,
}
use connect_lib.Voucher.Manager.Run.{
  Call, creates, bind, sign, revokes_key, step, run, sign_change-Changes,
}
use connect_lib.Voucher.Manager.Updates.{
  Updates, fails, works, sign_voucher-Updates, bind_channel-Updates, revoke-Updates, create-cases,
  revoked,
}

IsLater-refl : (k : StoredKey) → IsLater k k
IsLater-refl k = record {
  id = refl;
  address = refl;
  policy = refl;
  amount = omega arith;
  channel = λ c e. e;
  revoked = λ e. e;
}

IsLater-trans : {k l m : StoredKey} → IsLater k l → IsLater l m → IsLater k m
IsLater-trans a b = record {
  id = b.id ∙ a.id;
  address = b.address ∙ a.address;
  policy = b.policy ∙ a.policy;
  amount = omega (arith, a.amount, b.amount);
  channel = λ c e. b.channel c (a.channel c e);
  revoked = λ e. b.revoked (a.revoked e);
}

-- The key of an id is stored, and is a later state of `k`.
abbrev pub HasLater : Text → StoredKey → List StoredKey → Type 0
HasLater id k keys = (k' : StoredKey) × (find_key id keys ≡ some k') × IsLater k k'

module _ {T : Type 0} (id j : Text) (change : StoredKey → Result (T × StoredKey))
    (sound : (k k' : StoredKey) (t : T) → change k ≡ ok (t, k') → Changes k k') where
  Updates-HasLater :
      (k : StoredKey) (keys : List StoredKey) {u : Result T × List StoredKey}
      → find_key id keys ≡ some k
      → Updates j change keys u
      → HasLater id k u.1
  Updates-HasLater k keys there (fails e eq) = rw eq (k, there, IsLater-refl k)
  Updates-HasLater k keys there (works i i' t found made eq) =
      let later : IsLater i i' = Changes-IsLater (sound i i' t made) in
      let put = find_key-put_key id j i' keys (later.id ∙ find_key-id j keys i found) i found in
      elim (Bool-cases (text_eq j id)) [
        | inr other ↦ rw eq (k, (rw other at put) ∙ there, IsLater-refl k)
        | inl same ↦
            let mine : find_key id keys ≡ some i = rw ((text_eq_iff j id).0 same) at found in
            let one : i ≡ k = cc (mine, there) in rw eq (i', rw same at put, rw one at later)
      ]

step-HasLater :
    (x : Crypto) (id : Text) (now : ℕ) (c : Call) (k : StoredKey) (keys : List StoredKey)
    (amounts : List ℕ)
    → find_key id keys ≡ some k
    → HasLater id k (step x id now c (keys, amounts)).0
unfolding step
step-HasLater x id now (creates config p secret new_id) k keys amounts there =
    elim (create-cases x config p secret new_id now keys) [
      | inl (e, eq) ↦ rw eq (k, there, IsLater-refl k)
      | inr eq ↦ rw eq (k, find_key-append_old id keys _ k there, IsLater-refl k)
    ]
step-HasLater x id now (bind j b) k keys amounts there =
    Updates-HasLater id j (bind_change x b)
      (λ i i' t e.
        let (secret, free, is) = bind_change_lem x b i i' t e in binds x b secret free is)
      k keys there (bind_channel-Updates x j b keys)
step-HasLater x id now (sign j channel_id units) k keys amounts there =
    Updates-HasLater id j (sign_change x channel_id units now)
      (sign_change-Changes x channel_id units now) k keys there
      (sign_voucher-Updates x j channel_id units now keys)
step-HasLater x id now (revokes_key j) k keys amounts there =
    Updates-HasLater id j (λ i. ok (tt, revoked i)) (λ i i' t e. revokes (ground arith)) k keys
      there (revoke-Updates j keys)

-- In any sequence of calls of the manager, successful or refused, whatever key they are for: a
-- stored key stays stored, keeps its id, address and policy, never lowers the amount it has signed
-- for, keeps the channel that it is bound to, and never comes back from its revocation.
pub run-HasLater :
    (x : Crypto) (id : Text) (cs : List (ℕ × Call)) (k : StoredKey) (keys : List StoredKey)
    (amounts : List ℕ)
    → find_key id keys ≡ some k
    → HasLater id k (run x id cs (keys, amounts)).0
unfolding run
run-HasLater x id [] k keys amounts there = (k, there, IsLater-refl k)
run-HasLater x id ((now, c) ∷ cs) k keys amounts there =
    let (l, found, later) = step-HasLater x id now c k keys amounts there in
    let (k', at_end, last) =
      run-HasLater x id cs l (step x id now c (keys, amounts)).0 (step x id now c (keys, amounts)).1
        found in
    (k', at_end, IsLater-trans later last)
