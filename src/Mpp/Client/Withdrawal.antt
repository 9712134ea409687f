-- ===== src/Mpp/Client/Withdrawal.antt =====
-- session.ts: when a withdrawal after a forced close seals the channel.
use connect_lib.Base.{
  ℕ, ◌+◌, ◌≤◌, ◌≡◌, ◌⊎◌, refl, Bool, true, false, ◌&&◌, Option, none, some, List, [], ◌∷◌, arith,
  inl, inr, Bool-cases, leb, ltb, if◌then◌else◌, length, get_elem?, or_else, ◌==◌, ap, ◌∙◌,
}
use connect_lib.Base.Bytes.{Bytes}
use connect_lib.Session.Types.{passed, thrown}
use connect_lib.Session.Passed.{>>=-eq-passed}
use connect_lib.Mpp.Types.{MppOpenChannel, answered, outside}
use connect_lib.Mpp.Client.Offer.{answered-passed}
use connect_lib.Mpp.Client.Ending.{
  read_closing_channel, is_in_grace, seal_closing, withdraw, ChannelTransaction, seal,
  withdraw_payer, started_bits, debt,
}

-- What a withdrawal has sent, newest first. The channel's account was there. Its status said that
-- the channel is sealed, and only the withdrawal was sent; or that it is closing, and the grace
-- period that began at the signed 64-bit time in the account is over, and the seal went first.
pub data IsWithdrawn (ch : MppOpenChannel) (account : Bytes) (now : ℕ)
    : List ChannelTransaction → Type 0 where
  sealed_before :
      {sent : List ChannelTransaction}
      → or_else (get_elem? account 3) 0 ≡ 1
      → sent ≡ withdraw_payer ∷ []
      → IsWithdrawn ch account now sent
  sealed_now :
      {sent : List ChannelTransaction}
      → or_else (get_elem? account 3) 0 ≡ 2
      → 44 ≤ length account
      → started_bits account + ch.grace_period_seconds ≤ now + debt (started_bits account)
      → sent ≡ withdraw_payer ∷ seal ∷ []
      → IsWithdrawn ch account now sent

-- What `readClosingChannel` says of the account.
read_closing_channel_lem :
    (found : Option Bytes) (started : Option ℕ)
    → read_closing_channel found ≡ passed started
    → (account : Bytes) × (found ≡ some account)
      × (((started ≡ none) × (or_else (get_elem? account 3) 0 ≡ 1))
          ⊎ ((started ≡ some (started_bits account))
              × (or_else (get_elem? account 3) 0 ≡ 2)
              × (44 ≤ length account)))
unfolding read_closing_channel
read_closing_channel_lem none started h = cc
read_closing_channel_lem (some account) started h = (account, refl, go h)
  where
    status : ℕ
    status = or_else (get_elem? account 3) 0

    closing :
        read_closing_channel (some account) ≡ passed started
        → (ltb 3 (length account) && (status == 1)) ≡ false
        → (started ≡ some (started_bits account)) × (status ≡ 2) × (44 ≤ length account)
    closing e no_seal =
        elim (Bool-cases (ltb 3 (length account) && (status == 2 && leb 44 (length account)))) [
          | inl is ↦
              let value = rw (no_seal, is) at e in
              (cc value, ground (arith, is), ground (arith, is))
          | inr not_it ↦ absurd (cc (rw (no_seal, not_it) at e))
        ]

    go :
        read_closing_channel (some account) ≡ passed started
        → ((started ≡ none) × (status ≡ 1))
          ⊎ ((started ≡ some (started_bits account)) × (status ≡ 2) × (44 ≤ length account))
    go e = elim (Bool-cases (ltb 3 (length account) && (status == 1))) [
      | inl is ↦ inl (cc (rw is at e), ground (arith, is))
      | inr no_seal ↦ inr (closing e no_seal)
    ]

seal_closing_lem :
    (ch : MppOpenChannel) (now : ℕ) (sealed : Bool) (bits : ℕ) (before : List ChannelTransaction)
    → seal_closing ch now sealed (some bits) ≡ passed before
    → (before ≡ seal ∷ []) × (bits + ch.grace_period_seconds ≤ now + debt bits)
unfolding seal_closing is_in_grace
seal_closing_lem ch now true bits before h = ground arith
seal_closing_lem ch now false bits before h = ground arith

last_of :
    (withdrawn : Bool) (before sent : List ChannelTransaction)
    → (if withdrawn then passed (withdraw_payer ∷ before) else thrown outside) ≡ passed sent
    → sent ≡ withdraw_payer ∷ before
last_of true before sent h = cc
last_of false before sent h = cc

-- A withdrawal that returns has found the channel's account, has sealed the channel itself only
-- after the grace period, and has not sealed one that was sealed before.
pub withdraw-IsWithdrawn :
    (ch : MppOpenChannel) (account : Option (Option Bytes)) (now : ℕ) (sealed withdrawn : Bool)
    (sent : List ChannelTransaction)
    → withdraw ch account now sealed withdrawn ≡ passed sent
    → (bytes : Bytes) × (account ≡ some (some bytes)) × IsWithdrawn ch bytes now sent
unfolding withdraw
withdraw-IsWithdrawn ch account now sealed withdrawn sent h =
    let (found, there, h₁) = >>=-eq-passed _ (answered account) h in
    let (started, read, h₂) = >>=-eq-passed _ (read_closing_channel found) h₁ in
    let (before, sealing, h₃) = >>=-eq-passed _ (seal_closing ch now sealed started) h₂ in
    let (bytes, is, cases) = read_closing_channel_lem found started read in
    let last = last_of withdrawn before sent h₃ in
    (
      bytes,
      answered-passed account there ∙ ap some is,
      ended bytes started before last sealing cases,
    )
  where
    ended :
        (bytes : Bytes) (started : Option ℕ) (before : List ChannelTransaction)
        → sent ≡ withdraw_payer ∷ before
        → seal_closing ch now sealed started ≡ passed before
        → ((started ≡ none) × (or_else (get_elem? bytes 3) 0 ≡ 1))
          ⊎ ((started ≡ some (started_bits bytes))
              × (or_else (get_elem? bytes 3) 0 ≡ 2)
              × (44 ≤ length bytes))
        → IsWithdrawn ch bytes now sent
    ended bytes started before last sealing (inl (e, status)) =
        sealed_before status
          (last ∙ ap (λ (l : List ChannelTransaction). withdraw_payer ∷ l) (cc (rw e at sealing)))
    ended bytes started before last sealing (inr (e, status, long)) =
        let (is, over) =
          seal_closing_lem ch now sealed (started_bits bytes) before (rw e at sealing) in
        sealed_now status long over
          (last ∙ ap (λ (l : List ChannelTransaction). withdraw_payer ∷ l) is)
