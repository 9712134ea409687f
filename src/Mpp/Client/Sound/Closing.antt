-- ===== src/Mpp/Client/Sound/Closing.antt =====
-- session.ts: what `close` and `forceClose` settle for, and the client that they leave.
use connect_lib.Base.{
  ◌≤◌, ◌≡◌, refl, Bool, true, Option, none, some, List, [], ◌∷◌, arith, ap, ◌∙◌, sym,
}
use connect_lib.Base.Text.{Text, text_eq, text_eq_iff}
use connect_lib.Session.Types.{passed}
use connect_lib.Voucher.Types.{StoredKey}
use connect_lib.Voucher.Manager.{find_key, SignedVoucher, revoke}
use connect_lib.Voucher.Manager.Updates.{revoke-found, OnlyLive, OnlyLive-revoke}
use connect_lib.Mpp.Types.{MppSessionPolicy, MppOpenChannel, MppSessionSettlementBinding, present}
use connect_lib.Mpp.Client.{Active, Client, without_channel}
use connect_lib.Session.Passed.{>>=-eq-passed}
use connect_lib.Mpp.Client.Offer.{present-passed}
use connect_lib.Mpp.Client.Ending.{settlement_binding, ended, revoke_and_end, closable}
use connect_lib.Mpp.Client.Sound.{IsKeyed, IsOpen}

-- What a client has settled for when a channel ends: exactly what the channel's key has signed for,
-- or nothing if the open was never acknowledged, within the policy's limit and deposit. No channel
-- is left, and no key that signs.
pub record IsSettled (p : MppSessionPolicy) (c : Client) (b : MppSessionSettlementBinding)
    (c' : Client) : Type 0 where
  pub channel : Active
  pub opened : c.active ≡ some channel
  pub named : b.channel_id ≡ channel.channel.channel_id
  pub amount :
      (id : Text) (k : StoredKey)
      → channel.key_id ≡ some id
      → find_key id c.keys ≡ some k
      → b.expected_settled ≡ k.last_cumulative
  pub stranded : channel.key_id ≡ none → b.expected_settled ≡ 0
  pub limit : b.expected_settled ≤ p.max_cumulative
  pub covered : b.expected_settled ≤ p.deposit
  pub closed : c'.active ≡ none
  pub unlisted : c'.channels ≡ []
  pub dead : OnlyLive none c'.keys

pub without_listed :
    (ch : MppOpenChannel) (channels : List MppOpenChannel)
    → channels ≡ ch ∷ []
    → without_channel ch.channel_id channels ≡ []
without_listed ch channels listed =
    let self : text_eq ch.channel_id ch.channel_id ≡ true =
      (text_eq_iff ch.channel_id ch.channel_id).1 refl in
    rw (listed, self) refl

module _ (p : MppSessionPolicy) (a : Active) (c : Client) (at : c.active ≡ some a)
    (listed : c.channels ≡ a.channel ∷ []) (open_terms : IsOpen p a c.keys)
    (only : OnlyLive a.key_id c.keys) where
  -- The amount that the last voucher states is what the key has signed for.
  stated :
      (forced : Bool) (id : Text) (k : StoredKey)
      → a.key_id ≡ some id
      → find_key id c.keys ≡ some k
      → (settlement_binding a.channel a.last_voucher forced).expected_settled ≡ k.last_cumulative
  unfolding settlement_binding
  stated forced id k is there =
      let h = open_terms.keyed id is in
      let same : h.key ≡ k = cc h.found in
      let last : h.key.last_cumulative ≡ k.last_cumulative =
        ap (λ (d : StoredKey). d.last_cumulative) same in
      go a.last_voucher refl h last
    where
      go :
          (v : Option SignedVoucher)
          → a.last_voucher ≡ v
          → (h : IsKeyed p a id c.keys) → h.key.last_cumulative ≡ k.last_cumulative
          → (settlement_binding a.channel v forced).expected_settled ≡ k.last_cumulative
      go none e h last = sym (h.unsent e) ∙ last
      go (some s) e h last = (h.sent s e).0 ∙ last

  -- Settling for the last voucher, and revoking the key, is a settlement.
  pub settled :
      (forced : Bool) (id : Text)
      → a.key_id ≡ some id
      → IsSettled p c
          (settlement_binding a.channel a.last_voucher forced)
          (ended a.channel (revoke id c.keys).1 c)
  unfolding settlement_binding
  settled forced id is =
      let h = open_terms.keyed id is in
      let value = stated forced id h.key is h.found in
      record {
        channel = a;
        opened = at;
        named = refl;
        amount = λ j k mine there. stated forced j k mine there;
        stranded = λ e. absurd (cc is);
        limit = omega (arith, value, h.within, h.budget);
        covered = omega (arith, value, h.within, h.covered);
        closed = refl;
        unlisted = without_listed a.channel c.channels listed;
        dead = OnlyLive-revoke id c.keys (rw is at only);
      }

  pub stranded_settled :
      a.key_id ≡ none
      → IsSettled p c (settlement_binding a.channel a.last_voucher true) (ended a.channel c.keys c)
  unfolding settlement_binding
  stranded_settled is =
      let nothing : (settlement_binding a.channel a.last_voucher true).expected_settled ≡ 0 =
        rw (open_terms.unacknowledged is) refl in
      record {
        channel = a;
        opened = at;
        named = refl;
        amount = λ j k mine there. absurd (cc is);
        stranded = λ e. nothing;
        limit = omega (arith, nothing);
        covered = omega (arith, nothing);
        closed = refl;
        unlisted = without_listed a.channel c.channels listed;
        dead = rw is at only;
      }

  -- The key of an acknowledged channel can be revoked, so that the channel ends.
  pub revoke_and_end-ok :
      {A : Type 0} (id : Text) (result : A)
      → a.key_id ≡ some id
      → revoke_and_end id a.channel result c
        ≡ (passed result, ended a.channel (revoke id c.keys).1 c)
  unfolding revoke_and_end
  revoke_and_end-ok id result is =
      let h = open_terms.keyed id is in rw (revoke-found id h.key c.keys h.found) refl

pub closable-passed :
    (o : Option Active) (a : Active) (id : Text) (final : SignedVoucher)
    → closable o ≡ passed (a, id, final)
    → (o ≡ some a) × (a.key_id ≡ some id) × (a.last_voucher ≡ some final)
unfolding closable
closable-passed none a id final h = cc
closable-passed (some b) a id final h =
    let (j, known, h₁) = >>=-eq-passed _ (present b.key_id _ _) h in
    let (s, there, h₂) = >>=-eq-passed _ (present b.last_voucher _ _) h₁ in
    let same : b ≡ a = ground (arith, h₂) in
    (
      ap some same,
      ap (λ (d : Active). d.key_id) (sym same)
          ∙ present-passed b.key_id _ _ known
          ∙ ap some (ground (arith, h₂)),
      ap (λ (d : Active). d.last_voucher) (sym same)
          ∙ present-passed b.last_voucher _ _ there
          ∙ ap some (ground (arith, h₂)),
    )
