-- ===== src/Mpp/Client/Authorized.antt =====
-- From an authorization to a payment: what each channel of a session client pays under a policy that
-- `compileMppSession` of authorization/index.ts has compiled.
use connect_lib.Base.{◌≤◌, ◌≡◌, false, none, some, List, [], ◌∷◌, arith, ap, ◌∙◌, sym}
use connect_lib.Base.Text.{Text}
use connect_lib.Authorization.Names.{Codec}
use connect_lib.Authorization.Types.{Authorization, Grant}
use connect_lib.Authorization.Compile.{
  MppSessionCompileContext, CompiledMppSessionPolicy, CompiledMppSession, compile_mpp_session,
}
use connect_lib.Authorization.Compile.Faithful.{IsFaithful, compile_mpp_session-IsFaithful}
use connect_lib.Session.Types.{passed}
use connect_lib.Voucher.Types.{StoredKey, Crypto, ManagerConfig}
use connect_lib.Voucher.Manager.Updates.{OnlyLive}
use connect_lib.Mpp.Types.{MppSessionPolicy, MppSessionSettlementBinding}
use connect_lib.Mpp.Client.{Active, Client, new_client}
use connect_lib.Mpp.Client.Run.{Reaches}
use connect_lib.Mpp.Client.Sound.{IsSoundAt}
use connect_lib.Mpp.Client.Sound.Closing.{IsSettled}
use connect_lib.Mpp.Client.Reached.{Reaches-IsSound, Ends, Ends-IsSettled}

-- `CompiledMppSession.client` as the policy of a client, which has the same fields.
abbrev pub session_policy : CompiledMppSessionPolicy → MppSessionPolicy
session_policy c = record {
  recipient = c.recipient;
  mint = c.mint;
  amount = c.amount;
  deposit = c.deposit;
  max_cumulative = c.max_cumulative;
  max_delta = c.max_delta;
  expires_at = c.expires_at;
  minimum_grace_period_seconds = c.minimum_grace_period_seconds;
}

-- What one channel paid under a grant: no more than its total, to its only recipient.
pub record IsWithinGrant (g : Grant) (c : Client) (b : MppSessionSettlementBinding) : Type 0 where
  pub channel : Active
  pub opened : c.active ≡ some channel
  pub recipient : g.recipients ≡ channel.channel.payee ∷ []
  pub paid : b.expected_settled ≤ g.max_total

-- An authorization that compiles to a payment session has one grant for such sessions on the
-- cluster, and whatever a client with the compiled policy is asked and answered, in any order, from
-- a store without active keys: whenever a channel of it ends, by a close or by force, the channel is
-- one to the grant's only recipient, and that channel settles for no more than the grant's total.
-- The bound is on each channel, not on all channels of the client together.
pub Ends-IsWithinGrant :
    (codec : Codec) (a : Authorization) (cluster : Text) (context : MppSessionCompileContext)
    (m : CompiledMppSession) (x : Crypto) (config : ManagerConfig) (signer : Text)
    (keys : List StoredKey) {c c' : Client} {b : MppSessionSettlementBinding}
    → compile_mpp_session codec a cluster context false ≡ passed m
    → OnlyLive none keys
    → Reaches x config (session_policy m.client) signer (new_client keys) c
    → Ends c b c'
    → (f : IsFaithful codec a cluster context m) × IsWithinGrant f.grant c b
Ends-IsWithinGrant codec a cluster context m x config signer keys {c} {c'} {b} compiled idle r e =
    let f : IsFaithful codec a cluster context m =
      compile_mpp_session-IsFaithful codec cluster context a false m compiled in
    let p : MppSessionPolicy = session_policy m.client in
    let settled : IsSettled p c b c' = Ends-IsSettled x config p signer keys idle r e in
    let (_, terms, _) : IsSoundAt p (some settled.channel) c.channels c.keys =
      rw settled.opened at (Reaches-IsSound x config p signer keys idle r) in
    (
      f,
      record {
        channel = settled.channel;
        opened = settled.opened;
        recipient = f.recipients ∙ ap (λ (t : Text). t ∷ []) (sym f.same.2 ∙ sym terms.payee);
        paid = omega (arith, settled.limit, f.same.0, f.total.0);
      },
    )
