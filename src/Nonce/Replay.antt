-- ===== src/Nonce/Replay.antt =====
-- Any sequence of calls on the storage: how often one nonce is accepted.
use connect_lib.Base.{ℕ, ◌+◌, ◌≤◌, ◌≡◌, ◌≢◌, Bool, false, ◌&&◌, List, [], ◌∷◌, arith, if◌then◌else◌}
use connect_lib.Base.Sets.{has, has-add, has-remove}
use connect_lib.Base.Text.{Text, text_eq, text_eq_iff, text_eq_of}
use connect_lib.Nonce.{
  NonceStorage, create_memory_nonce_storage, issue_nonce, consume_nonce, remove_nonce,
  consume_if_valid, is_nonce_valid, is_nonce_issued, is_nonce_consumed,
}

pub data NonceCall : Type 0 where
  issues consumes removes verifies : Text → NonceCall

-- How often `nonce` was issued, removed and accepted.
pub record Tally : Type 0 where
  pub issued : ℕ
  pub removed : ℕ
  pub accepted : ℕ

abbrev pub nothing : Tally
nothing = record { issued = 0; removed = 0; accepted = 0 }

unfoldable pub bump : Bool → ℕ → ℕ
bump counts n = if counts then n + 1 else n

module _ (nonce : Text) where
  unfoldable pub tally_step : NonceCall → NonceStorage × Tally → NonceStorage × Tally
  unfolding bump
  tally_step (issues n) (s, t) =
      (issue_nonce n s, record t { issued = bump (text_eq n nonce) t.issued })
  tally_step (consumes n) (s, t) = (consume_nonce n s, t)
  tally_step (removes n) (s, t) =
      (remove_nonce n s, record t { removed = bump (text_eq n nonce) t.removed })
  tally_step (verifies n) (s, t) =
      let (accepted, s') = consume_if_valid n s in
      (s', record t { accepted = bump (text_eq n nonce && accepted) t.accepted })

  unfoldable pub tally : List NonceCall → NonceStorage × Tally → NonceStorage × Tally
  unfolding tally_step
  tally [] s = s
  tally (c ∷ cs) s = tally cs (tally_step c s)

  -- What the storage still owes: an acceptance that is left, and one that was given.
  record IsCounted (s : NonceStorage) (t : Tally) : Type 0 where
    pub unspent : t.accepted + (if is_nonce_valid nonce s then 1 else 0) ≤ t.issued
    pub spent : t.accepted ≤ t.removed + (if has nonce s.consumed then 1 else 0)

  tally_step-IsCounted :
      (c : NonceCall) (s : NonceStorage) (t : Tally)
      → IsCounted s t
      → IsCounted (tally_step c (s, t)).0 (tally_step c (s, t)).1
  unfolding tally_step issue_nonce consume_nonce remove_nonce consume_if_valid is_nonce_valid
      is_nonce_issued is_nonce_consumed bump
  tally_step-IsCounted (issues n) s t v = record {
    unspent = ground (arith, v.unspent, has-add nonce n s.issued, text_eq_iff n nonce);
    spent = v.spent;
  }
  tally_step-IsCounted (consumes n) s t v = record {
    unspent = ground (arith, v.unspent, has-add nonce n s.consumed);
    spent = ground (arith, v.spent, has-add nonce n s.consumed);
  }
  tally_step-IsCounted (removes n) s t v = record {
    unspent = ground (arith, v.unspent, has-remove nonce n s.issued, has-remove nonce n s.consumed);
    spent = ground (arith, v.spent, has-remove nonce n s.consumed);
  }
  tally_step-IsCounted (verifies n) s t v = record {
    unspent = ground (arith, v.unspent, has-add nonce n s.consumed, text_eq_iff n nonce);
    spent = ground (arith, v.spent, has-add nonce n s.consumed, text_eq_iff n nonce);
  }

  tally-IsCounted :
      (cs : List NonceCall) (s : NonceStorage) (t : Tally)
      → IsCounted s t
      → IsCounted (tally cs (s, t)).0 (tally cs (s, t)).1
  unfolding tally
  tally-IsCounted [] s t v = v
  tally-IsCounted (c ∷ cs) s t v =
      tally-IsCounted cs (tally_step c (s, t)).0 (tally_step c (s, t)).1
        (tally_step-IsCounted c s t v)

  empty-IsCounted : IsCounted create_memory_nonce_storage nothing
  unfolding is_nonce_valid is_nonce_issued has
  empty-IsCounted = record { unspent = omega arith; spent = omega arith }

  -- Whatever is called in whatever order, from an empty storage: a nonce is accepted at most as
  -- often as it was issued, and at most once more than it was removed.
  pub tally-accepted :
      (cs : List NonceCall)
      → let t = (tally cs (create_memory_nonce_storage, nothing)).1 in
        (t.accepted ≤ t.issued) × (t.accepted ≤ t.removed + 1)
  tally-accepted cs =
      let v = tally-IsCounted cs create_memory_nonce_storage nothing empty-IsCounted in
      (ground (arith, v.unspent), ground (arith, v.spent))

  -- A nonce is accepted exactly when `isNonceValid` says so; it is then valid no more, and another
  -- nonce is as valid as before.
  pub consume_if_valid_lem :
      (s : NonceStorage)
      → ((consume_if_valid nonce s).0 ≡ is_nonce_valid nonce s)
        × (is_nonce_valid nonce (consume_if_valid nonce s).1 ≡ false)
        × ((other : Text)
            → other ≢ nonce
            → is_nonce_valid other (consume_if_valid nonce s).1 ≡ is_nonce_valid other s)
  unfolding consume_if_valid is_nonce_valid is_nonce_issued is_nonce_consumed
  consume_if_valid_lem s = (
    ground arith,
    ground (arith, has-add nonce nonce s.consumed, text_eq_iff nonce nonce),
    λ other differs. ground (arith, has-add other nonce s.consumed, text_eq_iff nonce other),
  )
