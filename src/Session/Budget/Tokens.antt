-- ===== src/Session/Budget/Tokens.antt =====
-- storage.ts: what is spent of a token, found without regard to case.
use connect_lib.Base.{
  ℕ, ◌+◌, ◌≤◌, ◌≡◌, refl, sym, ap, ◌∙◌, true, false, Option, none, some, [], ◌∷◌, arith, Bool-cases,
  Option-cases, inl, inr, if◌then◌else◌,
}
use connect_lib.Base.Dict.{Dict, lookup, insert}
use connect_lib.Base.Text.{Text, text_eq, text_eq_iff, text_eq_of, to_lower_case}
use connect_lib.Session.Types.{SessionKeyScope, SessionKeyTransaction, passed}
use connect_lib.Session.Number.{entry_of, same_address, is_filled}
use connect_lib.Session.Token.{
  TokenSpend, layout_of, selector, read_spend, decode_entry, decode_scoped_token_spend,
  amount_of_entry, accumulated_token_spend,
}
use connect_lib.Session.Check.{Usage}
use connect_lib.Session.Check.Accepts.{IsAffordable}
use connect_lib.Session.Store.{spend_key, add_token}

pub same_address-lower : (a b : Text) → same_address a b ≡ true → to_lower_case a ≡ to_lower_case b
same_address-lower a b h = (text_eq_iff (to_lower_case a) (to_lower_case b)).0 h

module _ {A : Type 0} where
  -- Addresses that differ in case have the same entry.
  pub entry_of-same :
      (a b : Text) (entries : Dict Text A)
      → to_lower_case a ≡ to_lower_case b
      → entry_of a entries ≡ entry_of b entries
  unfolding entry_of
  entry_of-same a b entries same = rw same refl

  pub entry_of-address :
      (a k : Text) (v : A) (entries : Dict Text A)
      → entry_of a entries ≡ some (k, v)
      → to_lower_case k ≡ to_lower_case a
  unfolding entry_of
  entry_of-address a k v [] h = absurd (ground arith)
  entry_of-address a k v ((c, w) ∷ entries) h = elim (Bool-cases (same_address c a)) [
    | inl here ↦
        let same : ◌≡◌ {A = Option (Text × A)} (some (c, w)) (some (k, v)) = rw here at h in
        let key : c ≡ k = ground arith in rw (← key) (same_address-lower c a here)
    | inr further ↦ entry_of-address a k v entries (rw further at h)
  ]

  lookup-entry_of :
      (a k : Text) (v : A) (entries : Dict Text A)
      → entry_of a entries ≡ some (k, v)
      → lookup k entries ≡ some v
  unfolding entry_of lookup
  lookup-entry_of a k v [] h = absurd (ground arith)
  lookup-entry_of a k v ((c, w) ∷ entries) h = elim (Bool-cases (same_address c a)) [
    | inl here ↦ ground (arith, here, text_eq_iff c k)
    | inr further ↦
        let rest : entry_of a entries ≡ some (k, v) = rw further at h in
        let key = entry_of-address a k v entries rest in
        ground (
          arith,
          further,
          text_eq_iff c k,
          text_eq_iff (to_lower_case c) (to_lower_case a),
          key,
          lookup-entry_of a k v entries rest,
        )
  ]

entry-insert :
    (t k a : Text) (n m : ℕ) (spends : Dict Text ℕ)
    → entry_of t spends ≡ some (k, n)
    → amount_of_entry (entry_of a (insert k m spends))
      ≡ (if same_address t a then m else amount_of_entry (entry_of a spends))
unfolding entry_of insert
entry-insert t k a n m [] h = absurd (ground arith)
entry-insert t k a n m ((c, w) ∷ spends) h = elim (Bool-cases (same_address c t)) [
  | inl here ↦
      let lower = same_address-lower c t here in
      let same : ◌≡◌ {A = Option (Text × ℕ)} (some (c, w)) (some (k, n)) = rw here at h in
      let key : c ≡ k = ground arith in
      rw (← key, ← lower, (text_eq_iff c c).1 refl)
        (elim (Bool-cases (same_address c a)) [
          | inl also ↦ rw also refl
          | inr other ↦ rw other refl
        ])
  | inr further ↦
      let rest : entry_of t spends ≡ some (k, n) = rw further at h in
      let key = entry_of-address t k n spends rest in
      let apart : text_eq c k ≡ false =
        ground (arith, text_eq_iff c k, text_eq_iff (to_lower_case c) (to_lower_case t)) in
      rw apart (elim (Bool-cases (same_address c a)) [
        | inl also ↦
            let differs : same_address t a ≡ false = ground (
              arith,
              text_eq_iff (to_lower_case c) (to_lower_case a),
              text_eq_iff (to_lower_case t) (to_lower_case a),
              text_eq_iff (to_lower_case c) (to_lower_case t),
            ) in
            rw (also, differs) refl
        | inr other ↦ rw other (entry-insert t k a n m spends rest)
      ])
]

entry-insert_new :
    (t a : Text) (m : ℕ) (spends : Dict Text ℕ)
    → entry_of t spends ≡ none
    → amount_of_entry (entry_of a (insert t m spends))
      ≡ (if same_address t a then m else amount_of_entry (entry_of a spends))
unfolding entry_of insert
entry-insert_new t a m [] h = ground arith
entry-insert_new t a m ((c, w) ∷ spends) h = elim (Bool-cases (same_address c t)) [
  | inl here ↦ absurd (ground arith)
  | inr further ↦
      let rest : entry_of t spends ≡ none = rw further at h in
      let apart : text_eq c t ≡ false =
        ground (arith, text_eq_iff c t, text_eq_iff (to_lower_case c) (to_lower_case t)) in
      rw apart (elim (Bool-cases (same_address c a)) [
        | inl also ↦
            let differs : same_address t a ≡ false = ground (
              arith,
              text_eq_iff (to_lower_case c) (to_lower_case a),
              text_eq_iff (to_lower_case t) (to_lower_case a),
              text_eq_iff (to_lower_case c) (to_lower_case t),
            ) in
            rw (also, differs) refl
        | inr other ↦ rw other (entry-insert_new t a m spends rest)
      ])
]

lookup-entry_none :
    (t : Text) (spends : Dict Text ℕ) → entry_of t spends ≡ none → lookup t spends ≡ none
unfolding entry_of lookup
lookup-entry_none t [] h = refl
lookup-entry_none t ((c, w) ∷ spends) h = ground (
  arith,
  text_eq_iff c t,
  text_eq_iff (to_lower_case c) (to_lower_case t),
  lookup-entry_none t spends,
)

-- What is spent of a token grows by what is added of it, and of no other.
pub spend-add_token :
    (s : TokenSpend) (spends : Dict Text ℕ) (a : Text)
    → accumulated_token_spend (add_token (some s) spends) a ≡ (
        if same_address s.token_address a
        then accumulated_token_spend spends s.token_address + s.amount
        else accumulated_token_spend spends a)
unfolding add_token accumulated_token_spend spend_key
spend-add_token s spends a = elim (Option-cases (entry_of s.token_address spends)) [
  | inl new ↦
      let missing = lookup-entry_none s.token_address spends new in
      rw (new, missing) (entry-insert_new s.token_address a (0 + s.amount) spends new)
  | inr ((k, n), old) ↦
      let there = lookup-entry_of s.token_address k n spends old in
      rw (old, there) (entry-insert s.token_address k a n (n + s.amount) spends old)
]

pub accumulated_token_spend-same :
    (a b : Text) (spends : Dict Text ℕ)
    → same_address a b ≡ true
    → accumulated_token_spend spends a ≡ accumulated_token_spend spends b
unfolding accumulated_token_spend
accumulated_token_spend-same a b spends h =
    ap amount_of_entry (entry_of-same a b spends (same_address-lower a b h))

-- The token that a transaction spends is that of the allowance under its target.
decoded-entry_of :
    (scope : SessionKeyScope) (tx : SessionKeyTransaction) (s : TokenSpend)
    → decode_scoped_token_spend scope tx ≡ passed (some s)
    → entry_of tx.to scope.token_allowances ≡ some (s.token_address, s.allowance)
unfolding decode_scoped_token_spend decode_entry read_spend
decoded-entry_of scope tx s h = elim (Bool-cases (is_filled tx.to)) [
  | inr empty ↦ absurd (ground arith)
  | inl filled ↦ elim (Option-cases (entry_of tx.to scope.token_allowances)) [
    | inl none_there ↦ absurd (ground arith)
    | inr ((token, allowance), is) ↦ elim (Option-cases (layout_of (selector tx.data_field))) [
      | inl unknown ↦ absurd (ground arith)
      | inr (l, known) ↦ ground arith
    ]
  ]
]

-- Spending within the allowance of a token keeps every token within its own.
pub token-add_token :
    (scope : SessionKeyScope) (u : Usage) (tx : SessionKeyTransaction) (spend : Option TokenSpend)
    → decode_scoped_token_spend scope tx ≡ passed spend
    → IsAffordable scope u spend
    → (address token : Text) (allowance : ℕ)
    → entry_of address scope.token_allowances ≡ some (token, allowance)
    → accumulated_token_spend u.token_spends address ≤ allowance
    → accumulated_token_spend (add_token spend u.token_spends) address ≤ allowance
unfolding add_token
token-add_token scope u tx none is fits address token allowance entry before = before
token-add_token scope u tx (some s) is fits address token allowance entry before =
    rw (spend-add_token s u.token_spends address)
      (elim (Bool-cases (same_address s.token_address address)) [
        | inr other ↦ rw other before
        | inl same ↦
            let lower = same_address-lower s.token_address address same in
            let found = decoded-entry_of scope tx s is in
            let target =
              entry_of-address tx.to s.token_address s.allowance scope.token_allowances found in
            let one : entry_of tx.to scope.token_allowances
                ≡ entry_of address scope.token_allowances =
              entry_of-same tx.to address scope.token_allowances (sym target ∙ lower) in
            let most : s.allowance ≡ allowance = ground (arith, found, one, entry) in
            rw (same, ← most) (fits.1)
      ])
