-- ===== src/Tx/Types.antt =====
-- tx-monitor/types.ts: statuses, status entries, watch options and partial updates.
use connect_lib.Base.{ℕ, Option, Bool, true, false, ◌≡◌, ◌↔◌, arith}
use connect_lib.Base.Dict.{Eq}
use connect_lib.Base.Text.{Text}

pub data TxStatus : Type 0 where
  pending mined confirmed failed unknown : TxStatus

-- `replacedBy`, `label` and `memo` are left out: nothing in these files writes them.
pub record TxStatusEntry : Type 0 where
  pub hash : Text
  pub chain_id : ℕ
  pub from : Text
  pub to : Text
  pub value : Text
  pub call_data : Option Text
  pub nonce : Option ℕ
  pub status : TxStatus
  pub block_number : Option ℕ
  pub block_hash : Option Text
  pub gas_used : Option Text
  pub effective_gas_price : Option Text
  pub created_at : ℕ
  pub confirmed_at : Option ℕ
  pub updated_at : ℕ
  pub error : Option Text
  pub replacement_count : ℕ

-- `Partial<TxStatusEntry>` as the caller may supply it before the first poll.
pub record InitialEntry : Type 0 where
  pub from : Option Text
  pub to : Option Text
  pub value : Option Text
  pub call_data : Option Text
  pub nonce : Option ℕ

-- `Required<WatchTxOptions>`
pub record WatchOptions : Type 0 where
  pub required_confirmations : ℕ
  pub poll_interval : ℕ
  pub label : Text
  pub memo : Text
  pub initial_entry : InitialEntry

-- A property of an object literal: absent, or there with a value that may be `undefined`.
pub data Field (A : Type 0) : Type 0 where
  absent : Field A
  set : Option A → Field A

-- `Object.assign` on one property.
abbrev pub assign : {A : Type 0} → Option A → Field A → Option A
assign old absent = old
assign old (set new) = new

-- The `Partial<TxStatusEntry>` that the poller reports. `hash` is the entry's own and `updatedAt`
-- is overwritten by the monitor.
pub record StatusUpdate : Type 0 where
  pub status : TxStatus
  pub block_number : Field ℕ
  pub block_hash : Field Text
  pub gas_used : Field Text
  pub effective_gas_price : Field Text
  pub confirmed_at : Field ℕ
  pub error : Field Text

-- `status` with no other property
abbrev pub bare : TxStatus → StatusUpdate
bare s = record {
  status = s;
  block_number = Field.absent;
  block_hash = Field.absent;
  gas_used = Field.absent;
  effective_gas_price = Field.absent;
  confirmed_at = Field.absent;
  error = Field.absent;
}

pub record BackoffConfig : Type 0 where
  pub initial_delay : ℕ
  pub max_delay : ℕ
  pub multiplier : ℕ

abbrev pub same_status : TxStatus → TxStatus → Bool
same_status TxStatus.pending TxStatus.pending = true
same_status TxStatus.mined TxStatus.mined = true
same_status TxStatus.confirmed TxStatus.confirmed = true
same_status TxStatus.failed TxStatus.failed = true
same_status TxStatus.unknown TxStatus.unknown = true
same_status _ _ = false

pub same_status_iff : (s t : TxStatus) → (same_status s t ≡ true) ↔ (s ≡ t)
same_status_iff TxStatus.pending t = ground arith
same_status_iff TxStatus.mined t = ground arith
same_status_iff TxStatus.confirmed t = ground arith
same_status_iff TxStatus.failed t = ground arith
same_status_iff TxStatus.unknown t = ground arith

instance abbrev pub status_eq : Eq TxStatus
status_eq = record { beq = same_status; beq_iff = same_status_iff }
