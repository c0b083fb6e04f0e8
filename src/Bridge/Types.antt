-- ===== src/Bridge/Types.antt =====
-- The storage of pallets/chainbridge/src/lib.rs, and what its `Config` supplies. A proposed call is
-- known by its number; the state of the rest of the chain, which a call changes, is `rest`.
use fusotao.Prelude.{ℕ, Bool, Option, List, [], ◌∷◌}
use fusotao.Support.Storage.{StorageMap}
use fusotao.Support.Dispatch.{Result, DispatchError, BridgeError, Origin}
use fusotao.Support.XToken.{Bytes}

pub data ProposalStatus : Type 0 where
  initiated approved rejected : ProposalStatus

pub record ProposalVotes : Type 0 where
  pub votes_for : List ℕ
  pub votes_against : List ℕ
  pub status : ProposalStatus
  pub expiry : ℕ

-- `ProposalVotes::default`
abbrev pub default_votes : ProposalVotes
default_votes = record {
  votes_for = [];
  votes_against = [];
  status = ProposalStatus.initiated;
  expiry = 0;
}

pub data Event : Type 0 where
  relayer_threshold_changed chain_whitelisted relayer_added relayer_removed : ℕ → Event
  fungible_transfer : ℕ → ℕ → Bytes → ℕ → Bytes → Event
  non_fungible_transfer : ℕ → ℕ → Bytes → Bytes → Bytes → Bytes → Event
  generic_transfer : ℕ → ℕ → Bytes → Bytes → Event
  vote_for vote_against : ℕ → ℕ → ℕ → Event
  proposal_approved proposal_rejected proposal_succeeded proposal_failed : ℕ → ℕ → Event
  proposal_vote : ℕ → Bytes → ℕ → Event

-- The keys of `Votes`: the source chain, and the nonce with the call.
abbrev pub ProposalKey : Type 0
ProposalKey = ℕ × (ℕ × ℕ)

-- The storage items; `events` has the newest first.
pub record State (Rest : Type 0) : Type 0 where
  pub chain_nonces : StorageMap ℕ ℕ
  pub relayer_threshold : ℕ
  pub relayers : StorageMap ℕ Bool
  pub relayer_count : ℕ
  pub votes : StorageMap ProposalKey ProposalVotes
  pub resources : StorageMap Bytes Bytes
  pub events : List Event
  pub rest : Rest

abbrev pub deposit_event : {Rest : Type 0} → Event → State Rest → State Rest
deposit_event e s = record s { events = e ∷ s.events }

-- What the runtime supplies. A call is dispatched by an account, and may come back into this pallet.
pub record Config : Type 1 where
  pub Rest : Type 0
  pub is_admin : Origin → Bool
  pub chain_id : ℕ
  pub proposal_lifetime : ℕ
  pub native_resource_id : Bytes
  pub account_id : ℕ
  pub try_get_asset_id : ℕ → Bytes → Rest → Option ℕ
  pub dispatch : ℕ → ℕ → State Rest → Result (State Rest)

abbrev pub fail : BridgeError → DispatchError
fail = DispatchError.bridge
