-- ===== src/Support/Constants.antt =====
-- pallets/fuso-support/src/lib.rs, `constants`: the kinds of reserves and the states of a dominator.
use fusotao.Prelude.{ℕ}

abbrev pub reserve_for_staking : ℕ
reserve_for_staking = 0

abbrev pub reserve_for_authorizing : ℕ
reserve_for_authorizing = 1

abbrev pub reserve_for_authorizing_stash : ℕ
reserve_for_authorizing_stash = 2

abbrev pub reserve_for_pending_unstake : ℕ
reserve_for_pending_unstake = 3

abbrev pub dominator_registered : ℕ
dominator_registered = 0

abbrev pub dominator_inactive : ℕ
dominator_inactive = 1

abbrev pub dominator_active : ℕ
dominator_active = 2

abbrev pub dominator_evicted : ℕ
dominator_evicted = 3
