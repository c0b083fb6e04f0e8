-- ===== src/Reward/Tests.antt =====
-- The theorems on rewards at a concrete state.
use fusotao.Prelude.{
  ℕ, ◌*◌, ◌/◌, ◌^◌, ◌≡◌, refl, ◌≢◌, true, false, none, List, [], ◌∷◌, arith, nat_eq, pair_eq,
  bytes_eq,
}
use fusotao.Support.Storage.{get, insert, remove, IsMap, sum_by}
use fusotao.Support.Dispatch.{RewardError, ok, err, root, unsigned, signed}
use fusotao.Support.Purse.{Purse, purse}
use fusotao.Reward.Types.{State, Config, fail}
use fusotao.Reward.Claims.{rotated, rotate_legacy_reward, rotate_reward, mint, claim_reward}
use fusotao.Reward.Liquidity.{
  add_volume, put_liquidity, remove_liquidity, contribution_of, consume_from, consume_liquidity,
}
use fusotao.Reward.History.{Call, apply, run, puts, consumes}
use fusotao.Reward.Backed.{IsFunded}
use fusotao.Reward.Eras.{run-IsFunded, run-divides}
use fusotao.Reward.Repeat.{remove_liquidity-put_liquidity, claim_reward-claim_reward}

abbrev eras : Config
eras = record {
  asset = purse;
  era_duration = 100;
  time_coefficient_zoom = 10;
  reward_terminate_at = 10_000;
  is_treasury = λ o. elim o [ root ↦ true | unsigned ↦ false | signed who ↦ false ];
  from_rational = λ p q. p * 10 ^ 18 / q;
  of_perquintill = λ p x. p * x / 10 ^ 18;
}

abbrev start : State Purse
start = record {
  liquidity_pool = [];
  era_rewards = 1000;
  rewards = [];
  volumes = [];
  taken_liquidity = [];
  marketing_rewards = [];
  trading_volumes = [];
  events = [];
  assets = (0, []);
}

-- Two makers provide liquidity, and it is taken half an era later.
abbrev trades : List (ℕ × Call)
trades =
    (10, puts 1 (2, 1) 30 10)
    ∷ (10, puts 2 (2, 1) 10 10)
    ∷ (60, consumes 1 (2, 1) 30 60)
    ∷ (60, consumes 2 (2, 1) 10 60)
    ∷ []

start-IsFunded : IsFunded start
unfolding sum_by get
start-IsFunded = ((λ era. ground arith), λ era. ground arith)

run-IsFunded_example : IsFunded (run eras trades start)
run-IsFunded_example = run-IsFunded eras trades start start-IsFunded

run-divides_example :
    (rotate_reward eras 130 100 0 1 (run eras trades start) ≢ err (fail RewardError.divide_by_zero))
    × (rotate_legacy_reward eras 130 100 0 1 (run eras trades start)
        ≢ err (fail RewardError.divide_by_zero))
run-divides_example = run-divides eras trades start 130 100 0 1 start-IsFunded

remove_liquidity-put_liquidity_example :
    (s' : State Purse) × (remove_liquidity eras 1
        (2, 1)
        30
        (put_liquidity eras 1 (2, 1) 30 10 start)
      ≡ ok (10, s'))
    × (get (1, (2, 1)) s'.liquidity_pool ≡ none)
remove_liquidity-put_liquidity_example =
    remove_liquidity-put_liquidity eras 1 (2, 1) 30 10 start (ground arith) tt

abbrev traded : State Purse
traded = run eras trades start

abbrev claimed : State Purse
claimed = elim (claim_reward eras 130 1 130 traded) [ ok r ↦ r.1 | err e ↦ traded ]

-- Three quarters of the rewards of the era.
first_claim : claim_reward eras 130 1 130 traded ≡ ok (750, claimed)
unfolding run apply put_liquidity consume_liquidity remove_liquidity consume_from contribution_of
    add_volume rotate_reward rotated claim_reward mint get insert remove
first_claim = refl

once_each : IsMap traded.marketing_rewards
unfolding run apply put_liquidity consume_liquidity remove_liquidity consume_from contribution_of
    add_volume rotate_reward rotated get insert remove
once_each = (refl, (refl, tt))

claim_reward-claim_reward_example :
    (s'' : State Purse) × (claim_reward eras 130 1 130 claimed ≡ ok (0, s''))
claim_reward-claim_reward_example =
    claim_reward-claim_reward eras 130 130 1 750 traded claimed once_each first_claim
