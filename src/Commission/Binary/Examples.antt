-- ===== src/Commission/Binary/Examples.antt =====
-- A binary calculation at a concrete input: 10 has 12 in its left leg and 11 in its right, and carries one
-- unit of volume on the left.
use mathlib.Core.Bool.{xor}
use mlmforge.Prelude.{ℕ, ◌≡◌, refl, false, true, Option, none, some, List, [], ◌∷◌}
use mlmforge.Prelude.Int.{pos, ◌*ℤ◌, ◌+ℤ◌, -ℤ◌, div_trunc}
use mlmforge.Prelude.Results.{ok}
use mlmforge.Decimal.{Decimal, dec_zero, dec_one, dec_lt, limit_96}
use mlmforge.Decimal.Divide.{floor_quotient}
use mlmforge.Tree.Node.{Node}
use mlmforge.Tree.Arena.{blank}
use mlmforge.Tree.Binary.{BinaryTree}
use mlmforge.Commission.Types.{DistributorSnapshot, VolumeSource}
use mlmforge.Commission.Checks.{validate_snapshots}
use mlmforge.Commission.Finalize.{plan_minor_units}
use mlmforge.Commission.Unilevel.{CompensationPlan}
use mlmforge.Commission.Binary.Config.{
  pairing, cycle_step, weaker_leg, carry_forward, per_position, LegVolumes, BinaryCommissionEarning,
  BinaryCalculationResult,
}
use mlmforge.Commission.Binary.Prep.{no_legs}
use mlmforge.Commission.Binary.{
  BinaryStructureConfig, owner_is_eligible, prepare, calculate_binary_cycle_step,
  calculate_binary_pairing,
}
use mlmforge.Commission.Binary.NextPeriod.{IsCarriedFor, calculate_binary_pairing-IsCarriedFor}

abbrev child : ℕ → Node
child id = record blank { user_id = id; parent = some 0; sponsor = some 0; depth = 1 }

abbrev tree : BinaryTree
tree = record {
  arena = record {
    nodes =
        record blank { user_id = 10; children = 2 ∷ 1 ∷ []; sponsored = 1 ∷ 2 ∷ [] }
        ∷ child 11
        ∷ child 12
        ∷ [];
    index = (10, 0) ∷ (11, 1) ∷ (12, 2) ∷ [];
    free_list = [];
    root = some 0;
  };
  slots = (0, (some 2, some 1)) ∷ (1, (none, none)) ∷ (2, (none, none)) ∷ [];
}

abbrev units : ℕ → Decimal
units n = record { mantissa = pos n; scale = 0 }

abbrev plan : CompensationPlan
plan = record {
  base_currency = 1;
  volume_to_dollar_multiplier = dec_one;
  ranks = record { name = 7; ordinal = 1 } ∷ [];
  eligibility = record {
    minimum_pv = dec_zero;
    require_order_in_period = false;
    eligible_statuses = [];
    active_leg_tiers = [];
  };
}

abbrev snapshot : DistributorSnapshot
snapshot = record { rank = 7; personal_volume = dec_zero; status = 1; has_order_in_period = true }

abbrev snapshots : List (ℕ × DistributorSnapshot)
snapshots = (10, snapshot) ∷ (11, snapshot) ∷ (12, snapshot) ∷ []

abbrev volume : List VolumeSource
volume =
    record { source_id = 12; cv_amount = units 3 }
    ∷ record { source_id = 11; cv_amount = units 5 }
    ∷ []

abbrev prior : List (ℕ × LegVolumes)
prior = (10, record { left = units 1; right = units 0 }) ∷ []

abbrev tenth : Decimal
tenth = record { mantissa = pos 1; scale = 1 }

abbrev by_pairs : BinaryStructureConfig
by_pairs = record {
  name = 8;
  binary_commission = record {
    volume_to_dollar_multiplier = none;
    mode = pairing (record {
      percent = tenth;
      calculation = weaker_leg;
      cap_per_period = none;
      volume_after_payout = carry_forward;
      carry_forward_cap = none;
      multi_position_cap_mode = per_position;
    });
  };
}

-- Two dollars at each third unit, and one at the first.
abbrev by_cycles : BinaryStructureConfig
by_cycles = record {
  name = 8;
  binary_commission = record {
    volume_to_dollar_multiplier = none;
    mode = cycle_step (record {
      steps =
          record { threshold = units 3; amount = units 2 }
          ∷ record { threshold = units 1; amount = units 1 }
          ∷ [];
      volume_after_cycle = carry_forward;
      cap_per_period = none;
      carry_forward_cap = none;
      multi_position_cap_mode = per_position;
    });
  };
}

abbrev cents : ℕ → Option ℕ
cents currency = some 2

abbrev whole : Decimal → ℕ → Decimal
whole d places = d

abbrev no_quotient : Decimal → Decimal → Option Decimal
no_quotient a b = none

abbrev same : Decimal → Decimal
same d = d

abbrev earned : Decimal → Decimal → Decimal → BinaryCommissionEarning
earned ratio percent amount = record {
  earner_id = 10;
  position_id = 10;
  left_volume = units 4;
  right_volume = units 5;
  matched_volume = units 4;
  ratio = ratio;
  percent = percent;
  dollar_amount = amount;
  capped = false;
}

abbrev paired : BinaryCalculationResult
paired = record {
  earnings = earned dec_one tenth (record { mantissa = pos 4; scale = 1 }) ∷ [];
  carry_forward =
      (10, record { left = units 0; right = units 1 }) ∷ (11, no_legs) ∷ (12, no_legs) ∷ [];
}

-- One full cycle of three dollars, and the step at one unit again.
abbrev cycled : BinaryCalculationResult
cycled = record {
  earnings = earned dec_zero dec_zero (units 4) ∷ [];
  carry_forward =
      (11, no_legs) ∷ (12, no_legs) ∷ (10, record { left = units 1; right = units 2 }) ∷ [];
}

by_cycles-ok :
    calculate_binary_pairing cents whole no_quotient whole same tree plan snapshots volume prior
      none by_cycles
    ≡ ok cycled
unfolding calculate_binary_pairing calculate_binary_cycle_step owner_is_eligible prepare
    plan_minor_units validate_snapshots ◌*ℤ◌ ◌+ℤ◌ -ℤ◌ xor limit_96 dec_lt div_trunc floor_quotient
by_cycles-ok = refl

calculate_binary_pairing-IsCarriedFor_example : IsCarriedFor tree cycled.carry_forward
calculate_binary_pairing-IsCarriedFor_example =
    calculate_binary_pairing-IsCarriedFor cents whole no_quotient whole same tree plan snapshots
      volume prior none by_cycles cycled by_cycles-ok
