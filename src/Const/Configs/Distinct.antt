-- ===== src/Const/Configs/Distinct.antt =====
-- The configurations that the constants are computed over are those of the sweep, each once.
use arvern_ips.Prelude.{Bool, List, [], ◌∷◌, any, eqb, nat_eq, list_eq, pair_eq, Text}
use arvern_ips.Params.Select.{ParamDict}
use arvern_ips.Params.Write.{sorted_items}
use arvern_ips.Sweep.Simulate.{SimConfig}
use arvern_ips.Const.Configs.{value_eq, key_of}

-- The parameters of the listed configurations, sorted.
abbrev pub keys_of : List (Text × ParamDict) → List ParamDict
keys_of [] = []
keys_of ((label, p) ∷ out) = sorted_items p ∷ keys_of out

-- Some simulation runs with these parameters.
abbrev pub is_simulated : ParamDict → Text → List SimConfig → ParamDict → Bool
is_simulated bench prefix cs key = any (λ c. eqb (key_of bench prefix c) key) cs
