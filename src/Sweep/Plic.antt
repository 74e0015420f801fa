-- ===== src/Sweep/Plic.antt =====
-- ahb_plic/sim/rtl_sim/bin/sim_configs.py: the tables of the simulation sweep.
use arvern_ips.Prelude.{
  not, List, [], ◌∷◌, ◌++◌, keep_if, nat_eq, list_eq, pair_eq, contains, Text, codes,
}
use arvern_ips.Params.Tables.{setting}
use arvern_ips.Sweep.Simulate.{SimConfig}

abbrev pub default_tests : List Text
default_tests =
    codes "priority_rdwr"
    ∷ codes "enable_rdwr"
    ∷ codes "pending_gateway"
    ∷ codes "threshold_claim"
    ∷ codes "arbiter_tiebreak"
    ∷ codes "m_s_routing"
    ∷ codes "unmapped_access"
    ∷ codes "claim_threshold_independent"
    ∷ codes "complete_invalid_id"
    ∷ codes "priv_check"
    ∷ codes "priority_zero"
    ∷ codes "threshold_boundary"
    ∷ codes "size_check"
    ∷ codes "reset_values"
    ∷ codes "ahb_error_p2"
    ∷ codes "pending_gated_wake"
    ∷ codes "random_irq"
    ∷ codes "bus_pipelined"
    ∷ codes "error_hold"
    ∷ codes "priv_contexts"
    ∷ codes "addr_walk"
    ∷ codes "reset_in_operation"
    ∷ codes "claim_complete_pipelined"
    ∷ codes "source_walk"
    ∷ codes "threshold_extremes"
    ∷ codes "enable_priority_dynamics"
    ∷ codes "pair_contests"
    ∷ []

abbrev pub default_only_tests : List Text
default_only_tests =
    codes "source_walk"
    ∷ codes "threshold_extremes"
    ∷ codes "enable_priority_dynamics"
    ∷ codes "pair_contests"
    ∷ []

abbrev pub multiword_tests : List Text
multiword_tests =
    codes "priority_multiword" ∷ codes "enable_multiword" ∷ codes "pending_multiword" ∷ []

abbrev pub sim_configs : List SimConfig
sim_configs =
    record { label = codes "default"; defines = []; test_list = default_tests }
    ∷ record {
      label = codes "nh2";
      defines = setting "PLIC_NUM_HARTS" 2 ∷ [];
      test_list =
          codes "priority_rdwr"
          ∷ codes "enable_rdwr"
          ∷ codes "unmapped_access"
          ∷ codes "multihart_routing"
          ∷ codes "priv_contexts"
          ∷ codes "context_walk"
          ∷ codes "addr_walk"
          ∷ [];
    }
    ∷ record {
      label = codes "nh4";
      defines = setting "PLIC_NUM_HARTS" 4 ∷ [];
      test_list =
          codes "priority_rdwr"
          ∷ codes "enable_rdwr"
          ∷ codes "unmapped_access"
          ∷ codes "multihart_routing"
          ∷ codes "priv_contexts"
          ∷ codes "context_walk"
          ∷ codes "addr_walk"
          ∷ [];
    }
    ∷ record {
      label = codes "su0";
      defines = setting "PLIC_SU_MODE_EN" 0 ∷ [];
      test_list =
          codes "priority_rdwr"
          ∷ codes "pending_gateway"
          ∷ codes "threshold_claim"
          ∷ codes "unmapped_access"
          ∷ codes "su_disabled"
          ∷ codes "priv_contexts"
          ∷ codes "context_walk"
          ∷ codes "addr_walk"
          ∷ codes "enable_priority_dynamics"
          ∷ [];
    }
    ∷ record {
      label = codes "nh2_su0";
      defines = setting "PLIC_NUM_HARTS" 2 ∷ setting "PLIC_SU_MODE_EN" 0 ∷ [];
      test_list =
          codes "priority_rdwr"
          ∷ codes "unmapped_access"
          ∷ codes "su_disabled"
          ∷ codes "priv_contexts"
          ∷ codes "context_walk"
          ∷ codes "addr_walk"
          ∷ [];
    }
    ∷ record {
      label = codes "ns63_pb4";
      defines = setting "PLIC_NUM_SOURCES" 63 ∷ setting "PLIC_PRIO_BITS" 4 ∷ [];
      test_list =
          (codes "pending_gateway"
            ∷ codes "threshold_claim"
            ∷ codes "arbiter_tiebreak"
            ∷ codes "m_s_routing"
            ∷ codes "unmapped_access"
            ∷ codes "source_walk"
            ∷ codes "threshold_extremes"
            ∷ codes "addr_walk"
            ∷ codes "context_walk"
            ∷ codes "pair_contests"
            ∷ [])
          ++ multiword_tests;
    }
    ∷ record {
      label = codes "ns127_pb7";
      defines = setting "PLIC_NUM_SOURCES" 127 ∷ setting "PLIC_PRIO_BITS" 7 ∷ [];
      test_list =
          (codes "unmapped_access"
            ∷ codes "source_walk"
            ∷ codes "threshold_extremes"
            ∷ codes "addr_walk"
            ∷ codes "threshold_claim"
            ∷ codes "arbiter_tiebreak"
            ∷ codes "m_s_routing"
            ∷ codes "priority_zero"
            ∷ codes "threshold_boundary"
            ∷ codes "complete_invalid_id"
            ∷ codes "priv_contexts"
            ∷ codes "random_irq"
            ∷ codes "context_walk"
            ∷ codes "pair_contests"
            ∷ [])
          ++ multiword_tests;
    }
    ∷ record {
      label = codes "ns40_pb1";
      defines = setting "PLIC_NUM_SOURCES" 40 ∷ setting "PLIC_PRIO_BITS" 1 ∷ [];
      test_list =
          (codes "source_walk"
            ∷ codes "threshold_extremes"
            ∷ codes "addr_walk"
            ∷ codes "unmapped_access"
            ∷ codes "pending_gateway"
            ∷ codes "arbiter_tiebreak"
            ∷ codes "m_s_routing"
            ∷ codes "priority_zero"
            ∷ codes "complete_invalid_id"
            ∷ codes "random_irq"
            ∷ codes "reset_values"
            ∷ codes "pair_contests"
            ∷ [])
          ++ multiword_tests;
    }
    ∷ record {
      label = codes "nh4_ns63_pb4";
      defines =
          setting "PLIC_NUM_HARTS" 4
          ∷ setting "PLIC_NUM_SOURCES" 63
          ∷ setting "PLIC_PRIO_BITS" 4
          ∷ [];
      test_list =
          codes "context_walk"
          ∷ codes "unmapped_access"
          ∷ codes "addr_walk"
          ∷ codes "priv_contexts"
          ∷ [];
    }
    ∷ record {
      label = codes "priv_off";
      defines = setting "PLIC_PRIV_CHECK_EN" 0 ∷ [];
      test_list =
          codes "priority_rdwr"
          ∷ codes "enable_rdwr"
          ∷ codes "unmapped_access"
          ∷ codes "priv_check_off"
          ∷ codes "size_check"
          ∷ codes "addr_walk"
          ∷ [];
    }
    ∷ record {
      label = codes "sync_rst";
      defines = setting "PLIC_ASYNC_RST_EN" 0 ∷ [];
      test_list = keep_if (λ t. not (contains default_only_tests t)) default_tests;
    }
    ∷ []

abbrev pub tb_top : Text
tb_top = codes "tb_ahb_plic"

abbrev pub mandatory_cover_bins : List Text
mandatory_cover_bins =
    codes "eip_m_hi"
    ∷ codes "eip_s_hi"
    ∷ codes "hclk_en_hi"
    ∷ codes "hclk_en_lo"
    ∷ codes "hresp_err"
    ∷ codes "size_err"
    ∷ codes "pending_any"
    ∷ codes "in_service_any"
    ∷ codes "claim_nonzero"
    ∷ codes "claim_pulse"
    ∷ codes "complete_pulse"
    ∷ codes "prio0_blocked"
    ∷ codes "threshold_masks"
    ∷ codes "multiword"
    ∷ []
