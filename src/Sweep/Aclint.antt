-- ===== src/Sweep/Aclint.antt =====
-- ahb_aclint/sim/rtl_sim/bin/sim_configs.py: the tables of the simulation sweep.
use arvern_ips.Prelude.{List, [], ◌∷◌, ◌++◌, nat_eq, list_eq, pair_eq, Text, codes}
use arvern_ips.Params.Tables.{setting}
use arvern_ips.Sweep.Simulate.{SimConfig}

abbrev pub default_tests : List Text
default_tests =
    codes "mswi_basic"
    ∷ codes "mtimer_cmp_writeback"
    ∷ codes "mtimer_cmp_stall"
    ∷ codes "mtimer_atomic_read"
    ∷ codes "mtimer_zicntr_time"
    ∷ codes "mtimer_zicntr_wr_coherency"
    ∷ codes "mtimer_wake"
    ∷ codes "mtimer_cmp_boundary"
    ∷ codes "mtimer_mtip_mask"
    ∷ codes "mtimer_cmp_torn_write"
    ∷ codes "mtimer_cmp_wrap"
    ∷ codes "mtimer_mtime_write"
    ∷ codes "mtimer_warm_reset"
    ∷ codes "mtimer_load_oneshot"
    ∷ codes "mtimer_half_write"
    ∷ codes "mtimer_cmp_sleep_hold"
    ∷ codes "mtimer_lf_duty"
    ∷ codes "mtimer_deep_sleep"
    ∷ codes "mtimer_tick_stress"
    ∷ codes "sswi_basic"
    ∷ codes "unmapped_access"
    ∷ codes "priv_check"
    ∷ codes "reset_values"
    ∷ codes "ahb_wait_states"
    ∷ codes "ahb_pipelined"
    ∷ codes "ahb_subword"
    ∷ codes "ahb_htrans_seq_busy"
    ∷ codes "ahb_hsel_deassert"
    ∷ codes "ahb_error_p2"
    ∷ codes "mtimer_data_patterns"
    ∷ codes "mtimer_mtime_load_mtip"
    ∷ codes "mtimer_scan_mode"
    ∷ codes "ahb_reset_midtransfer"
    ∷ codes "ahb_corner_trio"
    ∷ codes "mtimer_deep_sleep_zero_edge"
    ∷ codes "mtimer_mtime_write_tick_walk"
    ∷ []

abbrev pub mtimer_cdc_tests : List Text
mtimer_cdc_tests =
    codes "mtimer_mtime_write"
    ∷ codes "mtimer_warm_reset"
    ∷ codes "mtimer_load_oneshot"
    ∷ codes "mtimer_half_write"
    ∷ codes "mtimer_cmp_sleep_hold"
    ∷ codes "mtimer_deep_sleep"
    ∷ codes "mtimer_tick_stress"
    ∷ codes "mtimer_cmp_writeback"
    ∷ codes "mtimer_cmp_stall"
    ∷ codes "mtimer_atomic_read"
    ∷ codes "mtimer_cmp_boundary"
    ∷ codes "mtimer_mtip_mask"
    ∷ codes "mtimer_cmp_torn_write"
    ∷ codes "mtimer_cmp_wrap"
    ∷ codes "mtimer_zicntr_time"
    ∷ codes "mtimer_wake"
    ∷ codes "mtimer_data_patterns"
    ∷ codes "mtimer_mtime_load_mtip"
    ∷ codes "mtimer_deep_sleep_zero_edge"
    ∷ []

abbrev pub multihart_tests : List Text
multihart_tests =
    codes "mswi_multihart"
    ∷ codes "mtimer_multihart"
    ∷ codes "sswi_multihart"
    ∷ codes "mtimer_hart_sweep"
    ∷ []

abbrev pub sim_configs : List SimConfig
sim_configs =
    record { label = codes "default"; defines = []; test_list = default_tests }
    ∷ record {
      label = codes "nh2";
      defines = setting "ACLINT_NUM_HARTS" 2 ∷ [];
      test_list = (codes "mswi_basic" ∷ codes "unmapped_access" ∷ []) ++ multihart_tests;
    }
    ∷ record {
      label = codes "nh16";
      defines = setting "ACLINT_NUM_HARTS" 16 ∷ [];
      test_list =
          (codes "mswi_basic" ∷ codes "unmapped_access" ∷ codes "mtimer_hart_hi" ∷ [])
          ++ multihart_tests;
    }
    ∷ record {
      label = codes "su0";
      defines = setting "ACLINT_SU_MODE_EN" 0 ∷ [];
      test_list =
          codes "mswi_basic"
          ∷ codes "mtimer_cmp_writeback"
          ∷ codes "mtimer_wake"
          ∷ codes "mtimer_zicntr_time"
          ∷ codes "unmapped_access"
          ∷ codes "su_disabled"
          ∷ [];
    }
    ∷ record {
      label = codes "priv_off";
      defines = setting "ACLINT_PRIV_CHECK_EN" 0 ∷ [];
      test_list =
          codes "priv_check_off"
          ∷ codes "mswi_basic"
          ∷ codes "unmapped_access"
          ∷ codes "ahb_subword"
          ∷ [];
    }
    ∷ record {
      label = codes "sync_rst";
      defines = setting "ACLINT_ASYNC_RST_EN" 0 ∷ [];
      test_list = default_tests;
    }
    ∷ record {
      label = codes "slow_lf40";
      defines = setting "ACLINT_LF_HALF_PERIOD" 1000 ∷ [];
      test_list = mtimer_cdc_tests;
    }
    ∷ record {
      label = codes "slow_lf400";
      defines = setting "ACLINT_LF_HALF_PERIOD" 10000 ∷ [];
      test_list = mtimer_cdc_tests;
    }
    ∷ record {
      label = codes "sync_rst_slow";
      defines = setting "ACLINT_ASYNC_RST_EN" 0 ∷ setting "ACLINT_LF_HALF_PERIOD" 10000 ∷ [];
      test_list = mtimer_cdc_tests;
    }
    ∷ record {
      label = codes "lf_sync";
      defines = setting "ACLINT_LF_SYNC_EN" 1 ∷ [];
      test_list = default_tests;
    }
    ∷ record {
      label = codes "lf_sync_slow";
      defines = setting "ACLINT_LF_SYNC_EN" 1 ∷ setting "ACLINT_LF_HALF_PERIOD" 10000 ∷ [];
      test_list = mtimer_cdc_tests;
    }
    ∷ record {
      label = codes "lf_sync_rst";
      defines = setting "ACLINT_LF_SYNC_EN" 1 ∷ setting "ACLINT_ASYNC_RST_EN" 0 ∷ [];
      test_list = default_tests;
    }
    ∷ []

abbrev pub tb_top : Text
tb_top = codes "tb_ahb_aclint"

abbrev pub mandatory_cover_bins : List Text
mandatory_cover_bins =
    codes "lf_tick"
    ∷ codes "mirror_valid"
    ∷ codes "mirror_stale"
    ∷ codes "time_req"
    ∷ codes "time_gnt"
    ∷ codes "cmp_wr"
    ∷ codes "mtime_wr"
    ∷ codes "load_ack"
    ∷ codes "hclk_en_hi"
    ∷ codes "hclk_en_lo"
    ∷ codes "irq_msw"
    ∷ codes "irq_mtip"
    ∷ codes "irq_ssw"
    ∷ codes "wake_lf"
    ∷ codes "hresp_err"
    ∷ codes "pipelined"
    ∷ codes "wait_state"
    ∷ codes "htrans_seq"
    ∷ codes "htrans_busy"
    ∷ codes "subword"
    ∷ codes "mtip_top_hart"
    ∷ codes "mtime_rd_stall"
    ∷ []

abbrev pub sweep_only_cover_bins : List Text
sweep_only_cover_bins = codes "mtip_top_hart" ∷ []
