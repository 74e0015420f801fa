-- ===== src/Params/Tables.antt =====
-- rtl_configs.py of each IP: the tables `CONFIGS` and `TOP_MODULE`, and `ENTRIES` made of them.
use arvern_ips.Prelude.{
  ℕ, zero, suc, ◌≡◌, refl, false, Option, none, some, List, [], ◌∷◌, arith, length, get_elem?,
  nat_eq, list_beq, list_eq, pair_eq, contains, IsDistinct, Text, codes,
}
use arvern_ips.Prelude.Decimal.{is_digit, is_number}
use Prim.Native.String.{String}
use arvern_ips.Params.Select.{
  Value, number, ParamDict, Config, Entry, pair, triple, Result, ok, normalise, normalise_all,
  labels, resolve,
}
use arvern_ips.Params.Select.Lookup.{resolve-label}

-- A parameter set to a number.
abbrev pub setting : String → ℕ → Text × Value
setting k n = (codes k, number n)

abbrev one_top : String → ParamDict → Entry
one_top label params = pair (codes label) params

abbrev with_top : String → String → ParamDict → Entry
with_top label top params = triple (codes label) (codes top) params

pub data Ip : Type 0 where
  ahb_aclint ahb_interconnect ahb_periph_example ahb_plic : Ip
  ahb_rom_controller ahb_sram_controller arv_custom_csr arv_dtm : Ip

abbrev pub ahb_aclint_configs : List Entry
ahb_aclint_configs =
    one_top "default" []
    ∷ one_top "nh1_su0" (setting "SU_MODE_EN" 0 ∷ [])
    ∷ one_top "nh2_su1" (setting "NUM_HARTS" 2 ∷ setting "SU_MODE_EN" 1 ∷ [])
    ∷ one_top "nh4_su1" (setting "NUM_HARTS" 4 ∷ setting "SU_MODE_EN" 1 ∷ [])
    ∷ one_top "nh16_su0" (setting "NUM_HARTS" 16 ∷ setting "SU_MODE_EN" 0 ∷ [])
    ∷ one_top "nh16_su1" (setting "NUM_HARTS" 16 ∷ setting "SU_MODE_EN" 1 ∷ [])
    ∷ one_top "priv_off" (setting "PRIV_CHECK_EN" 0 ∷ setting "SU_MODE_EN" 1 ∷ [])
    ∷ one_top "sync_rst" (setting "ASYNC_RST_EN" 0 ∷ setting "SU_MODE_EN" 1 ∷ [])
    ∷ one_top "lf_sync" (setting "LF_SYNC_EN" 1 ∷ setting "SU_MODE_EN" 1 ∷ [])
    ∷ one_top "lf_sync_rst"
        (setting "LF_SYNC_EN" 1 ∷ setting "ASYNC_RST_EN" 0 ∷ setting "SU_MODE_EN" 1 ∷ [])
    ∷ []

abbrev pub ahb_interconnect_configs : List Entry
ahb_interconnect_configs =
    with_top "generic_default" "ahb_interconnect_generic" []
    ∷ with_top "generic_syncrst" "ahb_interconnect_generic" (setting "ASYNC_RST_EN" 0 ∷ [])
    ∷ with_top "hiperf_default" "ahb_interconnect_hiperf" []
    ∷ with_top "hiperf_syncrst" "ahb_interconnect_hiperf" (setting "ASYNC_RST_EN" 0 ∷ [])
    ∷ with_top "fused_default" "ahb_interconnect_fused" []
    ∷ with_top "fused_norom" "ahb_interconnect_fused" (setting "NR_S_X_ROM" 0 ∷ [])
    ∷ with_top "fused_syncrst" "ahb_interconnect_fused" (setting "ASYNC_RST_EN" 0 ∷ [])
    ∷ []

abbrev pub ahb_periph_example_configs : List Entry
ahb_periph_example_configs =
    one_top "default" []
    ∷ one_top "sync_rst" (setting "ASYNC_RST_EN" 0 ∷ [])
    ∷ one_top "addrw8" (setting "ADDRW" 8 ∷ [])
    ∷ []

abbrev pub ahb_plic_configs : List Entry
ahb_plic_configs =
    one_top "default" []
    ∷ one_top "nh1_su1" (setting "SU_MODE_EN" 1 ∷ [])
    ∷ one_top "nh2_su1" (setting "NUM_HARTS" 2 ∷ setting "SU_MODE_EN" 1 ∷ [])
    ∷ one_top "nh2_su0" (setting "NUM_HARTS" 2 ∷ setting "SU_MODE_EN" 0 ∷ [])
    ∷ one_top "nh4_su1" (setting "NUM_HARTS" 4 ∷ setting "SU_MODE_EN" 1 ∷ [])
    ∷ one_top "ns63_pb4"
        (setting "NUM_SOURCES" 63 ∷ setting "PRIO_BITS" 4 ∷ setting "SU_MODE_EN" 1 ∷ [])
    ∷ one_top "ns127_pb7"
        (setting "NUM_SOURCES" 127 ∷ setting "PRIO_BITS" 7 ∷ setting "SU_MODE_EN" 1 ∷ [])
    ∷ one_top "nh4_su1_ns63_pb4" (
        setting "NUM_HARTS" 4
        ∷ setting "NUM_SOURCES" 63
        ∷ setting "PRIO_BITS" 4
        ∷ setting "SU_MODE_EN" 1
        ∷ [])
    ∷ one_top "ns40_pb1"
        (setting "NUM_SOURCES" 40 ∷ setting "PRIO_BITS" 1 ∷ setting "SU_MODE_EN" 1 ∷ [])
    ∷ one_top "sync_rst" (setting "ASYNC_RST_EN" 0 ∷ setting "SU_MODE_EN" 1 ∷ [])
    ∷ []

abbrev pub ahb_rom_controller_configs : List Entry
ahb_rom_controller_configs =
    one_top "default" []
    ∷ one_top "sync_rst" (setting "ASYNC_RST_EN" 0 ∷ [])
    ∷ one_top "mem8" (setting "MEM_SIZE" 8 ∷ [])
    ∷ one_top "mem64k" (setting "MEM_SIZE" 65536 ∷ [])
    ∷ []

abbrev pub ahb_sram_controller_configs : List Entry
ahb_sram_controller_configs =
    one_top "default" []
    ∷ one_top "sync_rst" (setting "ASYNC_RST_EN" 0 ∷ [])
    ∷ one_top "mem8" (setting "MEM_SIZE" 8 ∷ [])
    ∷ one_top "mem64k" (setting "MEM_SIZE" 65536 ∷ [])
    ∷ []

abbrev pub arv_custom_csr_configs : List Entry
arv_custom_csr_configs =
    one_top "default" []
    ∷ one_top "min_banks" (
        setting "NR_USR_RW" 1
        ∷ setting "NR_USR_RO" 1
        ∷ setting "NR_SUP_RW" 1
        ∷ setting "NR_SUP_RO" 1
        ∷ setting "NR_MAC_RW" 1
        ∷ setting "NR_MAC_RO" 1
        ∷ [])
    ∷ one_top "wide_banks" (
        setting "NR_USR_RW" 8
        ∷ setting "NR_USR_RO" 8
        ∷ setting "NR_SUP_RW" 8
        ∷ setting "NR_SUP_RO" 8
        ∷ setting "NR_MAC_RW" 8
        ∷ setting "NR_MAC_RO" 8
        ∷ [])
    ∷ one_top "sync_rst" (setting "ASYNC_RST_EN" 0 ∷ [])
    ∷ one_top "ro_only" (setting "NR_USR_RW" 0 ∷ setting "NR_SUP_RW" 0 ∷ setting "NR_MAC_RW" 0 ∷ [])
    ∷ one_top "rw_only" (setting "NR_USR_RO" 0 ∷ setting "NR_SUP_RO" 0 ∷ setting "NR_MAC_RO" 0 ∷ [])
    ∷ one_top "no_sup" (setting "NR_SUP_RW" 0 ∷ setting "NR_SUP_RO" 0 ∷ [])
    ∷ one_top "two_banks"
        (setting "NR_USR_RW" 65 ∷ setting "NR_SUP_RW" 65 ∷ setting "NR_MAC_RW" 65 ∷ [])
    ∷ one_top "max_banks" (
        setting "NR_USR_RW" 256
        ∷ setting "NR_USR_RO" 64
        ∷ setting "NR_SUP_RW" 128
        ∷ setting "NR_SUP_RO" 64
        ∷ setting "NR_MAC_RW" 128
        ∷ setting "NR_MAC_RO" 60
        ∷ [])
    ∷ []

abbrev pub arv_dtm_configs : List Entry
arv_dtm_configs =
    with_top "jtag_default" "arv_dtm_jtag" []
    ∷ with_top "jtag_syncrst" "arv_dtm_jtag" (setting "ARST_EN" 0 ∷ [])
    ∷ with_top "uart_default" "arv_dtm_uart" []
    ∷ with_top "uart_syncrst" "arv_dtm_uart" (setting "ARST_EN" 0 ∷ [])
    ∷ with_top "i2c_default" "arv_dtm_i2c" []
    ∷ with_top "i2c_syncrst" "arv_dtm_i2c" (setting "ARST_EN" 0 ∷ [])
    ∷ with_top "cjtag_default" "arv_dtm_cjtag" []
    ∷ with_top "cjtag_syncrst" "arv_dtm_cjtag" (setting "ARST_EN" 0 ∷ [])
    ∷ with_top "wrap_jtag" "arv_dtm" (setting "DTM_TYPE" 0 ∷ [])
    ∷ with_top "wrap_uart" "arv_dtm" (setting "DTM_TYPE" 1 ∷ [])
    ∷ with_top "wrap_i2c" "arv_dtm" (setting "DTM_TYPE" 2 ∷ [])
    ∷ with_top "wrap_cjtag" "arv_dtm" (setting "DTM_TYPE" 3 ∷ [])
    ∷ with_top "wrap_uart_fifo128" "arv_dtm"
        (setting "DTM_TYPE" 1 ∷ setting "UART_RX_FIFO_DEPTH" 128 ∷ [])
    ∷ with_top "wrap_i2c_wd20" "arv_dtm" (setting "DTM_TYPE" 2 ∷ setting "I2C_WD_BITS" 20 ∷ [])
    ∷ []

abbrev pub configs : Ip → List Entry
configs ahb_aclint = ahb_aclint_configs
configs ahb_interconnect = ahb_interconnect_configs
configs ahb_periph_example = ahb_periph_example_configs
configs ahb_plic = ahb_plic_configs
configs ahb_rom_controller = ahb_rom_controller_configs
configs ahb_sram_controller = ahb_sram_controller_configs
configs arv_custom_csr = arv_custom_csr_configs
configs arv_dtm = arv_dtm_configs

-- `getattr(rtl_configs, "TOP_MODULE", None)`
abbrev pub top_module : Ip → Option Text
top_module ahb_aclint = some (codes "ahb_aclint")
top_module ahb_interconnect = none
top_module ahb_periph_example = some (codes "ahb_periph_example")
top_module ahb_plic = some (codes "ahb_plic")
top_module ahb_rom_controller = some (codes "ahb_rom_controller")
top_module ahb_sram_controller = some (codes "ahb_sram_controller")
top_module arv_custom_csr = some (codes "arv_custom_csr")
top_module arv_dtm = none

-- `ENTRIES`, or the exit of `normalise`.
unfoldable pub entries : Ip → Result (List Config)
entries ip = normalise_all (top_module ip) (configs ip)

-- No label is a number.
abbrev AreWords : List Text → Type 0
AreWords [] = Unit
AreWords (x ∷ xs) = (is_number x ≡ false) × AreWords xs

record IsSelectable (es : List Entry) (cs : List Config) : Type 0 where
  whole : length cs ≡ length es
  distinct : IsDistinct (labels cs)
  words : AreWords (labels cs)

ahb_aclint-IsSelectable :
    (cs : List Config) × (entries ahb_aclint ≡ ok cs) × IsSelectable (configs ahb_aclint) cs
unfolding entries normalise normalise_all list_beq contains is_number is_digit
ahb_aclint-IsSelectable = (
  _,
  refl,
  record {
    whole = refl;
    distinct = (refl, (refl, (refl, (refl, (refl, (refl, (refl, (refl, (refl, (refl, tt))))))))));
    words = (refl, (refl, (refl, (refl, (refl, (refl, (refl, (refl, (refl, (refl, tt))))))))));
  },
)

ahb_interconnect-IsSelectable :
    (cs : List Config) × (entries ahb_interconnect ≡ ok cs)
    × IsSelectable (configs ahb_interconnect) cs
unfolding entries normalise normalise_all list_beq contains is_number is_digit
ahb_interconnect-IsSelectable = (
  _,
  refl,
  record {
    whole = refl;
    distinct = (refl, (refl, (refl, (refl, (refl, (refl, (refl, tt)))))));
    words = (refl, (refl, (refl, (refl, (refl, (refl, (refl, tt)))))));
  },
)

ahb_periph_example-IsSelectable :
    (cs : List Config) × (entries ahb_periph_example ≡ ok cs)
    × IsSelectable (configs ahb_periph_example) cs
unfolding entries normalise normalise_all list_beq contains is_number is_digit
ahb_periph_example-IsSelectable = (
  _,
  refl,
  record {
    whole = refl;
    distinct = (refl, (refl, (refl, tt)));
    words = (refl, (refl, (refl, tt)));
  },
)

ahb_plic-IsSelectable :
    (cs : List Config) × (entries ahb_plic ≡ ok cs) × IsSelectable (configs ahb_plic) cs
unfolding entries normalise normalise_all list_beq contains is_number is_digit
ahb_plic-IsSelectable = (
  _,
  refl,
  record {
    whole = refl;
    distinct = (refl, (refl, (refl, (refl, (refl, (refl, (refl, (refl, (refl, (refl, tt))))))))));
    words = (refl, (refl, (refl, (refl, (refl, (refl, (refl, (refl, (refl, (refl, tt))))))))));
  },
)

ahb_rom_controller-IsSelectable :
    (cs : List Config) × (entries ahb_rom_controller ≡ ok cs)
    × IsSelectable (configs ahb_rom_controller) cs
unfolding entries normalise normalise_all list_beq contains is_number is_digit
ahb_rom_controller-IsSelectable = (
  _,
  refl,
  record {
    whole = refl;
    distinct = (refl, (refl, (refl, (refl, tt))));
    words = (refl, (refl, (refl, (refl, tt))));
  },
)

ahb_sram_controller-IsSelectable :
    (cs : List Config) × (entries ahb_sram_controller ≡ ok cs)
    × IsSelectable (configs ahb_sram_controller) cs
unfolding entries normalise normalise_all list_beq contains is_number is_digit
ahb_sram_controller-IsSelectable = (
  _,
  refl,
  record {
    whole = refl;
    distinct = (refl, (refl, (refl, (refl, tt))));
    words = (refl, (refl, (refl, (refl, tt))));
  },
)

arv_custom_csr-IsSelectable :
    (cs : List Config) × (entries arv_custom_csr ≡ ok cs) × IsSelectable (configs arv_custom_csr) cs
unfolding entries normalise normalise_all list_beq contains is_number is_digit
arv_custom_csr-IsSelectable = (
  _,
  refl,
  record {
    whole = refl;
    distinct = (refl, (refl, (refl, (refl, (refl, (refl, (refl, (refl, (refl, tt)))))))));
    words = (refl, (refl, (refl, (refl, (refl, (refl, (refl, (refl, (refl, tt)))))))));
  },
)

arv_dtm-IsSelectable :
    (cs : List Config) × (entries arv_dtm ≡ ok cs) × IsSelectable (configs arv_dtm) cs
unfolding entries normalise normalise_all list_beq contains is_number is_digit
arv_dtm-IsSelectable = (
  _,
  refl,
  record {
    whole = refl;
    distinct = (
      refl,
      (
        refl,
        (
          refl,
          (
            refl,
            (refl, (refl, (refl, (refl, (refl, (refl, (refl, (refl, (refl, (refl, tt)))))))))),
          ),
        ),
      ),
    );
    words = (
      refl,
      (
        refl,
        (
          refl,
          (
            refl,
            (refl, (refl, (refl, (refl, (refl, (refl, (refl, (refl, (refl, (refl, tt)))))))))),
          ),
        ),
      ),
    );
  },
)

entries-IsSelectable :
    (ip : Ip) → (cs : List Config) × (entries ip ≡ ok cs) × IsSelectable (configs ip) cs
entries-IsSelectable ahb_aclint = ahb_aclint-IsSelectable
entries-IsSelectable ahb_interconnect = ahb_interconnect-IsSelectable
entries-IsSelectable ahb_periph_example = ahb_periph_example-IsSelectable
entries-IsSelectable ahb_plic = ahb_plic-IsSelectable
entries-IsSelectable ahb_rom_controller = ahb_rom_controller-IsSelectable
entries-IsSelectable ahb_sram_controller = ahb_sram_controller-IsSelectable
entries-IsSelectable arv_custom_csr = arv_custom_csr-IsSelectable
entries-IsSelectable arv_dtm = arv_dtm-IsSelectable

words-at :
    (cs : List Config) (i : ℕ) {c : Config}
    → AreWords (labels cs)
    → get_elem? cs i ≡ some c
    → is_number c.label ≡ false
words-at [] i w h = cc
words-at (x ∷ cs) zero w h = ground arith
words-at (x ∷ cs) (suc i) w h = words-at cs i w.1 h

-- The table of every IP loads, with one entry for each row, and the label of each entry selects it.
pub entries-resolve :
    (ip : Ip)
    → (cs : List Config) × (entries ip ≡ ok cs)
      × (length cs ≡ length (configs ip))
      × ((i : ℕ) (c : Config) → get_elem? cs i ≡ some c → resolve cs (some c.label) ≡ ok c)
entries-resolve ip =
    let (cs, e, s) = entries-IsSelectable ip in
    (
      cs,
      e,
      s.whole,
      λ i c h. (resolve-label cs c.label s.distinct (words-at cs i s.words h)).0 i c h refl,
    )
