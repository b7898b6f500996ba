-- ===== src/I2c/Maps/PadTrigger/From000.antt =====
-- PADTRIGGER_REGISTERS of NSWConfiguration/I2cRegisterMappings.h: a part.
use nswconfiguration.Common.{[], ◌∷◌}
use nswconfiguration.I2c.Codec.{AddressRegisterMap}
use nswconfiguration.Utility.{not_used}

abbrev pub padtrigger_from_000 : AddressRegisterMap
padtrigger_from_000 =
    (
      "000_control_reg",
      ("conf_ro_bc_offset[7]", 1)
          ∷ ("conf_ro_self_trigger", 1)
          ∷ ("conf_ttc_calib", 4)
          ∷ ("conf_ocr_en", 1)
          ∷ ("conf_startIdleState", 1)
          ∷ ("conf_bcid_offset", 12)
          ∷ ("conf_ro_en", 1)
          ∷ ("conf_ro_window_size", 4)
          ∷ ("conf_ro_bc_offset", 7)
          ∷ [],
    )
    ∷ ("001_status_reg_READONLY", (not_used, 20) ∷ ("xadc_temp_out", 12) ∷ [])
    ∷ ("002_l1_id_reg_READONLY", ("l1id", 32) ∷ [])
    ∷ (
      "003_control_reg2",
      (not_used, 3)
          ∷ ("conf_ro_trig_bc_offset", 8)
          ∷ ("conf_ro_trig_offset_en", 1)
          ∷ ("conf_auto_mask_pfeb_to_0", 1)
          ∷ ("conf_nsw_side", 1)
          ∷ ("conf_ttc_latency", 5)
          ∷ ("conf_majority_sel", 2)
          ∷ ("conf_BC_stretch_to_TP", 1)
          ∷ ("conf_BC_stretch", 1)
          ∷ ("pfeb_num", 5)
          ∷ ("conf_sectorID", 4)
          ∷ [],
    )
    ∷ (
      "004_PFEB_delay_reg2",
      ("23", 4)
          ∷ ("22", 4)
          ∷ ("21", 4)
          ∷ ("20", 4)
          ∷ ("19", 4)
          ∷ ("18", 4)
          ∷ ("17", 4)
          ∷ ("16", 4)
          ∷ [],
    )
    ∷ (
      "005_PFEB_delay_reg1",
      ("15", 4)
          ∷ ("14", 4)
          ∷ ("13", 4)
          ∷ ("12", 4)
          ∷ ("11", 4)
          ∷ ("10", 4)
          ∷ ("09", 4)
          ∷ ("08", 4)
          ∷ [],
    )
    ∷ (
      "006_PFEB_delay_reg0",
      ("07", 4)
          ∷ ("06", 4)
          ∷ ("05", 4)
          ∷ ("04", 4)
          ∷ ("03", 4)
          ∷ ("02", 4)
          ∷ ("01", 4)
          ∷ ("00", 4)
          ∷ [],
    )
    ∷ (
      "007_PFEB_BCIDs_reg2_READONLY",
      ("23", 4)
          ∷ ("22", 4)
          ∷ ("21", 4)
          ∷ ("20", 4)
          ∷ ("19", 4)
          ∷ ("18", 4)
          ∷ ("17", 4)
          ∷ ("16", 4)
          ∷ [],
    )
    ∷ (
      "008_PFEB_BCIDs_reg1_READONLY",
      ("15", 4)
          ∷ ("14", 4)
          ∷ ("13", 4)
          ∷ ("12", 4)
          ∷ ("11", 4)
          ∷ ("10", 4)
          ∷ ("09", 4)
          ∷ ("08", 4)
          ∷ [],
    )
    ∷ (
      "009_PFEB_BCIDs_reg0_READONLY",
      ("07", 4)
          ∷ ("06", 4)
          ∷ ("05", 4)
          ∷ ("04", 4)
          ∷ ("03", 4)
          ∷ ("02", 4)
          ∷ ("01", 4)
          ∷ ("00", 4)
          ∷ [],
    )
    ∷ (
      "00A_SFEB_disable",
      (not_used, 8)
          ∷ ("23", 1)
          ∷ ("22", 1)
          ∷ ("21", 1)
          ∷ ("20", 1)
          ∷ ("19", 1)
          ∷ ("18", 1)
          ∷ ("17", 1)
          ∷ ("16", 1)
          ∷ ("15", 1)
          ∷ ("14", 1)
          ∷ ("13", 1)
          ∷ ("12", 1)
          ∷ ("11", 1)
          ∷ ("10", 1)
          ∷ ("09", 1)
          ∷ ("08", 1)
          ∷ ("07", 1)
          ∷ ("06", 1)
          ∷ ("05", 1)
          ∷ ("04", 1)
          ∷ ("03", 1)
          ∷ ("02", 1)
          ∷ ("01", 1)
          ∷ ("00", 1)
          ∷ [],
    )
    ∷ ("00B_trigger_rate_READONLY", ("trigger_rate", 32) ∷ [])
    ∷ ("00C_trig_bcid_rate_READONLY", ("trig_bcid_rate", 32) ∷ [])
    ∷ ("00D_status_reg2_READONLY", (not_used, 15) ∷ ("IdleState", 1) ∷ ("pfeb_hit_rate", 16) ∷ [])
    ∷ (
      "00E_control_reg3",
      (not_used, 4)
          ∷ ("ro_bcid_error_rst", 1)
          ∷ ("trig_bcid_error_rst", 1)
          ∷ ("bcid_error_rst", 2)
          ∷ ("gt_soft_reset", 24)
          ∷ [],
    )
    ∷ ("00F_pfeb_status_READONLY", (not_used, 8) ∷ ("status", 24) ∷ [])
    ∷ ("010_gt_rx_reset", (not_used, 7) ∷ ("gt_rx_lol_reset", 1) ∷ ("gt_rx_reset", 24) ∷ [])
    ∷ []
