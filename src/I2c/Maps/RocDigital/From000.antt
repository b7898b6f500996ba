-- ===== src/I2c/Maps/RocDigital/From000.antt =====
-- ROC_DIGITAL_REGISTERS of NSWConfiguration/I2cRegisterMappings.h: a part.
use nswconfiguration.Common.{[], ◌∷◌}
use nswconfiguration.I2c.Codec.{AddressRegisterMap}
use nswconfiguration.Utility.{not_used}

abbrev pub roc_digital_from_000 : AddressRegisterMap
roc_digital_from_000 =
    ("reg000rocId", ("l1_first", 1) ∷ ("even_parity", 1) ∷ ("roc_id", 6) ∷ [])
    ∷ ("reg001elinkSpeed", ("sroc3", 2) ∷ ("sroc2", 2) ∷ ("sroc1", 2) ∷ ("sroc0", 2) ∷ [])
    ∷ (
      "reg002sRoc0VmmConnections",
      ("vmm7", 1)
          ∷ ("vmm6", 1)
          ∷ ("vmm5", 1)
          ∷ ("vmm4", 1)
          ∷ ("vmm3", 1)
          ∷ ("vmm2", 1)
          ∷ ("vmm1", 1)
          ∷ ("vmm0", 1)
          ∷ [],
    )
    ∷ (
      "reg003sRoc1VmmConnections",
      ("vmm7", 1)
          ∷ ("vmm6", 1)
          ∷ ("vmm5", 1)
          ∷ ("vmm4", 1)
          ∷ ("vmm3", 1)
          ∷ ("vmm2", 1)
          ∷ ("vmm1", 1)
          ∷ ("vmm0", 1)
          ∷ [],
    )
    ∷ (
      "reg004sRoc2VmmConnections",
      ("vmm7", 1)
          ∷ ("vmm6", 1)
          ∷ ("vmm5", 1)
          ∷ ("vmm4", 1)
          ∷ ("vmm3", 1)
          ∷ ("vmm2", 1)
          ∷ ("vmm1", 1)
          ∷ ("vmm0", 1)
          ∷ [],
    )
    ∷ (
      "reg005sRoc3VmmConnections",
      ("vmm7", 1)
          ∷ ("vmm6", 1)
          ∷ ("vmm5", 1)
          ∷ ("vmm4", 1)
          ∷ ("vmm3", 1)
          ∷ ("vmm2", 1)
          ∷ ("vmm1", 1)
          ∷ ("vmm0", 1)
          ∷ [],
    )
    ∷ (
      "reg006eopAndNullEventEnable",
      ("sroc3_eop_enable", 1)
          ∷ ("sroc2_eop_enable", 1)
          ∷ ("sroc1_eop_enable", 1)
          ∷ ("sroc0_eop_enable", 1)
          ∷ ("sroc3_nullevt_enable", 1)
          ∷ ("sroc2_nullevt_enable", 1)
          ∷ ("sroc1_nullevt_enable", 1)
          ∷ ("sroc0_nullevt_enable", 1)
          ∷ [],
    )
    ∷ (
      "reg007sRocEnable",
      ("bypass", 1)
          ∷ ("timeoutEnable", 1)
          ∷ ("TTCStartBits", 2)
          ∷ ("enableSROC3", 1)
          ∷ ("enableSROC2", 1)
          ∷ ("enableSROC1", 1)
          ∷ ("enableSROC0", 1)
          ∷ [],
    )
    ∷ (
      "reg008vmmEnable",
      ("vmm7", 1)
          ∷ ("vmm6", 1)
          ∷ ("vmm5", 1)
          ∷ ("vmm4", 1)
          ∷ ("vmm3", 1)
          ∷ ("vmm2", 1)
          ∷ ("vmm1", 1)
          ∷ ("vmm0", 1)
          ∷ [],
    )
    ∷ ("reg009timeout", ("timeout", 8) ∷ [])
    ∷ ("reg010bcOffset0_txcSel", ("tx_csel", 4) ∷ ("bc_offset[11:8]", 4) ∷ [])
    ∷ ("reg011bcOffset1", ("bc_offset[7:0]", 8) ∷ [])
    ∷ ("reg012bcRollover0", (not_used, 4) ∷ ("bc_rollover[11:8]", 4) ∷ [])
    ∷ ("reg013bcRollover1", ("bc_rollover[7:0]", 8) ∷ [])
    ∷ ("reg014eportEnable", ("sroc3", 2) ∷ ("sroc2", 2) ∷ ("sroc1", 2) ∷ ("sroc0", 2) ∷ [])
    ∷ ("reg015dummy_READONLY", ("dummy", 8) ∷ [])
    ∷ ("reg016dummy_READONLY", ("dummy", 8) ∷ [])
    ∷ ("reg017dummy_READONLY", ("dummy", 8) ∷ [])
    ∷ ("reg018dummy_READONLY", ("dummy", 8) ∷ [])
    ∷ (
      "reg019fakeVmmFailure",
      ("vmm7", 1)
          ∷ ("vmm6", 1)
          ∷ ("vmm5", 1)
          ∷ ("vmm4", 1)
          ∷ ("vmm3", 1)
          ∷ ("vmm2", 1)
          ∷ ("vmm1", 1)
          ∷ ("vmm0", 1)
          ∷ [],
    )
    ∷ (
      "reg020busyAndTdcEnable",
      ("tdc_enable_sroc3", 1)
          ∷ ("tdc_enable_sroc2", 1)
          ∷ ("tdc_enable_sroc1", 1)
          ∷ ("tdc_enable_sroc0", 1)
          ∷ ("busy_enable_sroc3", 1)
          ∷ ("busy_enable_sroc2", 1)
          ∷ ("busy_enable_sroc1", 1)
          ∷ ("busy_enable_sroc0", 1)
          ∷ [],
    )
    ∷ ("reg021busyOnLimit0", (not_used, 5) ∷ ("busy_on_limit[10:8]", 3) ∷ [])
    ∷ ("reg022busyOnLimit1", ("busy_on_limit[7:0]", 8) ∷ [])
    ∷ ("reg023busyOffLimit0", (not_used, 5) ∷ ("busy_off_limit[10:8]", 3) ∷ [])
    ∷ ("reg024busyOffLimit1", ("busy_off_limit[7:0]", 8) ∷ [])
    ∷ ("reg025dummy_READONLY", ("dummy", 8) ∷ [])
    ∷ ("reg026dummy_READONLY", ("dummy", 8) ∷ [])
    ∷ ("reg027dummy_READONLY", ("dummy", 8) ∷ [])
    ∷ ("reg028dummy_READONLY", ("dummy", 8) ∷ [])
    ∷ ("reg029dummy_READONLY", ("dummy", 8) ∷ [])
    ∷ ("reg030dummy_READONLY", ("dummy", 8) ∷ [])
    ∷ ("reg031l1EventsWithoutComma", ("l1_events_no_comma", 8) ∷ [])
    ∷ (
      "reg032vmmCapture0Status_READONLY",
      (not_used, 3)
          ∷ ("fifo_full_err", 1)
          ∷ ("coherency_err", 1)
          ∷ ("dec_err", 1)
          ∷ ("misaligned_err", 1)
          ∷ ("aligned", 1)
          ∷ [],
    )
    ∷ (
      "reg033vmmCapture1Status_READONLY",
      (not_used, 3)
          ∷ ("fifo_full_err", 1)
          ∷ ("coherency_err", 1)
          ∷ ("dec_err", 1)
          ∷ ("misaligned_err", 1)
          ∷ ("aligned", 1)
          ∷ [],
    )
    ∷ (
      "reg034vmmCapture2Status_READONLY",
      (not_used, 3)
          ∷ ("fifo_full_err", 1)
          ∷ ("coherency_err", 1)
          ∷ ("dec_err", 1)
          ∷ ("misaligned_err", 1)
          ∷ ("aligned", 1)
          ∷ [],
    )
    ∷ (
      "reg035vmmCapture3Status_READONLY",
      (not_used, 3)
          ∷ ("fifo_full_err", 1)
          ∷ ("coherency_err", 1)
          ∷ ("dec_err", 1)
          ∷ ("misaligned_err", 1)
          ∷ ("aligned", 1)
          ∷ [],
    )
    ∷ (
      "reg036vmmCapture4Status_READONLY",
      (not_used, 3)
          ∷ ("fifo_full_err", 1)
          ∷ ("coherency_err", 1)
          ∷ ("dec_err", 1)
          ∷ ("misaligned_err", 1)
          ∷ ("aligned", 1)
          ∷ [],
    )
    ∷ (
      "reg037vmmCapture5Status_READONLY",
      (not_used, 3)
          ∷ ("fifo_full_err", 1)
          ∷ ("coherency_err", 1)
          ∷ ("dec_err", 1)
          ∷ ("misaligned_err", 1)
          ∷ ("aligned", 1)
          ∷ [],
    )
    ∷ (
      "reg038vmmCapture6Status_READONLY",
      (not_used, 3)
          ∷ ("fifo_full_err", 1)
          ∷ ("coherency_err", 1)
          ∷ ("dec_err", 1)
          ∷ ("misaligned_err", 1)
          ∷ ("aligned", 1)
          ∷ [],
    )
    ∷ (
      "reg039vmmCapture7Status_READONLY",
      (not_used, 3)
          ∷ ("fifo_full_err", 1)
          ∷ ("coherency_err", 1)
          ∷ ("dec_err", 1)
          ∷ ("misaligned_err", 1)
          ∷ ("aligned", 1)
          ∷ [],
    )
    ∷ []
