-- ===== src/I2c/Maps/RocDigital/From040.antt =====
-- ROC_DIGITAL_REGISTERS of NSWConfiguration/I2cRegisterMappings.h: a part.
use nswconfiguration.Common.{[], ◌∷◌}
use nswconfiguration.I2c.Codec.{AddressRegisterMap}
use nswconfiguration.Utility.{not_used}

abbrev pub roc_digital_from_040 : AddressRegisterMap
roc_digital_from_040 =
    (
      "reg040sRoc0Status_READONLY",
      (not_used, 5) ∷ ("ttc_fifo_full", 1) ∷ ("enc_err", 1) ∷ ("event_full", 1) ∷ [],
    )
    ∷ (
      "reg041sRoc1Status_READONLY",
      (not_used, 5) ∷ ("ttc_fifo_full", 1) ∷ ("enc_err", 1) ∷ ("event_full", 1) ∷ [],
    )
    ∷ (
      "reg042sRoc2Status_READONLY",
      (not_used, 5) ∷ ("ttc_fifo_full", 1) ∷ ("enc_err", 1) ∷ ("event_full", 1) ∷ [],
    )
    ∷ (
      "reg043sRoc3Status_READONLY",
      (not_used, 5) ∷ ("ttc_fifo_full", 1) ∷ ("enc_err", 1) ∷ ("event_full", 1) ∷ [],
    )
    ∷ ("reg044seu_READONLY", (not_used, 7) ∷ ("seu", 1) ∷ [])
    ∷ ("reg045parityCounterVmm0_READONLY", ("parity_counter", 8) ∷ [])
    ∷ ("reg046parityCounterVmm1_READONLY", ("parity_counter", 8) ∷ [])
    ∷ ("reg047parityCounterVmm2_READONLY", ("parity_counter", 8) ∷ [])
    ∷ ("reg048parityCounterVmm3_READONLY", ("parity_counter", 8) ∷ [])
    ∷ ("reg049parityCounterVmm4_READONLY", ("parity_counter", 8) ∷ [])
    ∷ ("reg050parityCounterVmm5_READONLY", ("parity_counter", 8) ∷ [])
    ∷ ("reg051parityCounterVmm6_READONLY", ("parity_counter", 8) ∷ [])
    ∷ ("reg052parityCounterVmm7_READONLY", ("parity_counter", 8) ∷ [])
    ∷ ("reg053seuCounter_READONLY", ("seu_counter", 8) ∷ [])
    ∷ ("reg054dummy_READONLY", ("dummy", 8) ∷ [])
    ∷ ("reg055dummy_READONLY", ("dummy", 8) ∷ [])
    ∷ ("reg056dummy_READONLY", ("dummy", 8) ∷ [])
    ∷ ("reg057dummy_READONLY", ("dummy", 8) ∷ [])
    ∷ ("reg058dummy_READONLY", ("dummy", 8) ∷ [])
    ∷ ("reg059dummy_READONLY", ("dummy", 8) ∷ [])
    ∷ ("reg060dummy_READONLY", ("dummy", 8) ∷ [])
    ∷ ("reg061dummy_READONLY", ("dummy", 8) ∷ [])
    ∷ ("reg062dummy_READONLY", ("dummy", 8) ∷ [])
    ∷ (
      "reg063timeoutStatus",
      ("vmm7", 1)
          ∷ ("vmm6", 1)
          ∷ ("vmm5", 1)
          ∷ ("vmm4", 1)
          ∷ ("vmm3", 1)
          ∷ ("vmm2", 1)
          ∷ ("vmm1", 1)
          ∷ ("vmm0", 1)
          ∷ [],
    )
    ∷ []
