-- ===== src/Vmm/Tables.antt =====
-- NSWConfiguration/VMMCodec.h: names and sizes of the registers, in the order of the bit string.
use nswconfiguration.Common.{ℕ, String, List, [], ◌∷◌}
use nswconfiguration.Utility.{not_used}

-- {register name, register size in bits}
abbrev pub NameSize : Type 0
NameSize = String × ℕ

abbrev pub global_name_size0 : List NameSize
global_name_size0 =
    ("reset", 2)
    ∷ (not_used, 5)
    ∷ ("stgc", 1)
    ∷ ("slxh", 1)
    ∷ ("slh", 1)
    ∷ ("sL0enaV", 1)
    ∷ ("slvs6b", 1)
    ∷ ("slvsena", 1)
    ∷ ("slvstki", 1)
    ∷ ("slvsart", 1)
    ∷ ("slvsdt", 1)
    ∷ ("slvstk", 1)
    ∷ ("slvstp", 1)
    ∷ ("slvsbc", 1)
    ∷ ("sfrst", 1)
    ∷ ("srat", 1)
    ∷ ("sbip", 1)
    ∷ ("stlc", 1)
    ∷ ("srec", 1)
    ∷ ("ssart", 1)
    ∷ ("stcr", 1)
    ∷ ("s32", 1)
    ∷ ("slvs", 1)
    ∷ ("res", 4)
    ∷ ("res00", 1)
    ∷ ("stpp", 1)
    ∷ ("sdrv", 1)
    ∷ ("sdck6b", 1)
    ∷ ("sdcka", 1)
    ∷ ("sdcks", 1)
    ∷ ("s10b", 1)
    ∷ ("s6b", 1)
    ∷ ("s8b", 1)
    ∷ ("sc6b", 3)
    ∷ ("sc8b", 2)
    ∷ ("sc10b", 2)
    ∷ ("sdp_dac", 10)
    ∷ ("sdt_dac", 10)
    ∷ ("stc", 2)
    ∷ ("ssh", 1)
    ∷ ("sttt", 1)
    ∷ ("stot", 1)
    ∷ ("sng", 1)
    ∷ ("sg", 3)
    ∷ ("sfm", 1)
    ∷ ("st", 2)
    ∷ ("sfam", 1)
    ∷ ("sfa", 1)
    ∷ ("scmx", 1)
    ∷ ("sm", 6)
    ∷ ("slg", 1)
    ∷ ("sbfm", 1)
    ∷ ("sbfp", 1)
    ∷ ("sbft", 1)
    ∷ ("sbmx", 1)
    ∷ ("sdp", 1)
    ∷ ("sp", 1)
    ∷ []

abbrev pub global_name_size1 : List NameSize
global_name_size1 =
    (not_used, 8)
    ∷ ("offset", 12)
    ∷ ("l0offset", 12)
    ∷ ("rollover", 12)
    ∷ ("window", 3)
    ∷ ("nskip", 7)
    ∷ ("truncate", 6)
    ∷ ("sL0ena", 1)
    ∷ ("sL0ckinv", 1)
    ∷ ("sL0dckinv", 1)
    ∷ ("sL0cktest", 1)
    ∷ ("nskipm", 1)
    ∷ (not_used, 31)
    ∷ []

abbrev pub channel_name_size : List NameSize
channel_name_size =
    ("channel_sc", 1)
    ∷ ("channel_sl", 1)
    ∷ ("channel_st", 1)
    ∷ ("channel_sth", 1)
    ∷ ("channel_sm", 1)
    ∷ ("channel_smx", 1)
    ∷ ("channel_sd", 5)
    ∷ ("channel_sz10b", 5)
    ∷ ("channel_sz8b", 4)
    ∷ ("channel_sz6b", 3)
    ∷ (not_used, 1)
    ∷ []

-- Registers whose bits are reversed in the bit string.
abbrev pub bitreversed_registers : List String
bitreversed_registers = "sm" ∷ "st" ∷ "sg" ∷ "sdt_dac" ∷ "sdp_dac" ∷ []
