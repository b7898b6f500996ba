-- ===== src/Lib.antt =====
-- A verification library of the configuration code of the New Small Wheel front-end electronics.
--
-- The program reads a configuration tree of an element and makes from it the bits that are written
-- to the chips. A VMM is configured by one bit string (VMMCodec, VMMConfig). The registers of the
-- ROC, the TDS, the ART and the pad trigger are addressed one by one, with a bit string at each
-- address (I2cMasterCodec, I2cMasterConfig), laid out by constant register maps. A GBTx has 436
-- bytes, into which named settings are or-ed at the places of a constant table (GBTxConfig). The VMM
-- and the I2C code use the bit strings, byte vectors and the overflow check of Utility.
--
-- The hardware classes write these values through OPC servers. DeviceManager keeps the devices in
-- groups, configures each group and counts the failures; OpcManager keeps one connection for a device,
-- pings all of them, lists the bad ones and waits for servers that restart. PadTrigger drives the
-- FPGA of the pad trigger over I2C, and chooses its 24 input delays by a scan (the deskew).
-- Router resets its board and writes the board's ID to GPIO lines. SCAGeoIdentifier reads from a
-- device's address where the device is.
--
-- The files and the code:
--   Utility.antt, Utility/     src/Utility.cpp, NSWConfiguration/Utility.h
--   Vmm/Tables.antt            the tables of NSWConfiguration/VMMCodec.h
--   Vmm/Codec.antt             src/VMMCodec.cpp: build_config is VMMCodec::buildConfig and so on
--   Vmm/Config.antt            src/VMMConfig.cpp: the record VmmConfig is the object, a setter
--                              returns the object as it leaves it and its result
--   I2c/Codec.antt             nsw::I2cMasterCodec of src/I2cMasterConfig.cpp
--   I2c/Config.antt            nsw::I2cMasterConfig of src/I2cMasterConfig.cpp
--   I2c/Maps.antt, I2c/Maps/   the register maps of NSWConfiguration/I2cRegisterMappings.h
--   I2c/Masters.antt           the objects over these maps
--   Gbtx/Map.antt, Gbtx/Maps.antt, Gbtx/Maps/   the table of NSWConfiguration/GBTxRegisterMap.h
--   Gbtx/Config.antt           src/GBTxConfig.cpp: the 436 bytes, set, reset and the training
--   PadTrigger.antt, PadTrigger/Names.antt, PadTrigger/Packing.antt, PadTrigger/Delays.antt,
--   PadTrigger/Deskew.antt, PadTrigger/Scan.antt   src/hw/PadTrigger.cpp: the registers and the
--                              sub-registers of the FPGA, the words of delays, the choice of the
--                              delays, and the scan
--   Opc/Manager.antt           src/hw/OpcManager.cpp; Opc/Steps.antt has the calls and threads as a
--                              step relation, one step for what runs under the mutex; clear takes
--                              none, and is a step when no other call runs beside it
--   Devices/Manager.antt       src/hw/DeviceManager.cpp and NSWConfiguration/hw/DeviceManager.h
--   Router/Id.antt, Router/Configure.antt   src/hw/Router.cpp: the ID and the calls on the board
--   Geo/Names.antt             getElementType and tokenizeString of src/Utility.cpp
--   Geo/Identifier.antt        src/SCAGeoIdentifier.cpp
--   Common.antt, Bits.antt, Stream.antt, Text.antt and the folders of these names   what the
--                              components share: lists, maps, results, actions on a state that may
--                              throw, bit strings and masks, std::stoul, loops that append to a stream
--   Runs.antt, Runs/           whole configurations, with the parameters written out
-- The other files below these folders hold proofs, and are named for what they prove.
--
-- An exception is the result `err issue`, with one constructor of Issue for each kind. A bit string
-- is a list of Booleans, an unsigned a number below 2 ^ 32, a map with string keys an association
-- list with one entry for a key.
--
-- Parameters are the fmt library (Utility/Fmt.antt), boost's property tree (Ptree.antt), the I2C link
-- to the FPGA (PadTrigger/Link.antt), the OPC client (Opc/Client.antt), the GPIO lines of a router
-- (Router/Board.antt) and what a device does when it is configured (the record Hardware of
-- Devices/Manager.antt), as records of operations with the documented laws that the proofs need. The
-- wrappers src/hw/SCAInterface.cpp and src/OpcClient.cpp of the UaoClient library belong to them. The
-- files of Runs/ have an instance of each. The order in which threads come to run is an argument, and
-- so is what a 32-bit word becomes when it is shifted by 32, which C++ leaves undefined.
--
-- The loops follow their lists, or the number of their rounds. The loop of stringToByteVector runs on
-- fuel: the length of the string, of which each round takes a character at least. A thread that waits
-- or pings until it is stopped is a sequence of steps of any length.
--
-- Not modelled are the log messages, the printing methods, the readers of JSON files with the
-- converter of their names, the sender of configurations, the applications of the run control and the
-- monitoring, which are input and output around these objects, and the copies of fmt and omniORB; the
-- classes of the front-end boards and the other trigger electronics; and of the pad trigger the
-- repeaters, the VTTx, the GPIO lines and the upload of the firmware.
pub mod Common
pub mod Bits
pub mod Text
pub mod Ptree
pub mod Vmm
pub mod I2c
pub mod Stream
pub mod Utility
pub mod PadTrigger
pub mod Opc
pub mod Devices
pub mod Geo
pub mod Router
pub mod Runs
pub mod Gbtx
