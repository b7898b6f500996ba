-- ===== src/Opc/Client.antt =====
-- nsw::OpcClient as src/hw/OpcManager.cpp uses it. src/OpcClient.cpp passes its calls on to the
-- UaoClient library, which is not part of the repository; a connection is made or fails, and a device
-- answers or not.
use nswconfiguration.Common.{String, Bool}
use nswconfiguration.Common.Results.{Result}

pub record OpcClient (Client : Type 0) : Type 0 where
  -- OpcClient(port)
  pub connect : String → Result Client

-- How the devices answer readScaOnline at the time of a call.
abbrev pub Answers : Type 0 → Type 0
Answers Client = Client → String → Result Bool
