-- ===== src/Geo.antt =====
-- src/SCAGeoIdentifier.cpp, and the element types of src/Utility.cpp: where a device stands, read
-- from the name of its OPC node. A std::string is the list of its codes here.
pub mod Names
pub mod Identifier
pub mod Values
