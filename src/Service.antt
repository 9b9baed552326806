-- ===== src/Service.antt =====
-- `service_manager` (skynet-src/service/service_manager.h and .cpp). The order of names is in
-- Service/Name, the sorted array of names in Service/Names, the slots of services in Service/Slots.
pub mod Name
pub mod Names
pub mod Slots
pub mod Tests
