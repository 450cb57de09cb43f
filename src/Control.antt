-- ===== src/Control.antt =====
-- src/controlobject.h and src/controlobject.cpp: parts of the class CControlObject.
pub mod Tokens
pub mod TokenLookup
pub mod Address
pub mod HostGuid
pub mod Heartbeat
pub mod Bytes
pub mod Payload
pub mod Run
pub mod Session
pub mod Threads
pub mod Nodes
pub mod ItemLocks
pub mod Handles
pub mod HandleUse
pub mod Json
pub mod Config
pub mod Drivers
pub mod Settings
pub mod Entries
pub mod Logging
pub mod LogLevels
pub mod LogFields
pub mod ReadJson
pub mod Accepted
pub mod Init
pub mod Ready
pub mod ServerGuid
pub mod MqttLog
