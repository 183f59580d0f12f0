-- ===== src/Protocol.antt =====
-- The wire protocol: primitives, dataclasses, messages and obfuscation.
pub mod Struct
pub mod Value
pub mod Platform
pub mod Primitives
pub mod Dataclass
pub mod Message
pub mod Messages
pub mod Obfuscation
