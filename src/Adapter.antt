-- ===== src/Adapter.antt =====
-- internal/model/openaicompat/adapter.go and internal/model/fake/adapter.go: the model adapters.
pub mod Cost
pub mod Call
pub mod Chunks
pub mod Emission
pub mod Consume
pub mod Builders
pub mod Emitted
pub mod Transcript
pub mod Streams
pub mod Body
pub mod Fake
