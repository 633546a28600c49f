-- ===== src/Convert.antt =====
-- pkg/convert: what becomes of OTLP spans. The children model trace IDs, sample rates and the
-- classification of spans.
pub mod TraceId
pub mod Values
pub mod Classification
pub mod SampleRate
pub mod Messages
pub mod Status
pub mod Translate
pub mod Request
