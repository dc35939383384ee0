-- ===== src/Agent.antt =====
-- core/doktok_core/agent and core/doktok_core/tools: the loop that answers a question with tools.
pub mod Tools
pub mod Messages
pub mod Loop
mod Examples
