-- ===== src/Agent.antt =====
-- The agent-facing serializers, under src/cf_knowledge_kiln/agent.
pub mod ContextPack
pub mod Answer
