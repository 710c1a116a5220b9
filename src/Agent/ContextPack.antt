-- ===== src/Agent/ContextPack.antt =====
-- The context pack of src/cf_knowledge_kiln/agent/serializers.py.
pub mod Shapes
pub mod Trim
pub mod Evidence
pub mod Assembly
pub mod Budget
pub mod Safety
pub mod Reasons
