-- ===== src/Tools.antt =====
-- app/tools and app/agents/tool_router.py: the tools that an agent can call.
pub mod Kubernetes
pub mod Playbook
pub mod Demos
pub mod Router
