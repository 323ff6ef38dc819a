-- ===== src/Template/Render.antt =====
-- dbx/sqltmplx/render: the tree of a template becomes a query with its arguments.
pub mod Sample
pub mod Skips
pub mod Bind
pub mod Clean
pub mod Nodes
