-- ===== src/Tools.antt =====
-- Tools of a request body: Shapes (src/utils/tool-shapes.ts) and Blocklist (src/utils/tool-blocklist.ts).
pub mod Shapes
pub mod Blocklist
