-- ===== src/Tools/Blocklist/Choice.antt =====
-- src/utils/tool-blocklist.ts, sanitizeToolChoice: the field `tool_choice`, and the other fields.
