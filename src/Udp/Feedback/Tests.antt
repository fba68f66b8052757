-- ===== src/Udp/Feedback/Tests.antt =====
-- The delivery statistics on a small input.
