-- ===== src/Redis/Expiry.antt =====
-- `RequeueExpired` of internal/state/redis_queue.go loses and doubles nothing.
