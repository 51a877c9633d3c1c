-- ===== src/Endpoints/Documented/Requested.antt =====
-- Every method of the client sends the request that its doc comment names.
