-- ===== src/Server/Tasks/Entries.antt =====
-- src/aio/server.rs: what the table of the server holds for a client while `Server::run` runs.
