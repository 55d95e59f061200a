-- ===== src/Client/Accounts/Life.antt =====
-- A client from `kcpev_create_client` to `kcpev_destroy`.
