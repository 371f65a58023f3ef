-- ===== src/Api/Vaults/Race.antt =====
-- Two requests that both read the row before either of them writes it.
