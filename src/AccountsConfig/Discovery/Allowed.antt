-- ===== src/AccountsConfig/Discovery/Allowed.antt =====
-- CanAddAccount says what CreateAndPersistAccountConfig will do.
use bitbox_wallet_app.Prelude.Run.{Run}
use bitbox_wallet_app.AccountsConfig.{AccountsConfig}
