-- ===== src/Project/Tests.antt =====
-- Kinds of concrete handlers and data sources.
use subql_cosmos.Base.{◌≡◌, refl, true, none, some, []}
use subql_cosmos.Project.{Handler, DataSource, is_custom_cosmos_ds}

abbrev evm : DataSource
evm = record { kind = "cosmos/EthermintEvm"; processor = some "bundle.js"; handlers = [] }

abbrev evm_handler : Handler
evm_handler = record { kind = "cosmos/EthermintEvmEvent"; handler = "f"; filter = none }

evm_custom : is_custom_cosmos_ds evm ≡ true
unfolding is_custom_cosmos_ds
evm_custom = refl
