-- ===== src/Client/SmartApps.antt =====
-- pybotx/client/smartapps_api and pybotx/models/smartapps.py, with the methods of `Client` that use them.
mod Events
mod Manifest
mod Methods
unfoldable pub use Events.*
unfoldable pub use Manifest.*
unfoldable pub use Methods.*
