-- ===== src/Client/Users.antt =====
-- pybotx/client/users_api and pybotx/models/users.py, with the methods of `Client` that use them.
mod Found
mod Search
mod Profile
mod Csv
unfoldable pub use Found.*
unfoldable pub use Search.*
unfoldable pub use Profile.*
unfoldable pub use Csv.*
