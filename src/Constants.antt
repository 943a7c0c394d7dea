-- ===== src/Constants.antt =====
-- src/utils/constants.ts.
pub mod HttpStatus
pub mod ErrorCodes
use tms_api.Prelude.{ℕ}

abbrev pub default_page : ℕ
default_page = 1

abbrev pub default_limit : ℕ
default_limit = 20

abbrev pub max_limit : ℕ
max_limit = 100
