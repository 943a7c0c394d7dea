-- ===== src/Constants/HttpStatus.antt =====
-- HTTP_STATUS of src/utils/constants.ts.
use tms_api.Prelude.{ℕ}

abbrev pub bad_request : ℕ
bad_request = 400

abbrev pub unauthorized : ℕ
unauthorized = 401

abbrev pub forbidden : ℕ
forbidden = 403

abbrev pub not_found : ℕ
not_found = 404

abbrev pub conflict : ℕ
conflict = 409

abbrev pub internal_server_error : ℕ
internal_server_error = 500

abbrev pub ok : ℕ
ok = 200

abbrev pub created : ℕ
created = 201
