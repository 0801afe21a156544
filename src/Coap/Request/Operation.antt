-- ===== src/Coap/Request/Operation.antt =====
-- The operation that is recognized (src/anj/coap/decode.c).
use anjay_lite.Base.{ℕ, ◌≡◌, Bool, true, Option, arith}
use anjay_lite.Coap.{
  Op, dm_read, dm_read_comp, dm_discover, dm_write_replace, dm_write_partial_update, dm_write_attr,
  dm_write_comp, dm_execute, dm_create, dm_delete, inf_observe, inf_observe_comp,
  inf_cancel_observe, inf_cancel_observe_comp, bootstrap_finish, coap_code,
}
use anjay_lite.Coap.Options.{ok}
use anjay_lite.Coap.Request.{
  code_get, code_post, code_put, code_delete, code_fetch, code_ipatch, request_operation,
  post_operation, validate_uri_path,
}
use anjay_lite.Utils.UriPath.{UriPath}

-- The method that the LwM2M transport binding gives an operation of the server.
abbrev pub method : Op → ℕ
method dm_read = code_get
method dm_discover = code_get
method inf_observe = code_get
method inf_cancel_observe = code_get
method dm_read_comp = code_fetch
method inf_observe_comp = code_fetch
method inf_cancel_observe_comp = code_fetch
method dm_write_replace = code_put
method dm_write_attr = code_put
method dm_write_partial_update = code_post
method dm_execute = code_post
method dm_create = code_post
method bootstrap_finish = code_post
method dm_write_comp = code_ipatch
method dm_delete = code_delete
method _ = coap_code 7 31

-- An operation is recognized only in a request with the method that the transport binding gives it,
-- whatever the path, the formats and the observe option are.
pub request_operation-method :
    (code accept format : ℕ) (uri : UriPath) (is_bs : Bool) (observe : Option Bool) (op : Op)
    → request_operation code accept format uri is_bs observe ≡ ok op
    → method op ≡ code
unfolding request_operation post_operation
request_operation-method code accept format uri is_bs observe op e = ground (arith, e)

-- A POST that is recognized, unless it is Bootstrap-Finish, always has a path that suits its operation.
pub validate_uri_path-post :
    (accept format : ℕ) (uri : UriPath) (is_bs : Bool) (observe : Option Bool) (op : Op)
    → request_operation code_post accept format uri is_bs observe ≡ ok op
    → validate_uri_path op uri ≡ true
unfolding request_operation post_operation validate_uri_path
validate_uri_path-post accept format uri is_bs observe op e = ground (arith, e)
