-- ===== src/Core/Examples.antt =====
-- A client and what it sees, for the tests: a registered client that is idle, with a lifetime of 60
-- seconds, at the time of 100 seconds.
use anjay_lite.Base.{ℕ, true, false, [], ◌∷◌, none, some, ◌*◌}
use anjay_lite.Base.Int.{pos}
use anjay_lite.Core.{
  Client, ConnStatus, registered, NetResult, net_ok, net_in_progress, idle, connection,
  boot_connection, finished_op, in_progress_code,
}
use anjay_lite.Core.Calls.{Calls}
use anjay_lite.Exchange.Setup.{zero_msg}
use anjay_lite.ExchangeCache.{Cache}
use anjay_lite.Time.{Duration, invalid, time_zero}

abbrev pub seconds : ℕ → Duration
seconds n = pos (n * 1000000)

abbrev pub empty_cache : Cache
empty_cache = record {
  handling_retransmission = false;
  cache_recent = record { response = zero_msg; payload = []; expiration_time = invalid };
  cache_non_recent = [];
}

abbrev pub client : Client
client = record {
  server_state = record {
    disable_triggered = false;
    enable_time = time_zero;
    enable_time_user_triggered = time_zero;
    registration_update_triggered = false;
    bootstrap_request_triggered = false;
    restart_triggered = false;
    conn_status = registered;
  };
  session = record {
    next_update_time = seconds 130;
    queue_start_time = invalid;
    update_with_lifetime = false;
    update_with_payload = false;
    internal_state = idle;
    transition_forced = false;
  };
  registration = record {
    retry_count = 0;
    retry_seq_count = 0;
    retry_timeout = time_zero;
    registration_state = connection;
  };
  bootstrap = record {
    bootstrap_state = boot_connection;
    bootstrap_retry_attempt = 0;
    bootstrap_timeout = time_zero;
  };
  server_instance = record {
    ssid = 1;
    iid = 0;
    lifetime = seconds 60;
    retry_res = record {
      retry_count = 2;
      retry_timer = 10;
      seq_delay_timer = 100;
      seq_retry_count = 2;
    };
    bootstrap_on_registration_failure = false;
    mute_send = false;
  };
  client_hold_off_time = time_zero;
  register_ctx = record {
    internal_state = finished_op;
    location_path = (114 ∷ 100 ∷ []) ∷ (49 ∷ []) ∷ [];
    with_payload = false;
  };
  bootstrap_ctx = record {
    in_progress = false;
    bootstrap_finish_handled = false;
    error_code = in_progress_code;
    bootstrap_finish_timeout = time_zero;
    bootstrap_lifetime = seconds 247;
  };
  queue_mode_enabled = false;
  queue_mode_timeout = seconds 93;
  bootstrap_retry_count = 3;
  bootstrap_retry_timeout = seconds 10;
  exchange_cache = empty_cache;
}

-- A client that is registered, and has to restart
abbrev pub restarting_client : Client
restarting_client = record client {
  server_state = record client.server_state { restart_triggered = true };
}

abbrev pub with_status : ConnStatus → Client
with_status s = record client { server_state = record client.server_state { conn_status = s } }

abbrev pub calls_with : NetResult → Calls
calls_with result = record {
  now = seconds 100;
  undefined_delay = invalid;
  connect_result = result;
  close_result = result;
  receive_result = result;
  handle_result = result;
  rx_off_result = result;
  message = none;
  response_code = 0;
  response_prepared = true;
  request_prepared = true;
  incoming_callbacks = [];
  callbacks = [];
  send_ready = false;
  notification_ready = false;
  max_transmit_wait = seconds 93;
  limits = record { paths_number = 4; path_size = 4 };
  server_object = record {
    lifetime = some (pos 60);
    retry_count = some 2;
    retry_timer = some 10;
    seq_delay_timer = some 100;
    seq_retry_count = some 2;
    bootstrap_on_registration_failure = some false;
    mute_send = some false;
  };
  server_instance_data = some (1, 0);
  security_instance_found = true;
  server_uri_resolved = true;
  client_hold_off_time = some (pos 0);
  bootstrap_validation_ok = true;
}

-- The network does what it is asked,
abbrev pub working : Calls
working = calls_with net_ok

-- or has nothing new.
abbrev pub pending : Calls
pending = calls_with net_in_progress
