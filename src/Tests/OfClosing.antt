-- ===== src/Tests/OfClosing.antt =====
-- Tests and examples of closing a connection.
use goktls.Base.{◌+◌, ◌≡◌, ◌⊎◌, refl, true, false, List, [], ◌∷◌, Option, none, some}
use goktls.Conn.Closing.{
  Closing, CloseError, already_closed, close, close_again, close_notify, close_notify_again,
}
use goktls.Conn.Send.{
  max_payload_size_for_write, send_alert_locked, send_data, send_fragment, send_fragments,
  send_record, write,
}
use goktls.Conn.{Sent}
use goktls.Record.HalfConn.{ConnError}
use goktls.Record.Protect.{encrypt}
use goktls.Tests.Data.{toy_ops, open_network, fresh}

abbrev open_connection : Closing
open_connection = record {
  conn = record (fresh []) { handshake_complete = true };
  active_call = 0;
  close_notify_sent = false;
  close_notify_err = none;
  deadlines = [];
  conn_closes = 0;
}

abbrev closed_connection : Closing
closed_connection = record {
  conn = record (fresh []) {
    handshake_complete = true;
    send_buf = 21 ∷ 3 ∷ 1 ∷ 0 ∷ 2 ∷ 1 ∷ 0 ∷ [];
  };
  active_call = 1;
  close_notify_sent = true;
  close_notify_err = none;
  deadlines = 0 ∷ 5 ∷ [];
  conn_closes = 1;
}

abbrev closes_well : List Sent → Option ConnError
closes_well sent = none

it_closes : close toy_ops open_network closes_well open_connection ≡ some (none, closed_connection)
unfolding close send_alert_locked send_record send_data send_fragments send_fragment write encrypt
    max_payload_size_for_write
it_closes = refl

close_again_example :
    (close toy_ops open_network closes_well closed_connection
      ≡ some (some already_closed, closed_connection))
    × (((◌≡◌ {A = Option CloseError} none (some already_closed))
          × (closed_connection ≡ open_connection))
        ⊎ (1 ≡ 0 + 1))
close_again_example =
    close_again toy_ops open_network closes_well open_connection closed_connection none it_closes

abbrev notified_connection : Closing
notified_connection = record closed_connection { active_call = 0; conn_closes = 0 }

it_notifies :
    close_notify toy_ops open_network closes_well open_connection ≡ some (none, notified_connection)
unfolding close_notify send_alert_locked send_record send_data send_fragments send_fragment write
    encrypt max_payload_size_for_write
it_notifies = refl

close_notify_again_example :
    close_notify toy_ops open_network closes_well notified_connection
    ≡ some (none, notified_connection)
close_notify_again_example =
    close_notify_again toy_ops open_network closes_well open_connection notified_connection none
      it_notifies
