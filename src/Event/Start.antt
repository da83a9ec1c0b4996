-- ===== src/Event/Start.antt =====
-- src/log_events.c: the settings at the start, and which variables are logged.
use classicladder.Common.{ℤ, ℕ, pos, negsuc, pos_part, ◌+ℤ◌, Bool, true, false, update, for_below}
use classicladder.State.{size_var_array}
use classicladder.Event.Types.{
  ConfigEvent, AlarmType, RemoteAlarms, Logger, put_log, nbr_config_events_log, nbr_alarms_slots,
}

unfoldable pub init_log_datas : Logger → Logger
init_log_datas l = put_log l (record (l.log) { last_event = negsuc 0; nbr_events = pos 0 })

unfoldable pub init_log_config : Logger → Logger
unfolding for_below
init_log_config l = record l {
  config_event_log =
      for_below nbr_config_events_log
        (λ k config. update config (pos k) (record {
          first_var_num = negsuc 0;
          nbr_vars = pos 0;
          event_level = pos 0;
          symbol = "";
          text = "";
          remote_alarms_forward_slot = pos 0;
        }))
        (l.config_event_log);
}

-- one round of InitRemoteAlarmsConfig
abbrev pub init_alarm_slot : ℕ → RemoteAlarms → RemoteAlarms
init_alarm_slot k a = record a {
  slot_name = update (a.slot_name) (pos k) "";
  alarm_type = update (a.alarm_type) (pos k) AlarmType.no_alarm;
  telephone_number = update (a.telephone_number) (pos k) "";
  email_address = update (a.email_address) (pos k) "";
}

unfoldable pub init_remote_alarms_config : Logger → Logger
unfolding for_below
init_remote_alarms_config l =
    let slots =
      for_below nbr_alarms_slots init_alarm_slot
        (record (l.remote_alarms_config) { global_enabled = false }) in
    record l {
      remote_alarms_config = record slots {
        center_server_sms = "";
        smtp_server_for_emails = "";
        smtp_server_user_name = "";
        smtp_server_password = "";
        email_sender_address = "";
      };
    }

-- the variables of one setting
unfoldable pub tag_config : ConfigEvent → (ℤ → Bool) → ℤ → Bool
unfolding for_below
tag_config c tags =
    for_below (pos_part (c.nbr_vars)) (λ k marked. update marked (c.first_var_num +ℤ pos k) true)
      tags

unfoldable pub init_vars_array_log_tags : Logger → Logger
unfolding tag_config for_below
init_vars_array_log_tags l =
    let none =
      for_below (size_var_array (l.plc.sizes)) (λ k tags. update tags (pos k) false)
        (l.plc.log_var_array) in
    record l {
      plc = record (l.plc) {
        log_var_array =
            for_below nbr_config_events_log (λ k tags. tag_config (l.config_event_log (pos k)) tags)
              none;
      };
    }
