-- ===== src/Broker/TopicConfig/Check.antt =====
-- msgCheck (stgbroker/abstract_send_message_processor.go): what a broker looks at before it stores
-- a message. `is_retry` is whether the name of a topic contains the prefix of the retry topics.
use ttstringgolangiot.Base.{
  ℕ, Bool, true, false, not, ◌&&◌, Option, none, some, String, if◌then◌else◌,
}
use ttstringgolangiot.Base.Int.{ℤ, pos, ltb_ℤ}
use ttstringgolangiot.Common.Flags.{is_writeable_perm, topic_build_sys_flag}
use ttstringgolangiot.Broker.TopicConfig.{
  BrokerConfig, TopicConfig, TopicConfigManager, Created, config_of, fails, is_order_topic,
  is_topic_can_send_message, select_topic_config, create_topic_in_send_message_method,
  create_topic_in_send_message_back_method,
}

pub record SendMessageRequestHeader : Type 0 where
  pub topic : String
  pub default_topic : String
  pub default_topic_queue_nums : ℤ
  pub queue_id : ℤ
  pub unit_mode : Bool

-- The codes of the response; `unchanged` is that of the response that was given.
pub data ResponseCode : Type 0 where
  no_permission : ResponseCode
  system_error : ResponseCode
  topic_not_exist : ResponseCode
  unchanged : ResponseCode

abbrev pub id_valid : TopicConfig → ℤ
id_valid c =
    if ltb_ℤ c.read_queue_nums c.write_queue_nums then c.write_queue_nums else c.read_queue_nums

-- The second way to create a topic is taken for a retry topic where the first fails.
abbrev pub or_back :
    Bool
    → TopicConfig × TopicConfigManager
    → Created × TopicConfigManager
    → Option TopicConfig × TopicConfigManager
or_back retry back (config_of c, m) = (some c, m)
or_back true back (fails e, m) = (some back.0, back.1)
or_back false back (fails e, m) = (none, m)

module _ (config : BrokerConfig) (broker_permission : ℕ) (is_retry : String → Bool) (now : ℕ) where
  -- The configuration of a topic that has none yet.
  unfoldable pub config_for_new :
      SendMessageRequestHeader → TopicConfigManager → Option TopicConfig × TopicConfigManager
  config_for_new h m =
      let retry = is_retry h.topic in
      let sys_flag = if h.unit_mode then topic_build_sys_flag (not retry) retry else 0 in
      let made =
        create_topic_in_send_message_method config now h.topic h.default_topic
          h.default_topic_queue_nums sys_flag m in
      let back = create_topic_in_send_message_back_method now h.topic (pos 1) 6 sys_flag (made.1) in
      or_back retry back made

  unfoldable pub config_for :
      SendMessageRequestHeader → TopicConfigManager → Option TopicConfig × TopicConfigManager
  config_for h m = elim (select_topic_config h.topic m) [
    | some c ↦ (some c, m)
    | none ↦ config_for_new h m
  ]

  unfoldable pub msg_check :
      SendMessageRequestHeader → TopicConfigManager → ResponseCode × TopicConfigManager
  msg_check h m =
      let found = config_for h m in
      let code : ResponseCode = elim (found.0) [
        | none ↦ topic_not_exist
        | some c ↦ if ltb_ℤ h.queue_id (id_valid c) then unchanged else system_error
      ] in
      if not (is_writeable_perm broker_permission) && is_order_topic h.topic m
      then (no_permission, m)
      else if not (is_topic_can_send_message config h.topic)
      then (system_error, m)
      else (code, found.1)
